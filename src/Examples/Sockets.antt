-- ===== src/Examples/Sockets.antt =====
-- Examples of sessions over TCP, on a small network.
use hyper_link.Base.{
  ℕ, ◌+◌, ◌≡◌, refl, arith, true, false, zero, suc, ◌≤◌, sym, ap, none, some, List, [], ◌∷◌, ◌++◌,
  Text, codes, take, length, Result, ok,
}
use hyper_link.AutoConfig.{default_options}
use hyper_link.Session.{PeerInfo, Session, unknown, destroy_session, open_session}
use hyper_link.Session.Protocol.{Request, connect_request, send_request, run}
use hyper_link.Tcp.{
  Sockets, TcpEndpoint, TcpTransport, client, new_transport, send, send_over, send_loop,
  keep_transport, tcp_transport,
}
use hyper_link.Tcp.Ledger.{Ledger, Balanced, counted, empty_ledger}
use hyper_link.Tcp.Closing.{tcp_sessions_close}
use hyper_link.Tcp.Sending.{SendsPrefix, Delivered, send_delivers}

-- The next descriptor, and the bytes on the wire. The first address takes no connection, and a call of
-- `send` takes at most two bytes.
abbrev pub network : Sockets ℕ (ℕ × Text)
network = record {
  getaddrinfo = λ host port passive w. (ok (1 ∷ 2 ∷ []), w);
  socket = λ a (n, wire). (some n, (n + 1, wire));
  connect = λ d a w. (elim a [ zero ↦ false | suc b ↦ elim b [ zero ↦ false | suc c ↦ true ] ], w);
  set_reuse_address = λ d w. w;
  bind = λ d a w. (true, w);
  listen = λ d w. (true, w);
  accept = λ d (n, wire). (some n, (n + 1, wire));
  set_no_delay = λ d w. w;
  set_buffer = λ d o n w. w;
  send = λ d payload (n, wire). (some (length (take 2 payload)), (n, wire ++ take 2 payload));
  recv = λ d n w. (none, w);
  close = λ d w. w;
  last_socket_error = λ w. codes "closed";
}

abbrev endpoint : TcpEndpoint
endpoint = record {
  host = codes "::1";
  port = 5000;
  send_buffer_bytes = 0;
  receive_buffer_bytes = 4096;
}

abbrev peer : PeerInfo
peer = record {
  id = codes "tcp";
  display_name = codes "TCP peer";
  vendor_id = 0;
  product_id = 0;
  usb_speed = unknown;
  theoretical_bits_per_second = 0;
  supports_high_speed = true;
  supports_super_speed = true;
}

abbrev requests : List Request
requests =
    connect_request peer default_options default_options (codes "link")
    ∷ send_request (codes "data")
    ∷ connect_request peer default_options default_options (codes "again")
    ∷ []

abbrev new_session : Session (TcpTransport × ((ℕ × Text) × Ledger))
new_session = record { transport = some (tcp_transport (counted network)); connected = false }

tcp_sessions_close_example :
    (state : Session (TcpTransport × ((ℕ × Text) × Ledger))
      × (TcpTransport × ((ℕ × Text) × Ledger)))
    × (run requests (new_session, (new_transport client endpoint, ((3, []), empty_ledger)))
        ≡ some state)
    × Balanced (destroy_session state).1.1 (λ x. 0)
unfolding open_session
tcp_sessions_close_example =
    tcp_sessions_close network client endpoint new_session (3, []) requests refl

abbrev connected_transport : TcpTransport
connected_transport = record {
  mode = client;
  endpoint = endpoint;
  data_socket = some 3;
  listen_socket = none;
}

take_two : (payload : Text) → take (length (take 2 payload)) payload ≡ take 2 payload
take_two [] = refl
take_two (a ∷ []) = refl
take_two (a ∷ b ∷ rest) = refl

take_two_le : (payload : Text) → length (take 2 payload) ≤ length payload
take_two_le [] = omega arith
take_two_le (a ∷ []) = omega arith
take_two_le (a ∷ b ∷ rest) = omega arith

network-SendsPrefix : SendsPrefix network (λ w. w.1) 3
network-SendsPrefix payload (n, wire) =
    (take_two_le payload, ap (◌++◌ wire) (sym (take_two payload)))

send_delivers_example :
    (r : Result ℕ) × (v : ℕ × Text) × (send network (codes "data") (connected_transport, (4, []))
      ≡ some (r, (connected_transport, v)))
    × Delivered r 0 (codes "data") [] v.1
send_delivers_example =
    send_delivers network (λ w. w.1) connected_transport 3 (codes "data") (4, []) refl
      network-SendsPrefix

delivered_data :
    send network (codes "data") (connected_transport, (4, []))
    ≡ some (ok 4, (connected_transport, (4, codes "data")))
unfolding send send_over send_loop keep_transport
delivered_data = refl
