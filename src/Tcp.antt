-- ===== src/Tcp.antt =====
-- src/network_transport.cpp (the POSIX variants): sockets that are owned by handles, and the transport over
-- TCP. The socket calls of the system are an interface.
pub mod Ledger
pub mod Ownership
pub mod Closing
pub mod Sending
use hyper_link.Base.{
  ℕ, zero, suc, ◌+◌, ◌*◌, min, Bool, true, false, ◌&&◌, is_empty, Option, none, some, List, [], ◌∷◌,
  ◌++◌, Text, codes, take, drop, length, ◌==◌, if◌then◌else◌, Error, logic_error, runtime_error,
  Result, ok, err,
}
use hyper_link.Base.Program.{Program}
use hyper_link.PeerDiscovery.Decimal.{to_string}
use hyper_link.AutoConfig.{AutoConfigOptions, NegotiatedConfig}
use hyper_link.Session.{PeerInfo, Transport, UsbSpeed, unknown}

pub record TcpEndpoint : Type 0 where
  pub host : Text
  pub port : ℕ
  pub send_buffer_bytes : ℕ
  pub receive_buffer_bytes : ℕ

-- `SO_SNDBUF` and `SO_RCVBUF`.
pub data BufferOption : Type 0 where
  send_buffer receive_buffer : BufferOption

-- The calls of the system, on a state `W` of the world, for addresses of a type `A`. A descriptor is a
-- number, and `none` is the invalid one; a host is `none` for a null pointer; a test is true on success. `send` and `recv` return `none` for a
-- negative result. The message of the last error is a part of the world.
pub record Sockets (A W : Type 0) : Type 0 where
  pub getaddrinfo : Option Text → Text → Bool → W → Result (List A) × W
  pub socket : A → W → Option ℕ × W
  pub connect : ℕ → A → W → Bool × W
  pub set_reuse_address : ℕ → W → W
  pub bind : ℕ → A → W → Bool × W
  pub listen : ℕ → W → Bool × W
  pub accept : ℕ → W → Option ℕ × W
  pub set_no_delay : ℕ → W → W
  pub set_buffer : ℕ → BufferOption → ℕ → W → W
  pub send : ℕ → Text → W → Option ℕ × W
  pub recv : ℕ → ℕ → W → Option Text × W
  pub close : ℕ → W → W
  pub last_socket_error : W → Text

unfoldable pub port_string : ℕ → Text
port_string port = to_string port

pub data TcpMode : Type 0 where
  client server : TcpMode

-- The state of a `TcpTransport`. A `SocketHandle` is the descriptor that it owns.
pub record TcpTransport : Type 0 where
  pub mode : TcpMode
  pub endpoint : TcpEndpoint
  pub data_socket : Option ℕ
  pub listen_socket : Option ℕ

abbrev pub max_buffer_bytes : ℕ
max_buffer_bytes = 1024 * 1024 * 1024

abbrev pub send_chunk_bytes : ℕ
send_chunk_bytes = 1024 * 1024

unfoldable pub tcp_not_connected : Error
tcp_not_connected = logic_error (codes "TCP transport is not connected")

-- The transport that `make_tcp_client_transport` and `make_tcp_server_transport` create.
unfoldable pub new_transport : TcpMode → TcpEndpoint → TcpTransport
new_transport mode endpoint = record {
  mode = mode;
  endpoint = endpoint;
  data_socket = none;
  listen_socket = none;
}

unfoldable pub display_name : TcpMode → TcpEndpoint → Text
display_name client endpoint =
    codes "TCP peer " ++ (endpoint.host ++ (codes ":" ++ port_string endpoint.port))
display_name server endpoint =
    codes "TCP listener " ++ (endpoint.host ++ (codes ":" ++ port_string endpoint.port))

-- The host of `ResolvedAddresses`: any address, for a listener without a host.
unfoldable pub node_name : TcpEndpoint → Bool → Option Text
node_name endpoint passive = if passive && is_empty endpoint.host then none else some endpoint.host

module _ {A W : Type 0} (sockets : Sockets A W) where
  unfoldable pub failed : Text → W → Error
  failed what w = runtime_error (what ++ sockets.last_socket_error w)

  -- `SocketHandle::reset` without an argument, which is also the destructor.
  unfoldable pub reset : Option ℕ → W → W
  reset none w = w
  reset (some descriptor) w = sockets.close descriptor w

  unfoldable pub set_socket_buffer : ℕ → BufferOption → ℕ → W → W
  set_socket_buffer descriptor option bytes w =
      if bytes == 0 then w else sockets.set_buffer descriptor option (min bytes max_buffer_bytes) w

  unfoldable pub tune_socket : ℕ → TcpEndpoint → W → W
  tune_socket descriptor endpoint w =
      set_socket_buffer descriptor receive_buffer endpoint.receive_buffer_bytes (
        set_socket_buffer descriptor send_buffer endpoint.send_buffer_bytes
          (sockets.set_no_delay descriptor w))

  unfoldable pub resolve_endpoint : TcpEndpoint → Bool → W → Result (List A) × W
  resolve_endpoint endpoint passive w =
      sockets.getaddrinfo (node_name endpoint passive) (port_string endpoint.port) passive w

  -- The loop of `connect_socket` over the addresses; a socket that does not connect is closed by its
  -- handle at the end of the round.
  unfoldable pub connect_loop : TcpEndpoint → List A → W → Result ℕ × W
  connect_loop endpoint [] w = (err (failed (codes "connect failed: ") w), w)
  connect_loop endpoint (address ∷ addresses) w =
      let (outcome, w₁) = sockets.socket address w in
      elim outcome [
        | none ↦ connect_loop endpoint addresses w₁
        | some descriptor ↦
            let (outcome, w₂) = sockets.connect descriptor address w₁ in
            elim outcome [
              | true ↦ (ok descriptor, tune_socket descriptor endpoint w₂)
              | false ↦ connect_loop endpoint addresses (reset (some descriptor) w₂)
            ]
      ]

  unfoldable pub connect_socket : TcpEndpoint → W → Result ℕ × W
  connect_socket endpoint w =
      let (outcome, w₁) = resolve_endpoint endpoint false w in
      elim outcome [
        | err error ↦ (err error, w₁)
        | ok addresses ↦ connect_loop endpoint addresses w₁
      ]

  unfoldable pub listen_loop : List A → W → Result ℕ × W
  listen_loop [] w = (err (failed (codes "listen failed: ") w), w)
  listen_loop (address ∷ addresses) w =
      let (outcome, w₁) = sockets.socket address w in
      elim outcome [
        | none ↦ listen_loop addresses w₁
        | some descriptor ↦
            let (outcome, w₂) =
              sockets.bind descriptor address (sockets.set_reuse_address descriptor w₁) in
            elim outcome [
              | false ↦ listen_loop addresses (reset (some descriptor) w₂)
              | true ↦
                  let (outcome, w₃) = sockets.listen descriptor w₂ in
                  elim outcome [
                    | false ↦ listen_loop addresses (reset (some descriptor) w₃)
                    | true ↦ (ok descriptor, w₃)
                  ]
            ]
      ]

  unfoldable pub listen_socket : TcpEndpoint → W → Result ℕ × W
  listen_socket endpoint w =
      let (outcome, w₁) = resolve_endpoint endpoint true w in
      elim outcome [ err error ↦ (err error, w₁) | ok addresses ↦ listen_loop addresses w₁ ]

  unfoldable pub discover : AutoConfigOptions → Program (TcpTransport × W) (List PeerInfo)
  discover options (transport, w) =
      let display = display_name transport.mode transport.endpoint in
      some (
        ok (
            record {
              id = display;
              display_name = display;
              vendor_id = 0;
              product_id = 0;
              usb_speed = unknown;
              theoretical_bits_per_second = 0;
              supports_high_speed = true;
              supports_super_speed = true;
            }
            ∷ []),
        (transport, w),
      )

  -- `data_socket_ = ...` and `listen_socket_ = ...`: the descriptor that was owned before is closed.
  unfoldable pub set_data_socket : TcpTransport → ℕ → W → TcpTransport × W
  set_data_socket transport descriptor w =
      (record transport { data_socket = some descriptor }, reset transport.data_socket w)

  unfoldable pub set_listen_socket : TcpTransport → ℕ → W → TcpTransport × W
  set_listen_socket transport descriptor w =
      (record transport { listen_socket = some descriptor }, reset transport.listen_socket w)

  -- The server's part of `connect` behind the listening socket.
  unfoldable pub accept_peer : ℕ → TcpTransport × W → Result (Unit {0}) × (TcpTransport × W)
  accept_peer listening (transport, w) =
      let (outcome, w₁) = sockets.accept listening w in
      elim outcome [
        | none ↦ (err (failed (codes "accept failed: ") w₁), (transport, w₁))
        | some descriptor ↦ (
          ok tt,
          set_data_socket transport descriptor (tune_socket descriptor transport.endpoint w₁),
        )
      ]

  unfoldable pub connect_as : TcpMode → TcpTransport × W → Result (Unit {0}) × (TcpTransport × W)
  connect_as client (transport, w) =
      let (outcome, w₁) = connect_socket transport.endpoint w in
      elim outcome [
        | err error ↦ (err error, (transport, w₁))
        | ok descriptor ↦ (ok tt, set_data_socket transport descriptor w₁)
      ]
  connect_as server (transport, w) =
      let (outcome, w₁) = listen_socket transport.endpoint w in
      elim outcome [
        | err error ↦ (err error, (transport, w₁))
        | ok descriptor ↦ accept_peer descriptor (set_listen_socket transport descriptor w₁)
      ]

  unfoldable pub connect : PeerInfo → NegotiatedConfig → Program (TcpTransport × W) (Unit {0})
  connect peer config (transport, w) = some (connect_as transport.mode (transport, w))

  -- The loop of `send` over the rest of the payload, with the number of bytes sent; each round that goes
  -- on sends at least one, so that as much fuel as bytes is enough.
  unfoldable pub send_loop : ℕ → ℕ → Text → ℕ → W → Option (Result ℕ × W)
  send_loop fuel descriptor [] sent w = some (ok sent, w)
  send_loop zero descriptor (c ∷ rest) sent w = none
  send_loop (suc fuel) descriptor (c ∷ rest) sent w =
      let (outcome, w₁) =
        sockets.send descriptor (take (min (length (c ∷ rest)) send_chunk_bytes) (c ∷ rest)) w in
      elim outcome [
        | none ↦ some (err (failed (codes "send failed: ") w₁), w₁)
        | some zero ↦ some (err (failed (codes "send failed: ") w₁), w₁)
        | some (suc n) ↦ send_loop fuel descriptor (drop (suc n) (c ∷ rest)) (sent + suc n) w₁
      ]

  unfoldable pub keep_transport :
      {B : Type 0} → TcpTransport → Option (Result B × W) → Option (Result B × (TcpTransport × W))
  keep_transport transport none = none
  keep_transport transport (some (result, w)) = some (result, (transport, w))

  unfoldable pub send_over : Option ℕ → Text → W → Option (Result ℕ × W)
  send_over none payload w = some (err tcp_not_connected, w)
  send_over (some descriptor) payload w = send_loop (length payload) descriptor payload 0 w

  unfoldable pub send : Text → Program (TcpTransport × W) ℕ
  send payload (transport, w) = keep_transport transport (send_over transport.data_socket payload w)

  unfoldable pub receive_over : Option ℕ → ℕ → W → Option (Result Text × W)
  receive_over none size w = some (err tcp_not_connected, w)
  receive_over (some descriptor) size w =
      let (outcome, w₁) = sockets.recv descriptor size w in
      elim outcome [
        | none ↦ some (err (failed (codes "receive failed: ") w₁), w₁)
        | some received ↦ some (ok received, w₁)
      ]

  unfoldable pub receive_into : ℕ → Program (TcpTransport × W) Text
  receive_into size (transport, w) =
      keep_transport transport (receive_over transport.data_socket size w)

  -- The buffer is cut to the bytes that were received.
  unfoldable pub receive : ℕ → Program (TcpTransport × W) Text
  receive max_bytes state = receive_into max_bytes state

  unfoldable pub close : TcpTransport × W → TcpTransport × W
  close (transport, w) = (
    record transport { data_socket = none; listen_socket = none },
    reset transport.listen_socket (reset transport.data_socket w),
  )

  -- The destructor: the handles go in the reverse order of their declarations.
  unfoldable pub destroy : TcpTransport × W → TcpTransport × W
  destroy (transport, w) = (
    record transport { data_socket = none; listen_socket = none },
    reset transport.data_socket (reset transport.listen_socket w),
  )

  -- `TcpTransport` as a `Transport`.
  unfoldable pub tcp_transport : Transport (TcpTransport × W)
  tcp_transport = record {
    discover = discover;
    connect = connect;
    send = send;
    receive = receive;
    receive_into = receive_into;
    close = close;
    destroy = destroy;
  }
