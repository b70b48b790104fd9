-- ===== src/PeerDiscovery/Responder/Serving.antt =====
-- The functions of the threads of a responder: `serve_discovery`, `serve_probes` and `send_probe_bytes`.
use hyper_link.Base.{
  ℕ, zero, suc, ◌+◌, ◌*◌, Bool, true, false, not, Option, none, some, List, [], ◌∷◌, ◌++◌, map,
  Text, codes, text_eq, length, leb, ltb, if◌then◌else◌,
}
use hyper_link.Base.Int.{pos}
use hyper_link.Base.Program.{Program, ◌>>=◌, ◌>>◌, pure}
use hyper_link.Base.Triple.{call, run}
use hyper_link.PeerDiscovery.{maximum_advertisement_bytes}
use hyper_link.PeerDiscovery.Network.{
  Network, Ipv4Endpoint, Selected, some_ready, Moved, bytes_moved, would_block, move_failed,
  with_handle, keep_handle, close_all, set_nonblocking,
}

unfoldable pub discovery_message : Text
discovery_message = codes "HLINK_DISCOVER_V2"

abbrev pub maximum_concurrent_probe_clients : ℕ
maximum_concurrent_probe_clients = 16

-- The timeout of the two `select` calls, in microseconds, and the size of the block that is sent.
abbrev pub poll_us : ℕ
poll_us = 100000

abbrev pub probe_block_bytes : ℕ
probe_block_bytes = 64 * 1024

abbrev pub one_second : ℕ
one_second = 1000000000

pub record ActiveProbe : Type 0 where
  pub socket : ℕ
  pub deadline : ℕ

abbrev pub sockets_of : List ActiveProbe → List ℕ
sockets_of clients = map (λ client. client.socket) clients

-- Whether `select` left a socket in the set.
abbrev pub is_readable : ℕ → Selected → Bool
is_readable socket (some_ready readable writable) = readable socket
is_readable socket _ = false

module _ {W : Type 0} (net : Network W) where
  -- A datagram that is the discovery message is answered, any other is dropped.
  unfoldable pub answer : ℕ → Text → Option (Text × Ipv4Endpoint) → Program W (Unit {0})
  answer socket advertisement none = pure tt
  answer socket advertisement (some (message, source)) =
      if text_eq message discovery_message
      then (call (net.sendto socket advertisement source) >>= λ sent. pure tt)
      else pure tt

  unfoldable pub discovery_round : ℕ → Text → Program W (Unit {0})
  discovery_round socket advertisement =
      call (net.select (socket ∷ []) [] (pos poll_us)) >>= λ selected.
      if is_readable socket selected
      then call (net.recvfrom socket maximum_advertisement_bytes) >>= answer socket advertisement
      else pure tt

  -- The rounds go on while the flag is set, and each of them reads it: the fuel is the number of the
  -- readings.
  unfoldable pub discovery_loop : ℕ → ℕ → Text → Program W (Unit {0})
  discovery_loop zero socket advertisement = λ w. none
  discovery_loop (suc fuel) socket advertisement = call net.running >>= λ running.
      if running
      then discovery_round socket advertisement >> discovery_loop fuel socket advertisement
      else pure tt

  unfoldable pub serve_discovery : ℕ → ℕ → Text → Program W (Unit {0})
  serve_discovery fuel socket advertisement =
      with_handle net socket (discovery_loop fuel socket advertisement)

  unfoldable pub keeps_client : Moved → Bool
  keeps_client (bytes_moved n) = ltb 0 n
  keeps_client would_block = true
  keeps_client move_failed = false

  unfoldable pub send_probe_bytes : ℕ → Program W Bool
  send_probe_bytes client =
      call (net.send client probe_block_bytes) >>= λ sent. pure (keeps_client sent)

  -- A client that is accepted while the vector is full is closed at once. The exception of
  -- `set_nonblocking` leaves the function of the thread, and `std::terminate` ends the process.
  unfoldable pub admit : ℕ → List ActiveProbe → Program W (List ActiveProbe)
  admit client clients =
      if leb maximum_concurrent_probe_clients (length clients)
      then run (net.close client) >> pure clients
      else keep_handle net client (set_nonblocking net client) >>= λ socket. call net.now >>= λ now.
          pure (clients ++ (record { socket = socket; deadline = now + one_second } ∷ []))

  -- A valid handle is admitted and the loop goes on, an invalid one ends it.
  unfoldable pub accepted :
      (List ActiveProbe → Program W (List ActiveProbe))
      → List ActiveProbe
      → Option ℕ
      → Program W (List ActiveProbe)
  accepted rounds clients none = pure clients
  accepted rounds clients (some client) = admit client clients >>= rounds

  unfoldable pub accept_loop : ℕ → ℕ → List ActiveProbe → Program W (List ActiveProbe)
  accept_loop zero listener clients = λ w. none
  accept_loop (suc fuel) listener clients = call net.running >>= λ running.
      if running
      then call (net.accept listener) >>= accepted (accept_loop fuel listener) clients
      else pure clients

  -- `remove_if` and `erase` with a test: the handles of the clients that are removed are closed.
  unfoldable pub keep_if :
      (ActiveProbe → Program W Bool) → List ActiveProbe → Program W (List ActiveProbe)
  keep_if test [] = pure []
  keep_if test (client ∷ clients) = test client >>= λ kept.
      if kept
      then (keep_if test clients >>= λ others. pure (client ∷ others))
      else run (net.close client.socket) >> keep_if test clients

  unfoldable pub is_current : ℕ → ActiveProbe → Program W Bool
  is_current now client = pure (not (leb client.deadline now))

  unfoldable pub is_served : Selected → ActiveProbe → Program W Bool
  is_served (some_ready readable writable) client =
      if writable client.socket then send_probe_bytes client.socket else pure true
  is_served _ client = pure true

  unfoldable pub accept_ready : ℕ → ℕ → List ActiveProbe → Selected → Program W (List ActiveProbe)
  accept_ready fuel listener clients selected =
      if is_readable listener selected then accept_loop fuel listener clients else pure clients

  -- A round behind the test of the flag.
  unfoldable pub probe_round : ℕ → ℕ → List ActiveProbe → Program W (List ActiveProbe)
  probe_round fuel listener clients =
      call (net.select (listener ∷ []) (sockets_of clients) (pos poll_us)) >>= λ selected.
      accept_ready fuel listener clients selected >>= λ admitted. call net.now >>= λ now.
      keep_if (is_current now) admitted >>= λ current. keep_if (is_served selected) current

  unfoldable pub probe_loop : ℕ → ℕ → List ActiveProbe → Program W (Unit {0})
  probe_loop zero listener clients = λ w. none
  probe_loop (suc fuel) listener clients = call net.running >>= λ running.
      if running
      then probe_round fuel listener clients >>= probe_loop fuel listener
      else run (close_all net (sockets_of clients))

  unfoldable pub serve_probes : ℕ → ℕ → Program W (Unit {0})
  serve_probes fuel listener = with_handle net listener (probe_loop fuel listener [])
