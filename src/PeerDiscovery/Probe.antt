-- ===== src/PeerDiscovery/Probe.antt =====
-- `probe_tcp_receive`: how fast a peer sends.
pub mod Closing
use hyper_link.Base.{
  ℕ, zero, suc, ◌+◌, ◌-◌, ◌*◌, min, true, false, Option, none, some, ◌++◌, Text, codes, ltb, ◌==◌,
  if◌then◌else◌, Error, runtime_error,
}
use hyper_link.Base.Program.{Program, ◌>>=◌, ◌>>◌, pure, throw, lift}
use hyper_link.Base.Triple.{call}
use hyper_link.PeerDiscovery.{DiscoveredPeer, PeerDiscoveryOptions}
use hyper_link.PeerDiscovery.Network.{
  Network, stream, Ipv4Endpoint, Connecting, connected, in_progress, refused, Moved, bytes_moved,
  would_block, move_failed, throw_last, ipv4_endpoint, with_handle, set_nonblocking,
  wait_for_socket, open_socket,
}

unfoldable pub socket_failed : Text → Error
socket_failed message = runtime_error (codes "probe socket failed: " ++ message)

unfoldable pub connect_failed : Text → Error
connect_failed message = runtime_error (codes "probe connect failed: " ++ message)

unfoldable pub receive_failed : Text → Error
receive_failed message = runtime_error (codes "probe receive failed: " ++ message)

unfoldable pub no_data : Error
no_data = runtime_error (codes "probe received no data")

abbrev pub probe_buffer_bytes : ℕ
probe_buffer_bytes = 64 * 1024

-- A point in time so many milliseconds behind another.
unfoldable pub deadline_after : ℕ → ℕ → ℕ
deadline_after milliseconds now = now + milliseconds * 1000000

module _ {W : Type 0} (net : Network W) where
  -- `error` stays 0 when the call that reads it fails.
  unfoldable pub check_connected : Option ℕ → Program W (Unit {0})
  check_connected none = throw (connect_failed (net.strerror 0))
  check_connected (some error) =
      if error == 0 then pure tt else throw (connect_failed (net.strerror error))

  unfoldable pub finish_connect : ℕ → ℕ → Connecting → Program W (Unit {0})
  finish_connect socket deadline connected = pure tt
  finish_connect socket deadline refused = throw_last net connect_failed
  finish_connect socket deadline in_progress =
      wait_for_socket net socket true deadline
      >> (call (net.socket_error socket) >>= check_connected)

  -- The end of a round of the loop, with the bytes so far and the rounds behind it.
  unfoldable pub end_round : (ℕ → Program W ℕ) → ℕ → Moved → Program W ℕ
  end_round rounds received move_failed = throw_last net receive_failed
  end_round rounds received would_block = rounds received
  end_round rounds received (bytes_moved n) =
      if n == 0 then pure received else rounds (received + n)

  -- Every round reads the clock, so that as much fuel as there are readings before the deadline is
  -- enough.
  unfoldable pub probe_loop : ℕ → ℕ → ℕ → ℕ → ℕ → Program W ℕ
  probe_loop zero payload socket deadline received = λ w. none
  probe_loop (suc fuel) payload socket deadline received =
      if ltb received payload
      then wait_for_socket net socket false deadline
        >> (call (net.recv socket (min probe_buffer_bytes (payload - received)))
            >>= end_round (probe_loop fuel payload socket deadline) received)
      else pure received

-- `measure bytes elapsed` is the quotient of two numbers of type `double`, the time in nanoseconds and
-- at least one.
module _ {R W : Type 0} (net : Network W) (measure : ℕ → ℕ → R) where
  unfoldable pub timed_probe : ℕ → ℕ → ℕ → ℕ → Program W R
  timed_probe fuel payload socket deadline = do
    started ← call net.now
    received ← probe_loop net fuel payload socket deadline 0
    if received == 0
        then throw no_data
        else call net.now >>= λ ended. pure (measure received (ended - started))

  unfoldable pub connected_probe : ℕ → PeerDiscoveryOptions → ℕ → Ipv4Endpoint → Program W R
  connected_probe fuel options socket endpoint = call net.now >>= λ now.
      call (net.connect socket endpoint) >>= λ connecting.
      finish_connect net socket (deadline_after options.probe_timeout now) connecting
      >> timed_probe fuel options.probe_payload_bytes socket
          (deadline_after options.probe_timeout now)

  unfoldable pub probe_tcp_receive : ℕ → DiscoveredPeer R → PeerDiscoveryOptions → Program W R
  probe_tcp_receive fuel peer options = open_socket net stream socket_failed >>= λ socket.
      with_handle net socket (
        set_nonblocking net socket
        >> (lift (ipv4_endpoint net peer.endpoint.host peer.endpoint.probe_port)
            >>= connected_probe fuel options socket))
