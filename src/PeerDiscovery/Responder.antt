-- ===== src/PeerDiscovery/Responder.antt =====
-- `PeerDiscoveryResponder::Impl`: the two sockets of a responder and the two threads that serve them,
-- `start` and `stop`.
pub mod Serving
pub mod Probes
pub mod Rounds
pub mod Discovery
pub mod Starting
pub mod Switch
use hyper_link.Base.{
  ℕ, Bool, true, false, Option, none, some, List, [], ◌∷◌, ◌++◌, Text, codes, if◌then◌else◌, Error,
  peer_discovery_error, Result, ok, err,
}
use hyper_link.Base.Program.{Program, ◌>>=◌, ◌>>◌, pure, throw, lift}
use hyper_link.Base.Triple.{call, run}
use hyper_link.PeerDiscovery.Advertisement.{PeerDiscoveryResponderOptions, Configured, configure}
use hyper_link.PeerDiscovery.Network.{
  Network, Ipv4Endpoint, datagram, stream, require, ipv4_endpoint, open_socket, keep_handle,
  set_nonblocking,
}

unfoldable pub discovery_socket_failed : Text → Error
discovery_socket_failed message =
    peer_discovery_error (codes "discovery responder socket failed: " ++ message)

unfoldable pub discovery_bind_failed : Text → Error
discovery_bind_failed message =
    peer_discovery_error (codes "discovery responder bind failed: " ++ message)

unfoldable pub probe_socket_failed : Text → Error
probe_socket_failed message =
    peer_discovery_error (codes "probe responder socket failed: " ++ message)

unfoldable pub probe_bind_failed : Text → Error
probe_bind_failed message = peer_discovery_error (codes "probe responder bind failed: " ++ message)

-- The members. A thread that is joinable stands as the socket that its function owns, and closes at
-- its end.
pub record Responder : Type 0 where
  pub options : PeerDiscoveryResponderOptions
  pub selected_probe_port : ℕ
  pub advertisement : Text
  pub running : Bool
  pub discovery_thread : Option ℕ
  pub probe_thread : Option ℕ

abbrev pub new_responder : PeerDiscoveryResponderOptions → Responder
new_responder options = record {
  options = options;
  selected_probe_port = 0;
  advertisement = [];
  running = false;
  discovery_thread = none;
  probe_thread = none;
}

-- The constructor of `std::thread`: true on success, or it throws.
pub record Threads (W : Type 0) : Type 0 where
  pub create : W → Bool × W
  pub not_created : Error

module _ {W : Type 0} (net : Network W) where
  unfoldable pub bound_socket : ℕ → Ipv4Endpoint → Program W (Unit {0})
  bound_socket socket endpoint = require net discovery_bind_failed (net.bind socket endpoint)

  unfoldable pub make_udp_socket : PeerDiscoveryResponderOptions → Program W ℕ
  make_udp_socket options = open_socket net datagram discovery_socket_failed >>= λ socket.
      keep_handle net socket (
        run (net.set_option socket)
        >> (lift (ipv4_endpoint net options.bind_host options.discovery_port)
            >>= bound_socket socket))

  unfoldable pub listening_socket : ℕ → Ipv4Endpoint → Program W (Unit {0})
  listening_socket socket endpoint =
      require net probe_bind_failed (net.bind socket endpoint)
      >> require net probe_bind_failed (net.listen socket)

  unfoldable pub make_probe_socket : Text → ℕ → Program W ℕ
  make_probe_socket bind_host probe_port = open_socket net stream probe_socket_failed >>= λ socket.
      keep_handle net socket (
        run (net.set_option socket)
        >> (lift (ipv4_endpoint net bind_host probe_port) >>= listening_socket socket)
        >> set_nonblocking net socket)

  -- The end of a thread that is joined: its function returns, and its socket is closed.
  unfoldable pub join : Option ℕ → W → W
  join none w = w
  join (some socket) w = net.close socket w

  unfoldable pub stop : Responder × W → Responder × W
  stop (r, w) = (
    record r { running = false; discovery_thread = none; probe_thread = none },
    join r.probe_thread (join r.discovery_thread w),
  )

  module _ (threads : Threads W) where
    unfoldable pub create_probe_thread : ℕ → Program (Responder × W) (Unit {0})
    create_probe_thread socket (r, w) =
        let (created, w') = threads.create w in
        if created
        then some (ok tt, (record r { probe_thread = some socket }, w'))
        else some (err threads.not_created, (r, net.close socket w'))

    -- A socket is handed to its thread; one that gets none is closed.
    unfoldable pub create_threads : ℕ → ℕ → Program (Responder × W) (Unit {0})
    create_threads discovery_socket probe_socket (r, w) =
        let (created, w') = threads.create w in
        if created
        then create_probe_thread probe_socket
            (record r { discovery_thread = some discovery_socket }, w')
        else some
            (err threads.not_created, (r, net.close probe_socket (net.close discovery_socket w')))

    -- The second socket, with the first in scope.
    unfoldable pub open_second : ℕ → Program (Responder × W) (Unit {0})
    open_second discovery_socket (r, w) =
        elim (make_probe_socket r.options.bind_host r.selected_probe_port w) [
          | none ↦ none
          | some (err error, w') ↦ some (err error, (r, net.close discovery_socket w'))
          | some (ok probe_socket, w') ↦ create_threads discovery_socket probe_socket (r, w')
        ]

    unfoldable pub open_sockets : Program (Responder × W) (Unit {0})
    open_sockets (r, w) = elim (make_udp_socket r.options w) [
      | none ↦ none
      | some (err error, w') ↦ some (err error, (r, w'))
      | some (ok discovery_socket, w') ↦ open_second discovery_socket (r, w')
    ]

    -- The block of `start` that is tried. If the options are refused the members keep what they had: it
    -- is not read before the next `start` that sets them.
    unfoldable pub start_block : Program (Responder × W) (Unit {0})
    start_block (r, w) = elim (configure r.options) [
      | err error ↦ some (err error, (r, w))
      | ok configured ↦ open_sockets (
        record r {
          selected_probe_port = configured.selected_probe_port;
          advertisement = configured.advertisement;
        },
        w,
      )
    ]

    -- The handler stops and throws again.
    unfoldable pub or_stop :
        Option (Result (Unit {0}) × (Responder × W)) → Option (Result (Unit {0}) × (Responder × W))
    or_stop none = none
    or_stop (some (ok done, s)) = some (ok done, s)
    or_stop (some (err error, s)) = some (err error, stop s)

    unfoldable pub start : Program (Responder × W) (Unit {0})
    start (r, w) =
        if r.running
        then some (ok tt, (r, w))
        else or_stop (start_block (record r { running = true }, w))
