-- ===== src/PeerDiscovery/Replies.antt =====
-- `receive_discovery_replies`: the datagrams that answer a discovery message.
pub mod Opening
pub mod Closing
use hyper_link.Base.{
  ℕ, zero, suc, ◌+◌, Bool, true, false, ◌&&◌, not, Option, none, some, List, [], ◌∷◌, ◌++◌, Text,
  length, is_empty, leb, ltb, if◌then◌else◌, Result, ok, err,
}
use hyper_link.Base.Program.{Program, ◌>>=◌, ◌>>◌, pure, lift}
use hyper_link.Base.Triple.{call, run}
use hyper_link.PeerDiscovery.{PeerDiscoveryOptions, maximum_advertisement_bytes}
use hyper_link.PeerDiscovery.Network.{
  Network, Ipv4Endpoint, datagram, Selected, some_ready, select_failed, nothing_ready,
  ipv4_endpoint, ipv4_string, close_all, remaining_us,
}
use hyper_link.PeerDiscovery.Targets.{DiscoveryTarget}
use hyper_link.PeerDiscovery.Probe.{deadline_after}
use hyper_link.PeerDiscovery.Responder.Serving.{discovery_message}

abbrev pub Replies : Type 0
Replies = List (Text × Text)

unfoldable pub discovery_datagram_within_limit : ℕ → Bool
discovery_datagram_within_limit received_bytes = leb received_bytes maximum_advertisement_bytes

module _ {W : Type 0} (net : Network W) where
  -- The message is sent from an address to a port of another: false where the loop goes on without the
  -- socket.
  unfoldable pub send_message : ℕ → Ipv4Endpoint → Ipv4Endpoint → Program W Bool
  send_message socket from destination = call (net.bind socket from) >>= λ bound.
      if bound then call (net.sendto socket discovery_message destination) else pure false

  unfoldable pub message_sent : PeerDiscoveryOptions → DiscoveryTarget → ℕ → Program W Bool
  message_sent options target socket =
      run (net.set_option socket)
      >> (lift (ipv4_endpoint net target.bind_address 0) >>= λ from.
          lift (ipv4_endpoint net target.destination options.discovery_port)
          >>= send_message socket from)

  -- A handle that is moved into the vector, or that its scope closes.
  unfoldable pub keep_sent : ℕ → Program W Bool → Program W (List ℕ)
  keep_sent socket body w = elim (body w) [
    | none ↦ none
    | some (ok true, w') ↦ some (ok (socket ∷ []), w')
    | some (ok false, w') ↦ some (ok [], net.close socket w')
    | some (err error, w') ↦ some (err error, net.close socket w')
  ]

  unfoldable pub opened_target :
      PeerDiscoveryOptions → DiscoveryTarget → Option ℕ → Program W (List ℕ)
  opened_target options target none = pure []
  opened_target options target (some socket) = keep_sent socket (message_sent options target socket)

  -- An exception destroys the vector of the sockets so far.
  unfoldable pub or_close : {A : Type 0} → List ℕ → Program W A → Program W A
  or_close sockets body w = elim (body w) [
    | none ↦ none
    | some (ok a, w') ↦ some (ok a, w')
    | some (err error, w') ↦ some (err error, close_all net sockets w')
  ]

  unfoldable pub open_targets :
      PeerDiscoveryOptions → List DiscoveryTarget → List ℕ → Program W (List ℕ)
  open_targets options [] sockets = pure sockets
  open_targets options (target ∷ targets) sockets =
      or_close sockets (call (net.socket datagram) >>= opened_target options target) >>= λ opened.
      open_targets options targets (sockets ++ opened)

  unfoldable pub reply_of : Option (Text × Ipv4Endpoint) → Replies
  reply_of none = []
  reply_of (some (message, source)) =
      if not (is_empty message) && discovery_datagram_within_limit (length message)
      then (message, ipv4_string net source.address) ∷ []
      else []

  unfoldable pub receive_one : (ℕ → Bool) → ℕ → Program W Replies
  receive_one readable socket =
      if readable socket
      then (call (net.recvfrom socket (maximum_advertisement_bytes + 1)) >>= λ received.
          pure (reply_of received))
      else pure []

  unfoldable pub receive_each : (ℕ → Bool) → List ℕ → Replies → Program W Replies
  receive_each readable [] replies = pure replies
  receive_each readable (socket ∷ sockets) replies =
      receive_one readable socket >>= λ reply. receive_each readable sockets (replies ++ reply)

  -- `select` fails or runs out of time: the loop is left.
  unfoldable pub end_round :
      (Replies → Program W Replies) → List ℕ → Replies → Selected → Program W Replies
  end_round rounds sockets replies (some_ready readable writable) =
      receive_each readable sockets replies >>= rounds
  end_round rounds sockets replies select_failed = pure replies
  end_round rounds sockets replies nothing_ready = pure replies

  -- The loop. Every round reads the clock before the deadline, so that as much fuel as there are
  -- readings is enough.
  unfoldable pub reply_loop : ℕ → ℕ → List ℕ → Replies → Program W Replies
  reply_loop zero deadline sockets replies = λ w. none
  reply_loop (suc fuel) deadline [] replies = pure replies
  reply_loop (suc fuel) deadline (socket ∷ sockets) replies = call net.now >>= λ now.
      if ltb now deadline
      then (call net.now >>= λ later.
          call (net.select (socket ∷ sockets) [] (remaining_us deadline later))
          >>= end_round (reply_loop fuel deadline (socket ∷ sockets)) (socket ∷ sockets) replies)
      else pure replies

  unfoldable pub collect_replies : ℕ → PeerDiscoveryOptions → List ℕ → Program W Replies
  collect_replies fuel options sockets = call net.now >>= λ now.
      or_close sockets (reply_loop fuel (deadline_after options.discovery_timeout now) sockets [])
      >>= λ replies. run (close_all net sockets) >> pure replies

  unfoldable pub receive_discovery_replies :
      ℕ → PeerDiscoveryOptions → List DiscoveryTarget → Program W Replies
  receive_discovery_replies fuel options targets =
      open_targets options targets [] >>= collect_replies fuel options
