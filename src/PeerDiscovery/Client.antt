-- ===== src/PeerDiscovery/Client.antt =====
-- `PeerDiscovery`: `discover`, `select_fastest` and `connect_fastest`, and the harness that its tests
-- run instead of the network.
pub mod Closing
pub mod Harness
use hyper_link.Base.{
  ℕ, Bool, true, false, Option, none, some, List, [], ◌∷◌, ◌++◌, Text, codes, if◌then◌else◌, Error,
  runtime_error, Result, ok, err,
}
use hyper_link.Base.Program.{Program, ◌>>=◌, ◌>>◌, pure, throw}
use hyper_link.Base.Triple.{call}
use hyper_link.Tcp.{TcpEndpoint, TcpTransport, client, new_transport}
use hyper_link.PeerDiscovery.{DiscoveredPeer, PeerDiscoveryOptions}
use hyper_link.PeerDiscovery.Network.{Network, ipv4_string, timed_out}
use hyper_link.PeerDiscovery.Ranking.{Rates, no_peer, deduplicate_candidates, rank_candidates}
use hyper_link.PeerDiscovery.Targets.{Interface, enumerate_discovery_targets}
use hyper_link.PeerDiscovery.Replies.{Replies, receive_discovery_replies}
use hyper_link.PeerDiscovery.Probe.{probe_tcp_receive}

unfoldable pub selected_tcp_endpoint : {R : Type 0} → TcpEndpoint → DiscoveredPeer R → TcpEndpoint
selected_tcp_endpoint endpoint peer = record endpoint {
  host = peer.endpoint.host;
  port = peer.endpoint.transfer_port;
}

module _ {R : Type 0} ⦃rates : Rates R⦄ where
  unfoldable pub discover_and_rank :
      {W : Type 0}
      → Program W Replies
      → (DiscoveredPeer R → W → Result R × W)
      → Program W (DiscoveredPeer R)
  discover_and_rank replies probe = replies >>= λ found w. some (rank_candidates probe found w)

  unfoldable pub some_peer :
      {W : Type 0} → List (DiscoveredPeer R) → Program W (List (DiscoveredPeer R))
  some_peer [] = throw no_peer
  some_peer (peer ∷ peers) = pure (peer ∷ peers)

  module _ {W : Type 0} (net : Network W) (measure : ℕ → ℕ → R)
      (getifaddrs : W → Option (List Interface) × W) where
    unfoldable pub find_replies : ℕ → PeerDiscoveryOptions → Program W Replies
    find_replies fuel options = call getifaddrs >>= λ interfaces.
        receive_discovery_replies net fuel options
          (enumerate_discovery_targets (ipv4_string net) interfaces)

    unfoldable pub discover : ℕ → PeerDiscoveryOptions → Program W (List (DiscoveredPeer R))
    discover fuel options =
        find_replies fuel options >>= λ replies. some_peer (deduplicate_candidates replies)

    -- A probe always returns or throws when its fuel is enough, and the first case does not arise.
    unfoldable pub outcome : W → Option (Result R × W) → Result R × W
    outcome w none = (err timed_out, w)
    outcome w (some result) = result

    unfoldable pub probe : ℕ → PeerDiscoveryOptions → DiscoveredPeer R → W → Result R × W
    probe fuel options peer w = outcome w (probe_tcp_receive net measure fuel peer options w)

    unfoldable pub select_fastest : ℕ → PeerDiscoveryOptions → Program W (DiscoveredPeer R)
    select_fastest fuel options = discover_and_rank (find_replies fuel options) (probe fuel options)

    unfoldable pub connect_fastest : ℕ → PeerDiscoveryOptions → TcpEndpoint → Program W TcpTransport
    connect_fastest fuel options endpoint = select_fastest fuel options >>= λ peer.
        pure (new_transport client (selected_tcp_endpoint endpoint peer))

-- `PeerDiscoveryTestHarness`, its maps as functions from their keys, a host and a probe port.
pub record TestHarness (R : Type 0) : Type 0 where
  pub replies : Replies
  pub probe_rates : Text × ℕ → Option R
  pub probe_failures : Text × ℕ → Option Text
  pub probed_endpoints : List (Text × ℕ)

unfoldable pub no_rate : Error
no_rate = runtime_error (codes "no probe rate configured")

module _ {R : Type 0} where
  abbrev pub endpoint_key : DiscoveredPeer R → Text × ℕ
  endpoint_key peer = (peer.endpoint.host, peer.endpoint.probe_port)

  unfoldable pub configured_rate : Option Text → Option R → Result R
  configured_rate (some failure) rate = err (runtime_error failure)
  configured_rate none (some rate) = ok rate
  configured_rate none none = err no_rate

  unfoldable pub harness_probe : DiscoveredPeer R → TestHarness R → Result R × TestHarness R
  harness_probe peer harness = (
    configured_rate (harness.probe_failures (endpoint_key peer))
        (harness.probe_rates (endpoint_key peer)),
    record harness { probed_endpoints = harness.probed_endpoints ++ (endpoint_key peer ∷ []) },
  )

  unfoldable pub harness_select_fastest :
      ⦃rates : Rates R⦄ → Program (TestHarness R) (DiscoveredPeer R)
  harness_select_fastest harness =
      discover_and_rank (λ s. some (ok s.replies, s)) harness_probe harness
