-- ===== src/FileTransfer/Send/Discovered.antt =====
-- The start of `run_send`: the options with the receiver that was discovered.
use hyper_link.Base.{◌+◌, ◌-◌, codes, ltb, if◌then◌else◌, Error, runtime_error, Result, ok, err}
use hyper_link.PeerDiscovery
use hyper_link.PeerDiscovery.{DiscoveredPeer, PeerDiscoveryOptions}
use hyper_link.FileTransfer.Args.{Options}

unfoldable pub ports_exceed : Error
ports_exceed = runtime_error (codes "discovered peer port plus parallel stream count exceeds 65535")

-- The options of the discovery.
unfoldable pub discovery_options : Options → PeerDiscoveryOptions
discovery_options options = record PeerDiscovery.default_options {
  discovery_port = options.discovery_port;
}

module _ {R : Type 0} where
  unfoldable pub towards : Options → DiscoveredPeer R → Options
  towards options receiver = record options {
    host = receiver.endpoint.host;
    port = receiver.endpoint.transfer_port;
    parallel = receiver.endpoint.parallel_streams;
  }

  -- The sum is one of 64 bits; a peer that was discovered has at least one stream.
  unfoldable pub discovered_options : Options → DiscoveredPeer R → Result Options
  discovered_options options receiver =
      if ltb 65535 (receiver.endpoint.transfer_port + receiver.endpoint.parallel_streams - 1)
      then err ports_exceed
      else ok (towards options receiver)
