-- ===== src/PeerDiscovery.antt =====
-- src/peer_discovery.cpp, src/peer_discovery_internal.hpp and include/hyperlink/peer_discovery.hpp:
-- how peers announce themselves, and how one of them is chosen.
pub mod Advertisement
pub mod Client
pub mod Decimal
pub mod Ipv4
pub mod Network
pub mod Probe
pub mod Ranking
pub mod Replies
pub mod Responder
pub mod Targets
use hyper_link.Base.{ℕ, ◌*◌, Text}

pub record PeerEndpoint : Type 0 where
  pub host : Text
  pub transfer_port : ℕ
  pub probe_port : ℕ
  pub parallel_streams : ℕ

-- `R` stands for the type of the measured rates, `double` in the program.
pub record DiscoveredPeer (R : Type 0) : Type 0 where
  pub endpoint : PeerEndpoint
  pub display_name : Text
  pub source_address : Text
  pub measured_bytes_per_second : R

abbrev pub maximum_advertisement_bytes : ℕ
maximum_advertisement_bytes = 512

-- The timeouts are in milliseconds.
pub record PeerDiscoveryOptions : Type 0 where
  pub discovery_port : ℕ
  pub discovery_timeout : ℕ
  pub probe_timeout : ℕ
  pub probe_payload_bytes : ℕ

abbrev pub default_options : PeerDiscoveryOptions
default_options = record {
  discovery_port = 47789;
  discovery_timeout = 1500;
  probe_timeout = 500;
  probe_payload_bytes = 256 * 1024;
}
