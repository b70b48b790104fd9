-- ===== src/PeerDiscovery/Ranking/Cycle.antt =====
-- The comparison of `source_address_precedes` where a source is no IPv4 address.
use hyper_link.Base.{◌≡◌, refl, true, false, [], Text, codes, text_eq, text_lt, break_at, arith}
use hyper_link.PeerDiscovery.{DiscoveredPeer}
use hyper_link.PeerDiscovery.Decimal.{parse_decimal, is_decimal, all_digits, is_digit, digits_value}
use hyper_link.PeerDiscovery.Ipv4.{parse_ipv4, octets_from, parse_octet}
use hyper_link.PeerDiscovery.Ranking.{source_address_precedes, octets_precede, text_precedes}

-- A peer with a source, of any rate.
abbrev seen_at : Text → DiscoveredPeer (Unit {0})
seen_at source = record {
  endpoint = record { host = source; transfer_port = 1; probe_port = 1; parallel_streams = 1 };
  display_name = [];
  source_address = source;
  measured_bytes_per_second = tt;
}

-- By number 9.0.0.1 comes before 10.0.0.1, but by its spelling behind it, and "5" is between the two.
seen_in_circle :
    (source_address_precedes (seen_at (codes "9.0.0.1")) (seen_at (codes "10.0.0.1")) ≡ true)
    × (source_address_precedes (seen_at (codes "10.0.0.1")) (seen_at (codes "5")) ≡ true)
    × (source_address_precedes (seen_at (codes "9.0.0.1")) (seen_at (codes "5")) ≡ false)
unfolding source_address_precedes octets_precede text_precedes text_lt parse_ipv4 octets_from
    parse_octet break_at parse_decimal is_decimal all_digits is_digit digits_value text_eq
seen_in_circle = (refl, refl, refl)

-- Over peers with any sources the comparison is not transitive, so that it is no order to sort by.
pub source_address_precedes_intransitive : ¬ (
    (a b c : DiscoveredPeer (Unit {0}))
    → source_address_precedes a b ≡ true
    → source_address_precedes b c ≡ true
    → source_address_precedes a c ≡ true)
source_address_precedes_intransitive transitive =
    let (first, second, third) = seen_in_circle in
    let holds = transitive _ _ _ first second in absurd (ground (arith, holds, third))
