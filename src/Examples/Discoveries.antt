-- ===== src/Examples/Discoveries.antt =====
-- Examples of advertisements and of the choice among peers.
use hyper_link.Base.{
  ℕ, ◌≡◌, ◌⊎◌, refl, arith, some, List, [], ◌∷◌, Text, All, codes, break_at, ok, err, ltb, ◌==◌,
}
use hyper_link.Base.Order.{number_order}
use hyper_link.Base.Sort.{Occurs}
use hyper_link.PeerDiscovery.{DiscoveredPeer}
use hyper_link.PeerDiscovery.Decimal.{
  to_string, print_digits, parse_decimal, is_decimal, all_digits, is_digit, digits_value,
}
use hyper_link.PeerDiscovery.Ipv4.{parse_ipv4, octets_from, parse_octet}
use hyper_link.PeerDiscovery.Advertisement.{
  PeerDiscoveryResponderOptions, Configured, configure, has_gap, select_probe_port,
  with_advertisement, write_advertisement, advertisement_prefix, parse_peer_advertisement,
  invalid_options,
}
use hyper_link.PeerDiscovery.Advertisement.Configuration.{
  IsTyped, IsConfigured, configure-IsConfigured, Refusal, configure-Refusal,
}
use hyper_link.PeerDiscovery.Advertisement.RoundTrip.{parse_peer_advertisement-configure}
use hyper_link.PeerDiscovery.Ranking.{
  Rates, select_fastest_peer, empty_candidates, deduplicate_candidates,
}
use hyper_link.PeerDiscovery.Ranking.Fastest.{IsBest, select_fastest_peer-IsBest}
use hyper_link.PeerDiscovery.Ranking.Candidates.{
  IsAccepted, parse_peer_advertisement-IsAccepted, AreDistinct, SameEndpoint, Any, Announces,
  deduplicate_candidates-AreDistinct,
}

abbrev offer : PeerDiscoveryResponderOptions
offer = record {
  bind_host = codes "0.0.0.0";
  transfer_port = 47790;
  probe_port = 47791;
  discovery_port = 47789;
  parallel_streams = 4;
  display_name = codes "desk";
}

abbrev offered : Configured
offered = record {
  selected_probe_port = 47794;
  advertisement = codes "HLINK_PEER_V2 47790 47794 4 desk";
}

offer-IsTyped : IsTyped offer
offer-IsTyped = record {
  transfer_fits = omega arith;
  probe_fits = omega arith;
  discovery_fits = omega arith;
  streams_fit = omega arith;
}

offer_configured : configure offer ≡ ok offered
unfolding configure has_gap select_probe_port with_advertisement write_advertisement
    advertisement_prefix to_string print_digits
offer_configured = refl

desk_address : parse_ipv4 (codes "10.0.0.2") ≡ some (10 ∷ 0 ∷ 0 ∷ 2 ∷ [])
unfolding parse_ipv4 octets_from parse_octet break_at parse_decimal is_decimal all_digits is_digit
    digits_value
desk_address = refl

configure-IsConfigured_example : IsConfigured offer offered
configure-IsConfigured_example = configure-IsConfigured offer offered offer-IsTyped offer_configured

abbrev nameless : PeerDiscoveryResponderOptions
nameless = record offer { display_name = [] }

nameless-IsTyped : IsTyped nameless
nameless-IsTyped = record {
  transfer_fits = omega arith;
  probe_fits = omega arith;
  discovery_fits = omega arith;
  streams_fit = omega arith;
}

nameless_refused : configure nameless ≡ err invalid_options
unfolding configure has_gap
nameless_refused = refl

configure-Refusal_example : Refusal nameless invalid_options
configure-Refusal_example =
    configure-Refusal nameless invalid_options nameless-IsTyped nameless_refused

abbrev desk : DiscoveredPeer ℕ
desk = record {
  endpoint = record {
    host = codes "10.0.0.2";
    transfer_port = 47790;
    probe_port = 47794;
    parallel_streams = 4;
  };
  display_name = codes "desk";
  source_address = codes "10.0.0.2";
  measured_bytes_per_second = 0;
}

parse_peer_advertisement-configure_example :
    parse_peer_advertisement 0 (codes "HLINK_PEER_V2 47790 47794 4 desk") (codes "10.0.0.2")
    ≡ some desk
parse_peer_advertisement-configure_example =
    parse_peer_advertisement-configure 0 offer offered (codes "10.0.0.2") (10 ∷ 0 ∷ 0 ∷ 2 ∷ [])
      offer-IsTyped offer_configured desk_address

parse_peer_advertisement-IsAccepted_example : IsAccepted (codes "10.0.0.2") desk
parse_peer_advertisement-IsAccepted_example =
    parse_peer_advertisement-IsAccepted 0 (codes "HLINK_PEER_V2 47790 47794 4 desk")
      (codes "10.0.0.2") desk parse_peer_advertisement-configure_example

-- Rates that are whole numbers.
abbrev whole_rates : Rates ℕ
whole_rates = record { zero_rate = 0; rate_eq = ◌==◌; rate_lt = ltb; ordered = number_order }

abbrev replies : List (Text × Text)
replies =
    (codes "HLINK_PEER_V2 47790 47794 4 desk", codes "10.0.0.2")
    ∷ (codes "HLINK_PEER_V2 47790 47794 4 desk", codes "10.0.0.2")
    ∷ []

deduplicate_candidates-AreDistinct_example :
    let candidates = deduplicate_candidates ⦃rates = whole_rates⦄ replies in
    AreDistinct candidates
    × All (λ peer. Any (Announces ℕ ⦃rates = whole_rates⦄ peer) replies) candidates
    × All
        (λ reply.
          (peer : DiscoveredPeer ℕ)
          → Announces ℕ ⦃rates = whole_rates⦄ peer reply
          → Any (SameEndpoint peer) candidates)
        replies
deduplicate_candidates-AreDistinct_example =
    deduplicate_candidates-AreDistinct ℕ ⦃rates = whole_rates⦄ replies

abbrev fast : DiscoveredPeer ℕ
fast = record desk { measured_bytes_per_second = 9 }

select_fastest_peer-IsBest_example :
    ((desk ∷ fast ∷ [] ≡ [])
      × (select_fastest_peer ⦃rates = whole_rates⦄ (desk ∷ fast ∷ []) ≡ err empty_candidates))
    ⊎ ((best : DiscoveredPeer ℕ) × (select_fastest_peer ⦃rates = whole_rates⦄ (desk ∷ fast ∷ [])
          ≡ ok best)
        × Occurs best (desk ∷ fast ∷ [])
        × IsBest ⦃rates = whole_rates⦄ best (desk ∷ fast ∷ []))
select_fastest_peer-IsBest_example =
    select_fastest_peer-IsBest ⦃rates = whole_rates⦄ (desk ∷ fast ∷ [])
      ((_, desk_address), ((_, desk_address), tt))
