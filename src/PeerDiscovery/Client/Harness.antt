-- ===== src/PeerDiscovery/Client/Harness.antt =====
-- The tests of the ranking see every candidate probed, once and in order.
use hyper_link.Base.{
  ◌≡◌, refl, ap, sym, ◌∙◌, append-nil, append_assoc, some, List, [], ◌∷◌, ◌++◌, map, Text, codes,
  what, Result, ok, err,
}
use hyper_link.PeerDiscovery.{DiscoveredPeer}
use hyper_link.PeerDiscovery.Ranking.{
  Rates, probe_all, rank_from, rank_candidates, deduplicate_candidates,
}
use hyper_link.PeerDiscovery.Client.{
  TestHarness, endpoint_key, harness_probe, harness_select_fastest, discover_and_rank,
}

module _ {R : Type 0} ⦃rates : Rates R⦄ where
  -- The state behind the loop does not hang on the outcome of a probe.
  last_state :
      {W : Type 0} (candidate : DiscoveredPeer R) (outcome : Result R)
      (rest : List (DiscoveredPeer R) × List Text × W)
      → (elim outcome as (λ r. List (DiscoveredPeer R) × List Text × W) [
        | ok rate ↦ (record candidate { measured_bytes_per_second = rate } ∷ rest.0, rest.1, rest.2)
        | err error ↦
            (rest.0, (candidate.endpoint.host ++ (codes ": " ++ what error)) ∷ rest.1, rest.2)
      ]).2
        ≡ rest.2
  last_state candidate (ok rate) rest = refl
  last_state candidate (err error) rest = refl

  probed_all :
      (peers : List (DiscoveredPeer R)) (harness : TestHarness R)
      → (probe_all harness_probe peers harness).2.probed_endpoints
        ≡ harness.probed_endpoints ++ map endpoint_key peers
  unfolding probe_all harness_probe
  probed_all [] harness = sym (append-nil harness.probed_endpoints)
  probed_all (peer ∷ peers) harness =
      let (outcome, harness') = harness_probe peer harness in
      let rest = probe_all harness_probe peers harness' in
      let state : (probe_all harness_probe (peer ∷ peers) harness).2.probed_endpoints
          ≡ rest.2.probed_endpoints =
        ap (λ h. h.probed_endpoints) (last_state peer outcome rest) in
      state
      ∙ (probed_all peers harness'
          ∙ append_assoc harness.probed_endpoints (endpoint_key peer ∷ []) (map endpoint_key peers))

  -- The harness for the tests of the ranking has, behind a choice by its configured rates and failures, probed
  -- each candidate that its replies announce once, in the order of the replies, whether the probes
  -- failed or not and whatever the choice came to.
  pub harness_probes_once :
      (harness : TestHarness R)
      → (result : Result (DiscoveredPeer R)) × (harness' : TestHarness R) × (harness_select_fastest
            harness
          ≡ some (result, harness'))
        × (harness'.probed_endpoints
            ≡ harness.probed_endpoints
              ++ map (endpoint_key {R = R}) (deduplicate_candidates harness.replies))
  unfolding harness_select_fastest discover_and_rank rank_candidates rank_from
  harness_probes_once harness =
      let s = rank_candidates harness_probe harness.replies harness in
      (s.0, s.1, refl, ranked (deduplicate_candidates harness.replies) harness)
    where
      ranked :
          (peers : List (DiscoveredPeer R)) (h : TestHarness R)
          → (rank_from harness_probe peers h).1.probed_endpoints
            ≡ h.probed_endpoints ++ map endpoint_key peers
      ranked [] h = sym (append-nil h.probed_endpoints)
      ranked (peer ∷ peers) h = probed_all (peer ∷ peers) h
