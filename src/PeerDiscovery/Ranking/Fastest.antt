-- ===== src/PeerDiscovery/Ranking/Fastest.antt =====
-- The peer that the sort puts first.
use hyper_link.Base.{
  ◌≡◌, subst, ◌++◌, ◌∙◌, arith, Bool, false, inl, inr, ◌⊎◌, List, [], ◌∷◌, All, ok, err,
}
use hyper_link.Base.Order.{IsStrict, pair_eq, pair_lt, pair_order}
use hyper_link.Base.Sort.{Occurs, sorted_front-least}
use hyper_link.PeerDiscovery.{DiscoveredPeer}
use hyper_link.PeerDiscovery.Ranking.{
  Rates, faster, source_address_precedes, select_fastest_peer, empty_candidates,
}
use hyper_link.PeerDiscovery.Ranking.Precedence.{
  SourceKey, source_key, source_key_eq, source_key_lt, source_key_order,
  source_address_precedes-key, IsAddressed,
}

module _ {R : Type 0} ⦃rates : Rates R⦄ where
  -- A faster peer has the lower key.
  slower : R → R → Bool
  slower a b = rates.rate_lt b a

  slower_order : IsStrict rates.rate_eq slower
  unfolding slower
  slower_order = record {
    eq_iff = rates.ordered.eq_iff;
    irrefl = rates.ordered.irrefl;
    trans = λ a b c h k. rates.ordered.trans c b a k h;
    total = λ a b h k. rates.ordered.total a b k h;
  }

  rank_lt : R × SourceKey → R × SourceKey → Bool
  rank_lt = pair_lt rates.rate_eq slower source_key_eq source_key_lt

  rank_order : IsStrict (pair_eq rates.rate_eq slower source_key_eq source_key_lt) rank_lt
  unfolding rank_lt
  rank_order = pair_order _ _ _ _ slower_order source_key_order

  rank : DiscoveredPeer R → R × SourceKey
  rank peer = (peer.measured_bytes_per_second, source_key peer)

  faster-rank :
      (a b : DiscoveredPeer R)
      → IsAddressed a
      → IsAddressed b
      → faster a b ≡ rank_lt (rank a) (rank b)
  unfolding faster rank_lt rank slower
  faster-rank a b ha hb = rw (source_address_precedes-key a b ha hb) (ground arith)

  -- No other candidate has a higher rate, and none with the same rate precedes it.
  abbrev pub IsBest : DiscoveredPeer R → List (DiscoveredPeer R) → Type 0
  IsBest best = All λ other.
      (rates.rate_lt best.measured_bytes_per_second other.measured_bytes_per_second ≡ false)
      × (other.measured_bytes_per_second ≡ best.measured_bytes_per_second
          → source_address_precedes other best ≡ false)

  IsBest-not_faster :
      (best other : DiscoveredPeer R)
      → faster other best ≡ false
      → (rates.rate_lt best.measured_bytes_per_second other.measured_bytes_per_second ≡ false)
        × (other.measured_bytes_per_second ≡ best.measured_bytes_per_second
            → source_address_precedes other best ≡ false)
  unfolding faster
  IsBest-not_faster best other h =
      let o = other.measured_bytes_per_second in
      let b = best.measured_bytes_per_second in
      ground (arith, rates.ordered.eq_iff o b, rates.ordered.irrefl b)

  IsBest-rank :
      (best : DiscoveredPeer R) (peers : List (DiscoveredPeer R))
      → IsAddressed best
      → All IsAddressed peers
      → All (λ other. rank_lt (rank other) (rank best) ≡ false) peers
      → IsBest best peers
  IsBest-rank best [] hb _ _ = tt
  IsBest-rank best (p ∷ peers) hb (hp, hps) (h, hs) =
      (IsBest-not_faster best p (faster-rank p best hp hb ∙ h), IsBest-rank best peers hb hps hs)

  Occurs-IsAddressed :
      (a : DiscoveredPeer R) (front back : List (DiscoveredPeer R))
      → All IsAddressed (front ++ a ∷ back)
      → IsAddressed a
  Occurs-IsAddressed a [] back (h, _) = h
  Occurs-IsAddressed a (x ∷ front) back (_, h) = Occurs-IsAddressed a front back h

  -- Among peers with IPv4 addresses the choice is one of them, has a rate that none exceeds, and among
  -- those of that rate none precedes it; without any peer the call throws.
  pub select_fastest_peer-IsBest :
      (candidates : List (DiscoveredPeer R))
      → All IsAddressed candidates
      → ((candidates ≡ []) × (select_fastest_peer candidates ≡ err empty_candidates))
        ⊎ ((best : DiscoveredPeer R) × (select_fastest_peer candidates ≡ ok best)
            × Occurs best candidates
            × IsBest best candidates)
  unfolding select_fastest_peer
  select_fastest_peer-IsBest candidates h =
      elim (sorted_front-least faster _ rank_lt rank_order rank IsAddressed faster-rank candidates
        h) [
          | inl (gone, e) ↦ inl (gone, rw (e, select_fastest_peer))
          | inr (best, e, occurs, all) ↦
              let (front, back, split) = occurs in
              let addressed =
                Occurs-IsAddressed best front back (subst (All IsAddressed) split h) in
              inr (
                best,
                rw (e, select_fastest_peer),
                occurs,
                IsBest-rank best candidates addressed h all,
              )
        ]
