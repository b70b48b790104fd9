-- ===== src/PeerDiscovery/Client/Closing.antt =====
-- The choice of a peer ends within its timeouts, and leaves no socket behind.
use hyper_link.Base.{
  ℕ, suc, ◌++◌, codes, what, ◌≤◌, ◌<◌, ◌≡◌, refl, Option, some, Option-cases, inl, inr, List, [],
  ◌∷◌, Text, All, Result, ok, err,
}
use hyper_link.Base.Triple.{Post, Ends, bind-Yields}
use hyper_link.Base.Sort.{sorted_front, sorted_front-All}
use hyper_link.PeerDiscovery.{DiscoveredPeer, PeerDiscoveryOptions}
use hyper_link.PeerDiscovery.Network.{Network, ipv4_string}
use hyper_link.PeerDiscovery.Network.Accounts.{View, Accounts, Steady, Held}
use hyper_link.PeerDiscovery.Network.Handles.{Steady-Held}
use hyper_link.PeerDiscovery.Ranking.{
  Rates, probe_all, choose, rank_from, rank_candidates, deduplicate_candidates, select_fastest_peer,
  faster, no_peer,
}
use hyper_link.PeerDiscovery.Targets.{Interface, enumerate_discovery_targets}
use hyper_link.PeerDiscovery.Replies.{Replies, receive_discovery_replies}
use hyper_link.PeerDiscovery.Replies.Closing.{Fits, receive_discovery_replies_closes}
use hyper_link.PeerDiscovery.Probe.{deadline_after}
use hyper_link.PeerDiscovery.Probe.Closing.{Measured, probe_closes}
use hyper_link.PeerDiscovery.Client.{
  discover_and_rank, find_replies, outcome, probe, select_fastest,
}

module _ {R W : Type 0} ⦃rates : Rates R⦄ (net : Network W) (measure : ℕ → ℕ → R)
    (getifaddrs : W → Option (List Interface) × W) (view : View W) (accounts : Accounts net view)
    (reads : (w : W) → Steady net view w (getifaddrs w).1) (options : PeerDiscoveryOptions) (t : ℕ)
    (paced_replies : (w : W)
      → view.ticks (deadline_after options.discovery_timeout (net.now w).0) (net.now w).1 < suc t)
    (paced_probes : (w : W)
      → view.ticks (deadline_after options.probe_timeout (net.now w).0) (net.now w).1 < suc t)
    (owned : ℕ → ℕ) where
  -- The rate of a peer was measured.
  abbrev pub Rated : DiscoveredPeer R → Type 0
  Rated peer =
      (bytes : ℕ) × (elapsed : ℕ) × (0 < bytes)
      × (bytes ≤ options.probe_payload_bytes)
      × (peer.measured_bytes_per_second ≡ measure bytes elapsed)

  abbrev Good : DiscoveredPeer R → W → Type 0
  Good peer w = Held view owned w × Rated peer

  -- What a probe comes to.
  abbrev Probed : DiscoveredPeer R → Result R × W → Type 0
  Probed peer (err error, w) = Held view owned w
  Probed peer (ok rate, w) =
      Held view owned w × Rated (record peer { measured_bytes_per_second = rate })

  probe-Probed :
      (peer : DiscoveredPeer R) (w : W)
      → Held view owned w
      → Probed peer (probe net measure getifaddrs (suc t) options peer w)
  unfolding probe outcome
  probe-Probed peer w h =
      let (r, v, e, p) =
        probe_closes net measure view accounts options t paced_probes peer owned w h in
      rw e (probed r v p)
    where
      probed :
          (r : Result R) (v : W)
          → Post (Measured net measure view accounts 0 owned options owned) (Held view owned) r v
          → Probed peer (r, v)
      probed (ok rate) v (h, m) = (h, m)
      probed (err error) v h = h

  -- The result of the loop with that of one more probe.
  abbrev extended :
      DiscoveredPeer R
      → Result R
      → List (DiscoveredPeer R) × List Text × W
      → List (DiscoveredPeer R) × List Text × W
  extended candidate result (successful, failures, w) = elim result [
    | ok rate ↦ (record candidate { measured_bytes_per_second = rate } ∷ successful, failures, w)
    | err error ↦
        (successful, (candidate.endpoint.host ++ (codes ": " ++ what error)) ∷ failures, w)
  ]

  abbrev AllRated : List (DiscoveredPeer R) × List Text × W → Type 0
  AllRated (successful, failures, w) = All Rated successful × Held view owned w

  extends :
      (peer : DiscoveredPeer R) (r : Result R) (v : W)
      (rest : List (DiscoveredPeer R) × List Text × W)
      → Probed peer (r, v)
      → AllRated rest
      → AllRated (extended peer r rest)
  extends peer (ok rate) v rest (h, m) (all, k) = ((m, all), k)
  extends peer (err error) v rest h (all, k) = (all, k)

  behind : (peer : DiscoveredPeer R) (r : Result R) (v : W) → Probed peer (r, v) → Held view owned v
  behind peer (ok rate) v (h, m) = h
  behind peer (err error) v h = h

  probe_all-AllRated :
      (peers : List (DiscoveredPeer R)) (w : W)
      → Held view owned w
      → AllRated (probe_all (probe net measure getifaddrs (suc t) options) peers w)
  unfolding probe_all
  probe_all-AllRated [] w h = (tt, h)
  probe_all-AllRated (peer ∷ peers) w h =
      let (r, v) = probe net measure getifaddrs (suc t) options peer w in
      let probed = probe-Probed peer w h in
      extends peer r v (probe_all (probe net measure getifaddrs (suc t) options) peers v) probed
        (probe_all-AllRated peers v (behind peer r v probed))

  select-Good :
      (peers : List (DiscoveredPeer R)) (w : W)
      → All Rated peers
      → Held view owned w
      → Ends Good (Held view owned) (some (select_fastest_peer peers, w))
  unfolding select_fastest_peer
  select-Good peers w all h = elim (Option-cases (sorted_front faster peers)) [
    | inl missing ↦ rw (select_fastest_peer, missing) (err _, w, refl, h)
    | inr (peer, first) ↦
        rw (select_fastest_peer, first)
          (ok peer, w, refl, (h, sorted_front-All faster Rated peers peer all first))
  ]

  choose-Good :
      (peers : List (DiscoveredPeer R)) (failures : List Text) (w : W)
      → All Rated peers
      → Held view owned w
      → Ends Good (Held view owned) (some (choose peers failures, w))
  unfolding choose
  choose-Good [] failures w all h = (err _, w, refl, h)
  choose-Good (peer ∷ peers) failures w all h = select-Good (peer ∷ peers) w all h

  rank_from-Good :
      (peers : List (DiscoveredPeer R)) (w : W)
      → Held view owned w
      → Ends Good
          (Held view owned)
          (some (rank_from (probe net measure getifaddrs (suc t) options) peers w))
  unfolding rank_from
  rank_from-Good [] w h = (err no_peer, w, refl, h)
  rank_from-Good (peer ∷ peers) w h =
      let (all, k) = probe_all-AllRated (peer ∷ peers) w h in choose-Good _ _ _ all k

  ranked :
      (found : Replies) (w : W)
      → Held view owned w
      → Ends Good
          (Held view owned)
          (some (rank_candidates (probe net measure getifaddrs (suc t) options) found w))
  unfolding rank_candidates
  ranked found w h = rank_from-Good (deduplicate_candidates found) w h

  -- Over any system calls that open and close sockets as documented, with a clock that reaches a deadline
  -- one timeout ahead within `t` readings, the choice of the fastest peer ends, with fuel for these readings. By
  -- a result or by an exception, the sockets open behind it are those open before, and none was closed
  -- twice; the rate of the peer that is chosen was measured on some of the bytes of the payload, at
  -- least one.
  pub select_fastest_closes :
      (w : W)
      → Held view owned w
      → Ends Good (Held view owned) (select_fastest net measure getifaddrs (suc t) options w)
  unfolding select_fastest discover_and_rank find_replies
  select_fastest_closes w h =
      let targets = enumerate_discovery_targets (ipv4_string net) (getifaddrs w).0 in
      bind-Yields (Held view owned) (λ replies v. Held view owned v × All Fits replies) Good
        (Held view owned) (receive_discovery_replies net (suc t) options targets)
        (λ found w. some (rank_candidates (probe net measure getifaddrs (suc t) options) found w))
        (receive_discovery_replies_closes net view accounts options t paced_replies targets owned)
        (λ found v (k, fits). ranked found v k) (getifaddrs w).1
        (Steady-Held net view accounts 0 owned w _ (reads w) h)
