-- ===== src/PeerDiscovery/Replies/Closing.antt =====
-- The replies are collected within the timeout, fit the limit, and leave no socket behind.
use hyper_link.Base.{
  ℕ, zero, suc, ◌+◌, ◌≤◌, ◌<◌, ◌≡◌, refl, arith, Bool, true, false, Bool-cases, ◌⊎◌, inl, inr,
  Option, none, some, List, [], ◌∷◌, ◌++◌, Text, length, ltb, leb, ltb→lt, All, All-append,
  if◌then◌else◌, ok,
}
use hyper_link.Base.Program.{Program, ◌>>=◌, pure}
use hyper_link.Base.Triple.{call, Ends, Yields, bind-Yields, if-Yields}
use hyper_link.PeerDiscovery.{PeerDiscoveryOptions, maximum_advertisement_bytes}
use hyper_link.PeerDiscovery.Network.{
  Network, Ipv4Endpoint, Selected, some_ready, select_failed, nothing_ready, close_all,
  remaining_us,
}
use hyper_link.PeerDiscovery.Network.Accounts.{View, Accounts, Held, Safe, owned_by}
use hyper_link.PeerDiscovery.Network.Handles.{Steady-Safe}
use hyper_link.PeerDiscovery.Network.Scopes.{regroup-Safe}
use hyper_link.PeerDiscovery.Targets.{DiscoveryTarget}
use hyper_link.PeerDiscovery.Probe.{deadline_after}
use hyper_link.PeerDiscovery.Replies.Opening.{
  close_all-Held, or_close-Yields, open_targets-Yields, Gains,
}
use hyper_link.PeerDiscovery.Replies.{
  Replies, discovery_datagram_within_limit, or_close, open_targets, reply_of, receive_one,
  receive_each, end_round, reply_loop, collect_replies, receive_discovery_replies,
}

-- A reply has at least one byte and fits the limit.
abbrev pub Fits : Text × Text → Type 0
Fits (message, source) = (0 < length message) × (length message ≤ maximum_advertisement_bytes)

module _ {W : Type 0} (net : Network W) where
  reply_of-All : (received : Option (Text × Ipv4Endpoint)) → All Fits (reply_of net received)
  unfolding reply_of discovery_datagram_within_limit
  reply_of-All none = tt
  reply_of-All (some ([], source)) = tt
  reply_of-All (some (c ∷ message, source)) =
      elim (Bool-cases (leb (length (c ∷ message)) maximum_advertisement_bytes)) [
        | inl fits ↦ rw fits ((omega arith, ground arith), tt)
        | inr large ↦ rw large tt
      ]

module _ {W : Type 0} (net : Network W) (view : View W) (accounts : Accounts net view)
    (deadline n : ℕ) (owned : ℕ → ℕ) where
  abbrev Collected : Replies → W → Type 0
  Collected replies w = Held view owned w × All Fits replies

  -- With time left.
  abbrev Collecting : ℕ → Replies → W → Type 0
  Collecting t replies w = Safe view deadline t n owned w × All Fits replies

  receive_one-Yields :
      (t : ℕ) (readable : ℕ → Bool) (d : ℕ)
      → Yields
          (Safe view deadline t n owned)
          (Collecting t)
          (Held view owned)
          (receive_one net readable d)
  unfolding receive_one
  receive_one-Yields t readable d =
      if-Yields (Safe view deadline t n owned) (Collecting t) (Held view owned) (readable d) _
        (pure [])
        (λ ready w h. (
          ok _,
          _,
          refl,
          (
            Steady-Safe net view accounts deadline t n owned w _
                (accounts.recvfrom_steady d (maximum_advertisement_bytes + 1) w) h,
            reply_of-All net (net.recvfrom d (maximum_advertisement_bytes + 1) w).0,
          ),
        ))
        (λ quiet w h. (ok [], w, refl, (h, tt)))

  receive_each-Yields :
      (t : ℕ) (readable : ℕ → Bool) (sockets : List ℕ) (replies : Replies)
      → All Fits replies
      → Yields
          (Safe view deadline t n owned)
          (Collecting t)
          (Held view owned)
          (receive_each net readable sockets replies)
  unfolding receive_each
  receive_each-Yields t readable [] replies fit = λ w h. (ok replies, w, refl, (h, fit))
  receive_each-Yields t readable (d ∷ sockets) replies fit =
      bind-Yields (Safe view deadline t n owned) (Collecting t) (Collecting t) (Held view owned)
        (receive_one net readable d) _ (receive_one-Yields t readable d)
        (λ reply w (h, fits).
          receive_each-Yields t readable sockets (replies ++ reply)
            (All-append Fits replies reply fit fits) w h)

  end_round-Yields :
      (t : ℕ) (sockets : List ℕ) (replies : Replies) (rounds : Replies → Program W Replies)
      (selected : Selected)
      → All Fits replies
      → ((r : Replies)
          → All Fits r
          → Yields (Safe view deadline t n owned) Collected (Held view owned) (rounds r))
      → Yields
          (Safe view deadline t n owned)
          Collected
          (Held view owned)
          (end_round net rounds sockets replies selected)
  unfolding end_round
  end_round-Yields t sockets replies rounds select_failed fit next =
      λ w h. (ok replies, w, refl, (h.0, fit))
  end_round-Yields t sockets replies rounds nothing_ready fit next =
      λ w h. (ok replies, w, refl, (h.0, fit))
  end_round-Yields t sockets replies rounds (some_ready readable writable) fit next =
      bind-Yields (Safe view deadline t n owned) (Collecting t) Collected (Held view owned)
        (receive_each net readable sockets replies) rounds
        (receive_each-Yields t readable sockets replies fit) (λ r w (h, fits). next r fits w h)

  -- A reading of the clock before the deadline leaves fewer.
  tick :
      (t : ℕ) (w : W)
      → Safe view deadline (suc t) n owned w
      → ltb (net.now w).0 deadline ≡ true
      → Safe view deadline t n owned (net.now w).1
  tick t w h early =
      let (k, p, q) =
        Steady-Safe net view accounts deadline (suc t) n owned w _ (accounts.now_steady w) h in
      (k, omega (arith, h.1, accounts.now_ticks deadline w (ltb→lt _ _ early)), q)

  timely :
      (t : ℕ) (sockets : List ℕ) (replies : Replies) (rounds : Replies → Program W Replies)
      → All Fits replies
      → ((r : Replies)
          → All Fits r
          → Yields (Safe view deadline t n owned) Collected (Held view owned) (rounds r))
      → (w : W) → Safe view deadline (suc t) n owned w
      → (ltb (net.now w).0 deadline ≡ true) ⊎ (ltb (net.now w).0 deadline ≡ false)
      → Ends Collected (Held view owned) (
          (if ltb (net.now w).0 deadline
              then (call net.now >>= λ later.
                  call (net.select sockets [] (remaining_us deadline later))
                  >>= end_round net rounds sockets replies)
              else pure replies)
            (net.now w).1)
  timely t sockets replies rounds fit next w h (inr late) =
      let k =
        Steady-Safe net view accounts deadline (suc t) n owned w _ (accounts.now_steady w) h in
      rw late (ok replies, (net.now w).1, refl, (k.0, fit))
  timely t sockets replies rounds fit next w h (inl early) =
      let v = (net.now w).1 in
      let (later, v₁) = net.now v in
      let wait = net.select sockets [] (remaining_us deadline later) in
      rw early (
        end_round-Yields t sockets replies rounds (wait v₁).0 fit next (wait v₁).1 (
          Steady-Safe net view accounts deadline t n owned v₁ _
            (accounts.select_steady sockets [] (remaining_us deadline later) v₁)
            (Steady-Safe net view accounts deadline t n owned v _ (accounts.now_steady v)
              (tick t w h early))))

  reply_loop-Yields :
      (t : ℕ) (sockets : List ℕ) (replies : Replies)
      → All Fits replies
      → Yields
          (Safe view deadline t n owned)
          Collected
          (Held view owned)
          (reply_loop net t deadline sockets replies)
  unfolding reply_loop
  reply_loop-Yields zero sockets replies fit = λ w (h, p, q). absurd (omega (arith, p))
  reply_loop-Yields (suc t) [] replies fit = λ w h. (ok replies, w, refl, (h.0, fit))
  reply_loop-Yields (suc t) (d ∷ sockets) replies fit = λ w h.
      timely t (d ∷ sockets) replies (reply_loop net t deadline (d ∷ sockets)) fit
        (reply_loop-Yields t (d ∷ sockets)) w h (Bool-cases (ltb (net.now w).0 deadline))

module _ {W : Type 0} (net : Network W) (view : View W) (accounts : Accounts net view)
    (options : PeerDiscoveryOptions) (t : ℕ)
    (paced : (w : W)
      → view.ticks (deadline_after options.discovery_timeout (net.now w).0) (net.now w).1
        < suc t) where
  collect_replies-Yields :
      (u n : ℕ) (owned : ℕ → ℕ) (sockets : List ℕ)
      → Yields
          (Safe view 0 u n (λ x. owned_by sockets x + owned x))
          (λ replies w. Held view owned w × All Fits replies)
          (Held view owned)
          (collect_replies net (suc t) options sockets)
  unfolding collect_replies
  collect_replies-Yields u n owned sockets w h =
      let held : ℕ → ℕ = λ x. owned_by sockets x + owned x in
      let deadline = deadline_after options.discovery_timeout (net.now w).0 in
      let (k, p, q) = Steady-Safe net view accounts 0 u n held w _ (accounts.now_steady w) h in
      let loop = reply_loop net (suc t) deadline sockets [] in
      let L : Replies → W → Type 0 = λ replies v. Held view owned v × All Fits replies in
      let M : Replies → W → Type 0 = λ replies v. Held view held v × All Fits replies in
      bind-Yields (Safe view deadline (suc t) n held) M L (Held view owned)
        (or_close net sockets loop) _
        (or_close-Yields net view accounts u n options owned sockets
          (Safe view deadline (suc t) n held) M loop
          (reply_loop-Yields net view accounts deadline n held (suc t) sockets [] tt))
        (λ replies v (c, fits). (
          ok replies,
          close_all net sockets v,
          refl,
          (close_all-Held net view accounts u n options owned sockets v c, fits),
        ))
        (net.now w).1 (k, paced w, q)

  -- Over any system calls that open and close sockets as documented, with a clock that reaches a deadline
  -- one timeout ahead within `t` readings, the replies are collected, with fuel for these readings,
  -- for any list of targets: every reply has from 1 to 512 bytes, and by a result or by an exception, the
  -- sockets open behind it are those open before, and none was closed twice.
  pub receive_discovery_replies_closes :
      (targets : List DiscoveryTarget) (owned : ℕ → ℕ) (w : W)
      → Held view owned w
      → Ends
          (λ replies v. Held view owned v × All Fits replies)
          (Held view owned)
          (receive_discovery_replies net (suc t) options targets w)
  unfolding receive_discovery_replies
  receive_discovery_replies_closes targets owned w h =
      let u = suc (view.ticks 0 w) in
      let n = suc (view.turns w) in
      bind-Yields (Safe view 0 u n owned) (Gains net view accounts u n options owned)
        (λ replies v. Held view owned v × All Fits replies) (Held view owned)
        (open_targets net options targets []) (collect_replies net (suc t) options)
        (λ v k.
          open_targets-Yields net view accounts u n options owned targets [] v
            (regroup-Safe net view accounts 0 u n owned _ v (λ x. omega arith) k))
        (collect_replies-Yields u n owned) w (h, omega arith, omega arith)
