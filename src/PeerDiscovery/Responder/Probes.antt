-- ===== src/PeerDiscovery/Responder/Probes.antt =====
-- The clients of a responder: no more are admitted than it may have, and each is closed once.
use hyper_link.Base.{
  ℕ, zero, suc, ◌+◌, ◌≤◌, ◌<◌, ◌≡◌, refl, sym, subst, arith, Bool, false, Option, none, some, List,
  [], ◌∷◌, ◌++◌, length, length-append, leb, ok,
}
use hyper_link.Base.Program.{Program, ◌>>=◌, ◌>>◌, pure}
use hyper_link.Base.Triple.{call, run, Yields, bind-Yields, if-Yields, weaken_result, surely-Yields}
use hyper_link.Tcp.Ledger.{Balanced, opened-Balanced, only, owns}
use hyper_link.PeerDiscovery.Network.{Network, keep_handle, set_nonblocking}
use hyper_link.PeerDiscovery.Network.Accounts.{View, Accounts, Held, Safe, owned_by}
use hyper_link.PeerDiscovery.Network.Flag.{flag-Yields}
use hyper_link.PeerDiscovery.Network.Handles.{Steady-Safe, set_nonblocking-Stays}
use hyper_link.PeerDiscovery.Network.Scopes.{keep_handle-Yields, close-Safe, regroup-Safe}
use hyper_link.PeerDiscovery.Responder.Serving.{
  ActiveProbe, sockets_of, admit, accepted, accept_loop, keep_if, one_second,
  maximum_concurrent_probe_clients,
}

owned_by-append :
    (clients : List ActiveProbe) (c : ActiveProbe) (x : ℕ)
    → owned_by (sockets_of (clients ++ (c ∷ []))) x
      ≡ only c.socket x + owned_by (sockets_of clients) x
owned_by-append [] c x = refl
owned_by-append (client ∷ clients) c x = omega (arith, owned_by-append clients c x)

module _ {W : Type 0} (net : Network W) (view : View W) (accounts : Accounts net view)
    (configures : (d : ℕ) (w : W) → (w' : W) × (set_nonblocking net d w ≡ some (ok tt, w')))
    (t : ℕ) where
  abbrev pub Never : W → Type 0
  Never w = ⊥

  abbrev pub Has : ℕ → (ℕ → ℕ) → List ActiveProbe → W → Type 0
  Has f base clients w = Safe view 0 t f (λ x. owned_by (sockets_of clients) x + base x) w

  abbrev pub Serving : ℕ → (ℕ → ℕ) → List ActiveProbe → W → Type 0
  Serving f base clients w =
      Has f base clients w × (length clients ≤ maximum_concurrent_probe_clients)

  admit-Yields :
      (f client : ℕ) (base : ℕ → ℕ) (clients : List ActiveProbe)
      → length clients ≤ maximum_concurrent_probe_clients
      → Yields
          (Safe view 0 t f (λ x. only client x + (owned_by (sockets_of clients) x + base x)))
          (Serving f base)
          Never
          (admit net client clients)
  unfolding admit keep_handle
  admit-Yields f client base clients few =
      if-Yields (Safe view 0 t f (λ x. only client x + owned x)) (Serving f base) Never
        (leb maximum_concurrent_probe_clients (length clients)) _ _
        (λ full w h. (
          ok clients,
          net.close client w,
          refl,
          (close-Safe net view accounts 0 t f owned client w h, few),
        ))
        (λ room.
          bind-Yields (Safe view 0 t f (λ x. only client x + owned x))
            (λ d. Safe view 0 t f (λ x. only d x + owned x)) (Serving f base) Never
            (keep_handle net client (set_nonblocking net client)) _ kept
            (λ d w h. (
              ok _,
              (net.now w).1,
              refl,
              (
                regroup-Safe net view accounts 0 t f (λ x. only d x + owned x) _ (net.now w).1
                    (λ x. omega (arith, owned_by-append clients (added d w) x))
                    (Steady-Safe net view accounts 0 t f _ w _ (accounts.now_steady w) h),
                omega (arith, length-append clients (added d w ∷ []), below room),
              ),
            )))
    where
      owned : ℕ → ℕ
      owned x = owned_by (sockets_of clients) x + base x

      added : ℕ → W → ActiveProbe
      added d w = record { socket = d; deadline = (net.now w).0 + one_second }

      kept :
          Yields
            (Safe view 0 t f (λ x. only client x + owned x))
            (λ d. Safe view 0 t f (λ x. only d x + owned x))
            Never
            (keep_handle net client (set_nonblocking net client))
      kept =
          surely-Yields (Safe view 0 t f (λ x. only client x + owned x))
            (λ d. Safe view 0 t f (λ x. only d x + owned x)) (Held view owned) Never
            (keep_handle net client (set_nonblocking net client))
            (λ w h. let (w', e) = configures client w in (client, w', rw (e, keep_handle) refl))
            (keep_handle-Yields net view accounts 0 t f owned client (set_nonblocking net client)
              (set_nonblocking-Stays net view accounts 0 t f (λ x. only client x + owned x) client))

      below :
          leb maximum_concurrent_probe_clients (length clients) ≡ false
          → length clients < maximum_concurrent_probe_clients
      below room = ground arith

  accepting :
      (f listener : ℕ) (base : ℕ → ℕ) (clients : List ActiveProbe) (w : W)
      → Has f base clients w
      → Safe view 0 t f
          (λ x. owns (net.accept listener w).0 x + (owned_by (sockets_of clients) x + base x))
          (net.accept listener w).1
  accepting f listener base clients w (h, p, q) =
      let (e, (g, k)) = accounts.accept_opens listener w in
      let owned : ℕ → ℕ = λ x. owned_by (sockets_of clients) x + base x in
      let handle = (net.accept listener w).0 in
      (
        subst (λ l. Balanced l (λ x. owns handle x + owned x)) (sym e)
            (opened-Balanced handle (view.ledger w) owned h),
        omega (arith, p, g 0),
        omega (arith, q, k),
      )

  accepted-Yields :
      (f : ℕ) (base : ℕ → ℕ) (clients : List ActiveProbe) (handle : Option ℕ)
      (rounds : List ActiveProbe → Program W (List ActiveProbe))
      → length clients ≤ maximum_concurrent_probe_clients
      → ((admitted : List ActiveProbe)
          → Yields (Serving f base admitted) (Serving f base) Never (rounds admitted))
      → Yields
          (Safe view 0 t f (λ x. owns handle x + (owned_by (sockets_of clients) x + base x)))
          (Serving f base)
          Never
          (accepted net rounds clients handle)
  unfolding accepted
  accepted-Yields f base clients none rounds few next = λ w h.
      (ok clients, w, refl, (regroup-Safe net view accounts 0 t f _ _ w (λ x. omega arith) h, few))
  accepted-Yields f base clients (some client) rounds few next =
      bind-Yields
        (Safe view 0 t f (λ x. only client x + (owned_by (sockets_of clients) x + base x)))
        (Serving f base) (Serving f base) Never (admit net client clients) rounds
        (admit-Yields f client base clients few) next

  more_fuel :
      (f : ℕ) (base : ℕ → ℕ) (clients : List ActiveProbe) (w : W)
      → Serving f base clients w
      → Serving (suc f) base clients w
  more_fuel f base clients w ((h, p, q), few) = ((h, p, omega (arith, q)), few)

  pub accept_loop-Yields :
      (f listener : ℕ) (base : ℕ → ℕ) (clients : List ActiveProbe)
      → length clients ≤ maximum_concurrent_probe_clients
      → Yields (Has f base clients) (Serving f base) Never (accept_loop net f listener clients)
  unfolding accept_loop
  accept_loop-Yields zero listener base clients few = λ w (h, p, q). absurd (omega (arith, q))
  accept_loop-Yields (suc f) listener base clients few =
      let rounds = accept_loop net f listener in
      flag-Yields net view accounts 0 t f _ (Serving (suc f) base) Never
        (call (net.accept listener) >>= accepted net rounds clients) (pure clients)
        (weaken_result (Has f base clients) (Serving (suc f) base) Never (Serving f base)
          (call (net.accept listener) >>= accepted net rounds clients) (more_fuel f base)
          (λ w h.
            accepted-Yields f base clients (net.accept listener w).0 rounds few
              (λ admitted v (k, l). accept_loop-Yields f listener base admitted l v k)
              (net.accept listener w).1 (accepting f listener base clients w h)))
        (λ w h. (ok clients, w, refl, (h, few)))

  pub keep_if-Yields :
      (f : ℕ) (test : ActiveProbe → Program W Bool)
      → ((client : ActiveProbe) (owned : ℕ → ℕ)
          → Yields (Safe view 0 t f owned) (λ b. Safe view 0 t f owned) Never (test client))
      → (clients : List ActiveProbe) (base : ℕ → ℕ)
      → Yields
          (Has f base clients)
          (λ kept w. Has f base kept w × (length kept ≤ length clients))
          Never
          (keep_if net test clients)
  unfolding keep_if
  keep_if-Yields f test tests [] base = λ w h. (ok [], w, refl, (h, omega arith))
  keep_if-Yields f test tests (c ∷ clients) base =
      let others = keep_if net test clients in
      let rest : ℕ → ℕ = λ x. only c.socket x + base x in
      let L : List ActiveProbe → W → Type 0 =
        λ kept w. Has f base kept w × (length kept ≤ suc (length clients)) in
      bind-Yields (Has f base (c ∷ clients)) (λ b. Has f base (c ∷ clients)) L Never (test c) _
        (tests c _)
        (λ b.
          if-Yields (Has f base (c ∷ clients)) L Never b (others >>= λ kept. pure (c ∷ kept))
            (run (net.close c.socket) >> others)
            (λ stays w h.
              bind-Yields (Has f rest clients)
                (λ kept w. Has f rest kept w × (length kept ≤ length clients)) L Never others
                (λ kept. pure (c ∷ kept)) (keep_if-Yields f test tests clients rest)
                (λ kept w (k, l). (
                  ok (c ∷ kept),
                  w,
                  refl,
                  (
                    regroup-Safe net view accounts 0 t f _ _ w (λ x. omega arith) k,
                    omega (arith, l),
                  ),
                ))
                w (regroup-Safe net view accounts 0 t f _ _ w (λ x. omega arith) h))
            (λ goes w h.
              weaken_result (Has f base clients) L Never
                (λ kept w. Has f base kept w × (length kept ≤ length clients)) others
                (λ kept w (k, l). (k, omega (arith, l))) (keep_if-Yields f test tests clients base)
                (net.close c.socket w)
                (close-Safe net view accounts 0 t f _ c.socket w (
                  regroup-Safe net view accounts 0 t f _
                    (λ x. only c.socket x + (owned_by (sockets_of clients) x + base x)) w
                    (λ x. omega arith) h))))
