-- ===== src/PeerDiscovery/Responder/Rounds.antt =====
-- The thread that serves the probes ends once the flag is reset, has no more clients than it may, and
-- closes every socket that it accepts.
use hyper_link.Base.{
  ℕ, zero, suc, ◌+◌, ◌≤◌, ◌<◌, ◌≡◌, refl, arith, true, some, List, [], ◌∷◌, length, Result, ok, err,
}
use hyper_link.Base.Int.{pos}
use hyper_link.Base.Program.{◌>>=◌, pure}
use hyper_link.Base.Triple.{run, Post, Yields, bind-Yields, if-Yields, weaken_result}
use hyper_link.Tcp.Ledger.{only}
use hyper_link.PeerDiscovery.Network.{
  Network, Selected, some_ready, select_failed, nothing_ready, with_handle, close_all,
  set_nonblocking,
}
use hyper_link.PeerDiscovery.Network.Accounts.{View, Accounts, Held, Safe, owned_by}
use hyper_link.PeerDiscovery.Network.Flag.{flag-Yields}
use hyper_link.PeerDiscovery.Network.Handles.{Steady-Safe}
use hyper_link.PeerDiscovery.Network.Scopes.{close-Held, close_all-Safe, regroup-Safe}
use hyper_link.PeerDiscovery.Responder.Probes
use hyper_link.PeerDiscovery.Responder.Probes.{accept_loop-Yields, keep_if-Yields}
use hyper_link.PeerDiscovery.Responder.Serving.{
  ActiveProbe, sockets_of, is_readable, send_probe_bytes, accept_loop, keep_if, is_current,
  is_served, accept_ready, probe_round, probe_loop, serve_probes, poll_us, probe_block_bytes,
  maximum_concurrent_probe_clients,
}

module _ {W : Type 0} (net : Network W) (view : View W) (accounts : Accounts net view)
    (configures : (d : ℕ) (w : W) → (w' : W) × (set_nonblocking net d w ≡ some (ok tt, w')))
    (t : ℕ) where
  abbrev Never : W → Type 0
  Never = Probes.Never net view accounts configures t

  abbrev Has : ℕ → (ℕ → ℕ) → List ActiveProbe → W → Type 0
  Has = Probes.Has net view accounts configures t

  abbrev pub Serving : ℕ → (ℕ → ℕ) → List ActiveProbe → W → Type 0
  Serving = Probes.Serving net view accounts configures t

  is_current-Yields :
      (f now : ℕ) (client : ActiveProbe) (owned : ℕ → ℕ)
      → Yields
          (Safe view 0 t f owned)
          (λ b. Safe view 0 t f owned)
          Never
          (is_current net now client)
  unfolding is_current
  is_current-Yields f now client owned w h = (ok _, w, refl, h)

  is_served-Yields :
      (f : ℕ) (selected : Selected) (client : ActiveProbe) (owned : ℕ → ℕ)
      → Yields
          (Safe view 0 t f owned)
          (λ b. Safe view 0 t f owned)
          Never
          (is_served net selected client)
  unfolding is_served send_probe_bytes
  is_served-Yields f select_failed client owned = λ w h. (ok true, w, refl, h)
  is_served-Yields f nothing_ready client owned = λ w h. (ok true, w, refl, h)
  is_served-Yields f (some_ready readable writable) client owned =
      if-Yields (Safe view 0 t f owned) (λ b. Safe view 0 t f owned) Never (writable client.socket)
        (send_probe_bytes net client.socket) (pure true)
        (λ ready w h. (
          ok _,
          _,
          refl,
          Steady-Safe net view accounts 0 t f owned w _
              (accounts.send_steady client.socket probe_block_bytes w) h,
        ))
        (λ busy w h. (ok true, w, refl, h))

  accept_ready-Yields :
      (f listener : ℕ) (base : ℕ → ℕ) (clients : List ActiveProbe) (selected : Selected)
      → length clients ≤ maximum_concurrent_probe_clients
      → Yields
          (Has f base clients)
          (Serving f base)
          Never
          (accept_ready net f listener clients selected)
  unfolding accept_ready
  accept_ready-Yields f listener base clients selected few =
      if-Yields (Has f base clients) (Serving f base) Never (is_readable listener selected)
        (accept_loop net f listener clients) (pure clients)
        (λ ready. accept_loop-Yields net view accounts configures t f listener base clients few)
        (λ quiet w h. (ok clients, w, refl, (h, few)))

  -- The end of a round: the clients that are late, and those whose connection failed, are closed.
  probe_round-Yields :
      (f listener : ℕ) (base : ℕ → ℕ) (clients : List ActiveProbe)
      → length clients ≤ maximum_concurrent_probe_clients
      → Yields (Has f base clients) (Serving f base) Never (probe_round net f listener clients)
  unfolding probe_round
  probe_round-Yields f listener base clients few w h =
      let polled = net.select (listener ∷ []) (sockets_of clients) (pos poll_us) in
      let selected = (polled w).0 in
      bind-Yields (Has f base clients) (Serving f base) (Serving f base) Never
        (accept_ready net f listener clients selected) _
        (accept_ready-Yields f listener base clients selected few)
        (λ admitted v (k, l).
          bind-Yields (Has f base admitted)
            (λ kept u. Has f base kept u × (length kept ≤ length admitted)) (Serving f base) Never
            (keep_if net (is_current net (net.now v).0) admitted)
            (keep_if net (is_served net selected))
            (keep_if-Yields net view accounts configures t f (is_current net (net.now v).0)
              (is_current-Yields f (net.now v).0) admitted base)
            (λ current u (i, m).
              weaken_result (Has f base current) (Serving f base) Never
                (λ kept z. Has f base kept z × (length kept ≤ length current))
                (keep_if net (is_served net selected) current)
                (λ kept z (j, n). (j, omega (arith, l, m, n)))
                (keep_if-Yields net view accounts configures t f (is_served net selected)
                  (is_served-Yields f selected) current base)
                u i)
            (net.now v).1 (Steady-Safe net view accounts 0 t f _ v _ (accounts.now_steady v) k))
        (polled w).1
        (Steady-Safe net view accounts 0 t f _ w _
          (accounts.select_steady (listener ∷ []) (sockets_of clients) (pos poll_us) w) h)

  probe_loop-Yields :
      (f listener : ℕ) (base : ℕ → ℕ) (clients : List ActiveProbe)
      → length clients ≤ maximum_concurrent_probe_clients
      → Yields (Has f base clients) (λ a. Held view base) Never (probe_loop net f listener clients)
  unfolding probe_loop
  probe_loop-Yields zero listener base clients few = λ w (h, p, q). absurd (omega (arith, q))
  probe_loop-Yields (suc f) listener base clients few =
      flag-Yields net view accounts 0 t f _ (λ a. Held view base) Never
        (probe_round net f listener clients >>= probe_loop net f listener)
        (run (close_all net (sockets_of clients)))
        (bind-Yields (Has f base clients) (Serving f base) (λ a. Held view base) Never
          (probe_round net f listener clients) (probe_loop net f listener)
          (probe_round-Yields f listener base clients few)
          (λ served w (h, l). probe_loop-Yields f listener base served l w h))
        (λ w h. (
          ok tt,
          _,
          refl,
          (close_all-Safe net view accounts 0 t (suc f) base (sockets_of clients) w h).0,
        ))

module _ {W : Type 0} (net : Network W) (view : View W) (accounts : Accounts net view)
    (configures : (d : ℕ) (w : W) → (w' : W) × (set_nonblocking net d w ≡ some (ok tt, w'))) where
  -- A round of the thread that serves the probes, from at most 16 clients, over any system calls that open
  -- and close sockets as documented, while `set_nonblocking` succeeds and with fuel for the readings of
  -- the flag that are left: it returns at most 16 clients, and the open sockets are theirs, once each,
  -- and those that belonged to no client before.
  pub probe_round_bounded :
      (listener fuel : ℕ) (base : ℕ → ℕ) (clients : List ActiveProbe) (w : W)
      → length clients ≤ maximum_concurrent_probe_clients
      → view.turns w < fuel
      → Held view (λ x. owned_by (sockets_of clients) x + base x) w
      → (clients' : List ActiveProbe) × (w' : W) × (probe_round net fuel listener clients w
          ≡ some (ok clients', w'))
        × (length clients' ≤ maximum_concurrent_probe_clients)
        × Held view (λ x. owned_by (sockets_of clients') x + base x) w'
  probe_round_bounded listener fuel base clients w few enough h =
      let (r, w', e, p) =
        probe_round-Yields net view accounts configures (suc (view.ticks 0 w)) fuel listener base
          clients few w (h, omega arith, enough) in
      returned r w' e p
    where
      returned :
          (r : Result (List ActiveProbe)) (w' : W)
          → probe_round net fuel listener clients w ≡ some (r, w')
          → Post
              (Serving net view accounts configures (suc (view.ticks 0 w)) fuel base)
              (λ v. ⊥)
              r
              w'
          → (clients' : List ActiveProbe) × (v : W) × (probe_round net fuel listener clients w
              ≡ some (ok clients', v))
            × (length clients' ≤ maximum_concurrent_probe_clients)
            × Held view (λ x. owned_by (sockets_of clients') x + base x) v
      returned (ok served) w' e ((k, p, q), l) = (served, w', e, l, k)
      returned (err error) w' e p = absurd p

  -- The thread that serves the probes as a whole, over any system calls that open and close sockets as
  -- documented and with a clock that reaches each deadline and a flag that is reset after finitely many
  -- readings, while `set_nonblocking` succeeds on every descriptor, from a state in which the socket that
  -- it listens on is open and belongs to it, and with a flag that will be read as set fewer times than the
  -- fuel: it returns without an error, and the sockets that are open then are those that were not its own
  -- before, so that every socket that it accepted and the one that it listened on are closed, once.
  pub serve_probes_ends :
      (listener fuel : ℕ) (owned : ℕ → ℕ) (w : W)
      → view.turns w < fuel
      → Held view (λ x. only listener x + owned x) w
      → (w' : W) × (serve_probes net fuel listener w ≡ some (ok tt, w')) × Held view owned w'
  unfolding serve_probes with_handle
  serve_probes_ends listener fuel owned w enough h =
      let (r, w', e, p) =
        probe_loop-Yields net view accounts configures (suc (view.ticks 0 w)) fuel listener
          (λ x. only listener x + owned x) [] (omega arith) w
          (regroup-Safe net view accounts 0 (suc (view.ticks 0 w)) fuel
            (λ x. only listener x + owned x) _ w (λ x. omega arith) (h, omega arith, enough)) in
      returned r w' e p
    where
      returned :
          (r : Result (Unit {0})) (w' : W)
          → probe_loop net fuel listener [] w ≡ some (r, w')
          → Post (λ a. Held view (λ x. only listener x + owned x)) (λ v. ⊥) r w'
          → (v : W) × (serve_probes net fuel listener w ≡ some (ok tt, v)) × Held view owned v
      returned (ok a) w' e k = (
        net.close listener w',
        rw (e, serve_probes, with_handle) refl,
        close-Held net view accounts 0 owned listener w' k,
      )
      returned (err error) w' e p = absurd p
