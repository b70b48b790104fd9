-- ===== src/PeerDiscovery/Responder/Starting.antt =====
-- The sockets that a responder owns while it starts and stops.
use hyper_link.Base.{
  ℕ, suc, ◌+◌, ◌≡◌, refl, ◌∙◌, arith, true, false, Bool-cases, ◌⊎◌, inl, inr, Option, none, some,
  Result, ok, err,
}
use hyper_link.Base.Triple.{Post, Ends}
use hyper_link.Tcp.Ledger.{only, owns}
use hyper_link.PeerDiscovery.Advertisement.{Configured, configure}
use hyper_link.PeerDiscovery.Network.{Network}
use hyper_link.PeerDiscovery.Network.Accounts.{View, Accounts, Held, Safe, Steady}
use hyper_link.PeerDiscovery.Network.Handles.{Steady-Held}
use hyper_link.PeerDiscovery.Network.Scopes.{close-Held}
use hyper_link.PeerDiscovery.Responder.{
  Responder, Threads, make_udp_socket, make_probe_socket, join, stop, create_probe_thread,
  create_threads, open_second, open_sockets, start_block,
}
use hyper_link.PeerDiscovery.Responder.Discovery.{make_udp_socket-Yields, make_probe_socket-Yields}

-- The switch.
pub data Phase : Type 0 where
  off on : Phase

module _ {W : Type 0} (view : View W) (owned : ℕ → ℕ) where
  -- The state of the responder behind a position of the switch.
  abbrev pub Stands : Phase → Responder × W → Type 0
  Stands off (r, w) =
      (r.running ≡ false)
      × (r.discovery_thread ≡ none)
      × (r.probe_thread ≡ none)
      × Held view owned w
  Stands on (r, w) =
      (r.running ≡ true)
      × ((d : ℕ) × (p : ℕ) × (r.discovery_thread ≡ some d)
          × (r.probe_thread ≡ some p)
          × Held view (λ x. only d x + (only p x + owned x)) w)

  -- A start that failed, before its handler stops.
  abbrev pub Partial : Responder × W → Type 0
  Partial (r, w) = (r.probe_thread ≡ none) × Held view (λ x. owns r.discovery_thread x + owned x) w

module _ {W : Type 0} (net : Network W) (threads : Threads W) (view : View W)
    (accounts : Accounts net view) (creates : (w : W) → Steady net view w (threads.create w).1)
    (owned : ℕ → ℕ) where
  abbrev pub Started : Unit {0} → Responder × W → Type 0
  Started a s = Stands view owned on s

  abbrev pub Failed : Responder × W → Type 0
  Failed s = Partial view owned s

  pub regroup-Held : (f g : ℕ → ℕ) (w : W) → ((x : ℕ) → f x ≡ g x) → Held view f w → Held view g w
  regroup-Held f g w same (e, h) = (e, λ x. h x ∙ same x)

  join-Held :
      (handle : Option ℕ) (rest : ℕ → ℕ) (w : W)
      → Held view (λ x. owns handle x + rest x) w
      → Held view rest (join net handle w)
  unfolding join
  join-Held none rest w h = regroup-Held _ rest w (λ x. omega arith) h
  join-Held (some d) rest w h = close-Held net view accounts 0 rest d w h

  create_probe_thread-Ends :
      (d p : ℕ) (r : Responder) (w : W)
      → r.running ≡ true
      → r.discovery_thread ≡ some d
      → r.probe_thread ≡ none
      → Held view (λ x. only d x + (only p x + owned x)) w
      → Ends Started Failed (create_probe_thread net threads p (r, w))
  unfolding create_probe_thread
  create_probe_thread-Ends d p r w set first second h = split (Bool-cases (threads.create w).0)
    where
      k : Held view (λ x. only d x + (only p x + owned x)) (threads.create w).1
      k = Steady-Held net view accounts 0 _ w _ (creates w) h

      split :
          ((threads.create w).0 ≡ true) ⊎ ((threads.create w).0 ≡ false)
          → Ends Started Failed (create_probe_thread net threads p (r, w))
      split (inl made) =
          rw (create_probe_thread, made) (ok tt, _, refl, (set, (d, p, first, refl, k)))
      split (inr lost) =
          rw (create_probe_thread, lost)
            (
              err threads.not_created,
              (r, net.close p (threads.create w).1),
              refl,
              (
                second,
                rw first (
                    close-Held net view accounts 0 (λ x. only d x + owned x) p _
                      (regroup-Held _ _ _ (λ x. omega arith) k)),
              ),
            )

  create_threads-Ends :
      (d p : ℕ) (r : Responder) (w : W)
      → r.running ≡ true
      → r.discovery_thread ≡ none
      → r.probe_thread ≡ none
      → Held view (λ x. only d x + (only p x + owned x)) w
      → Ends Started Failed (create_threads net threads d p (r, w))
  unfolding create_threads
  create_threads-Ends d p r w set first second h = split (Bool-cases (threads.create w).0)
    where
      k : Held view (λ x. only d x + (only p x + owned x)) (threads.create w).1
      k = Steady-Held net view accounts 0 _ w _ (creates w) h

      split :
          ((threads.create w).0 ≡ true) ⊎ ((threads.create w).0 ≡ false)
          → Ends Started Failed (create_threads net threads d p (r, w))
      split (inl made) =
          rw (create_threads, made)
            (create_probe_thread-Ends d p (record r { discovery_thread = some d }) _ set refl second
              k)
      split (inr lost) =
          rw (create_threads, lost)
            (
              err threads.not_created,
              (r, net.close p (net.close d (threads.create w).1)),
              refl,
              (
                second,
                rw first (
                    regroup-Held owned _ _ (λ x. omega arith)
                      (close-Held net view accounts 0 owned p _
                        (close-Held net view accounts 0 (λ x. only p x + owned x) d _ k))),
              ),
            )

  open_second-Ends :
      (d : ℕ) (r : Responder) (w : W)
      → r.running ≡ true
      → r.discovery_thread ≡ none
      → r.probe_thread ≡ none
      → Held view (λ x. only d x + owned x) w
      → Ends Started Failed (open_second net threads d (r, w))
  unfolding open_second
  open_second-Ends d r w set first second h =
      let t = suc (view.ticks 0 w) in
      let n = suc (view.turns w) in
      let (q, v, e, k) =
        make_probe_socket-Yields net view accounts t n (λ x. only d x + owned x) r.options.bind_host
          r.selected_probe_port w (h, omega arith, omega arith) in
      opened q v e k
    where
      opened :
          (q : Result ℕ) (v : W)
          → make_probe_socket net r.options.bind_host r.selected_probe_port w ≡ some (q, v)
          → Post
              (λ p.
                Safe view 0
                  (suc (view.ticks 0 w))
                  (suc (view.turns w))
                  (λ x. only p x + (only d x + owned x)))
              (Held view (λ x. only d x + owned x))
              q
              v
          → Ends Started Failed (open_second net threads d (r, w))
      opened (ok p) v e (k, i, j) =
          rw (open_second, e)
            (create_threads-Ends d p r v set first second (regroup-Held _ _ v (λ x. omega arith) k))
      opened (err error) v e k =
          rw (open_second, e)
            (
              err error,
              (r, net.close d v),
              refl,
              (
                second,
                rw first (
                    regroup-Held owned _ _ (λ x. omega arith)
                      (close-Held net view accounts 0 owned d v k)),
              ),
            )

  open_sockets-Ends :
      (r : Responder) (w : W)
      → r.running ≡ true
      → r.discovery_thread ≡ none
      → r.probe_thread ≡ none
      → Held view owned w
      → Ends Started Failed (open_sockets net threads (r, w))
  unfolding open_sockets
  open_sockets-Ends r w set first second h =
      let t = suc (view.ticks 0 w) in
      let n = suc (view.turns w) in
      let (q, v, e, k) =
        make_udp_socket-Yields net view accounts t n owned r.options w
          (h, omega arith, omega arith) in
      opened q v e k
    where
      opened :
          (q : Result ℕ) (v : W)
          → make_udp_socket net r.options w ≡ some (q, v)
          → Post
              (λ d.
                Safe view 0 (suc (view.ticks 0 w)) (suc (view.turns w)) (λ x. only d x + owned x))
              (Held view owned)
              q
              v
          → Ends Started Failed (open_sockets net threads (r, w))
      opened (ok d) v e (k, i, j) = rw (open_sockets, e) (open_second-Ends d r v set first second k)
      opened (err error) v e k =
          rw (open_sockets, e)
            (
              err error,
              (r, v),
              refl,
              (second, rw first (regroup-Held owned _ v (λ x. omega arith) k)),
            )

  pub start_block-Ends :
      (r : Responder) (w : W)
      → r.running ≡ true
      → r.discovery_thread ≡ none
      → r.probe_thread ≡ none
      → Held view owned w
      → Ends Started Failed (start_block net threads (r, w))
  unfolding start_block
  start_block-Ends r w set first second h = split (configure r.options) refl
    where
      split :
          (c : Result Configured)
          → configure r.options ≡ c
          → Ends Started Failed (start_block net threads (r, w))
      split (err error) e =
          rw (start_block, e)
            (
              err error,
              (r, w),
              refl,
              (second, rw first (regroup-Held owned _ w (λ x. omega arith) h)),
            )
      split (ok c) e = rw (start_block, e) (open_sockets-Ends _ w set first second h)

  pub stop-Stands :
      (s : Responder × W)
      → Held view (λ x. owns s.0.discovery_thread x + (owns s.0.probe_thread x + owned x)) s.1
      → Stands view owned off (stop net s)
  unfolding stop
  stop-Stands (r, w) h =
      (refl, refl, refl, join-Held r.probe_thread owned _ (join-Held r.discovery_thread _ w h))
