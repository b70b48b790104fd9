-- ===== src/PeerDiscovery/Replies/Opening.antt =====
-- The sockets that discovery messages are sent from: those that a vector keeps, and no other.
use hyper_link.Base.{
  ℕ, suc, ◌+◌, ◌≡◌, refl, sym, subst, arith, Bool, true, false, Option, none, some, List, [], ◌∷◌,
  ◌++◌, Result, ok, err,
}
use hyper_link.Base.Program.{Program, ◌>>=◌, pure, lift}
use hyper_link.Base.Triple.{call, run, Post, Ends, Yields, bind-Yields, if-Yields}
use hyper_link.Tcp.Ledger.{Balanced, opened-Balanced, only, owns}
use hyper_link.PeerDiscovery.{PeerDiscoveryOptions}
use hyper_link.PeerDiscovery.Network.{Network, Ipv4Endpoint, datagram, ipv4_endpoint, close_all}
use hyper_link.PeerDiscovery.Network.Accounts.{View, Accounts, Held, Safe, Stays, owned_by}
use hyper_link.PeerDiscovery.Network.Handles.{
  call-Stays, run-Stays, bind-Stays, pure-Stays, lift-Stays,
}
use hyper_link.PeerDiscovery.Network.Scopes.{close-Safe, close-Held, close_all-Safe, regroup-Safe}
use hyper_link.PeerDiscovery.Targets.{DiscoveryTarget}
use hyper_link.PeerDiscovery.Responder.Serving.{discovery_message}
use hyper_link.PeerDiscovery.Replies.{
  send_message, message_sent, keep_sent, opened_target, or_close, open_targets,
}

owned_by-append :
    (sockets opened : List ℕ) (x : ℕ)
    → owned_by (sockets ++ opened) x ≡ owned_by opened x + owned_by sockets x
owned_by-append [] opened x = omega arith
owned_by-append (d ∷ sockets) opened x = omega (arith, owned_by-append sockets opened x)

module _ {W : Type 0} (net : Network W) (view : View W) (accounts : Accounts net view) (u n : ℕ)
    (options : PeerDiscoveryOptions) where
  message_sent-Stays :
      (owned : ℕ → ℕ) (target : DiscoveryTarget) (d : ℕ)
      → Stays view 0 u n owned (message_sent net options target d)
  unfolding message_sent send_message
  message_sent-Stays owned target d =
      bind-Stays net view accounts 0 u n owned (run (net.set_option d)) _
        (run-Stays net view accounts 0 u n owned (net.set_option d) (accounts.set_option_steady d))
        (λ a.
          bind-Stays net view accounts 0 u n owned (lift (ipv4_endpoint net target.bind_address 0))
            _ (lift-Stays net view accounts 0 u n owned _)
            (λ from.
              bind-Stays net view accounts 0 u n owned
                (lift (ipv4_endpoint net target.destination options.discovery_port))
                (send_message net d from) (lift-Stays net view accounts 0 u n owned _)
                (sending from)))
    where
      sending :
          (from destination : Ipv4Endpoint)
          → Stays view 0 u n owned (send_message net d from destination)
      sending from destination =
          bind-Stays net view accounts 0 u n owned (call (net.bind d from)) _
            (call-Stays net view accounts 0 u n owned (net.bind d from)
              (accounts.bind_steady d from))
            (λ bound.
              if-Yields (Safe view 0 u n owned) (λ a. Safe view 0 u n owned) (Held view owned) bound
                (call (net.sendto d discovery_message destination)) (pure false)
                (λ e.
                  call-Stays net view accounts 0 u n owned _
                    (accounts.sendto_steady d discovery_message destination))
                (λ e. pure-Stays net view accounts 0 u n owned false))

  -- The sockets that were opened belong to the vector.
  abbrev pub Gains : (ℕ → ℕ) → List ℕ → W → Type 0
  Gains owned opened w = Safe view 0 u n (λ x. owned_by opened x + owned x) w

  keep_sent-Yields :
      (owned : ℕ → ℕ) (d : ℕ) (body : Program W Bool)
      → Stays view 0 u n (λ x. only d x + owned x) body
      → Yields
          (Safe view 0 u n (λ x. only d x + owned x))
          (Gains owned)
          (Held view owned)
          (keep_sent net d body)
  unfolding keep_sent
  keep_sent-Yields owned d body stays w h = let (r, v, e, k) = stays w h in kept r v e k
    where
      kept :
          (r : Result Bool) (v : W)
          → body w ≡ some (r, v)
          → Post
              (λ b. Safe view 0 u n (λ x. only d x + owned x))
              (Held view (λ x. only d x + owned x))
              r
              v
          → Ends (Gains owned) (Held view owned) (keep_sent net d body w)
      kept (ok true) v e k = (
        ok (d ∷ []),
        v,
        rw (e, keep_sent) refl,
        regroup-Safe net view accounts 0 u n _ _ v (λ x. omega arith) k,
      )
      kept (ok false) v e k = (
        ok [],
        net.close d v,
        rw (e, keep_sent) refl,
        regroup-Safe net view accounts 0 u n owned _ (net.close d v) (λ x. omega arith)
            (close-Safe net view accounts 0 u n owned d v k),
      )
      kept (err error) v e k = (
        err error,
        net.close d v,
        rw (e, keep_sent) refl,
        close-Held net view accounts 0 owned d v k,
      )

  opened_target-Yields :
      (owned : ℕ → ℕ) (target : DiscoveryTarget) (handle : Option ℕ)
      → Yields
          (Safe view 0 u n (λ x. owns handle x + owned x))
          (Gains owned)
          (Held view owned)
          (opened_target net options target handle)
  unfolding opened_target
  opened_target-Yields owned target none =
      λ w h. (ok [], w, refl, regroup-Safe net view accounts 0 u n _ _ w (λ x. omega arith) h)
  opened_target-Yields owned target (some d) =
      keep_sent-Yields owned d (message_sent net options target d)
        (message_sent-Stays (λ x. only d x + owned x) target d)

  open_target-Yields :
      (owned : ℕ → ℕ) (target : DiscoveryTarget)
      → Yields
          (Safe view 0 u n owned)
          (Gains owned)
          (Held view owned)
          (call (net.socket datagram) >>= opened_target net options target)
  open_target-Yields owned target w (h, p, q) =
      let (e, (f, g)) = accounts.socket_opens datagram w in
      let handle = (net.socket datagram w).0 in
      opened_target-Yields owned target handle (net.socket datagram w).1 (
        subst (λ l. Balanced l (λ x. owns handle x + owned x)) (sym e)
            (opened-Balanced handle (view.ledger w) owned h),
        omega (arith, p, f 0),
        omega (arith, q, g),
      )

  pub close_all-Held :
      (owned : ℕ → ℕ) (sockets : List ℕ) (w : W)
      → Held view (λ x. owned_by sockets x + owned x) w
      → Held view owned (close_all net sockets w)
  close_all-Held owned sockets w h =
      (close_all-Safe net view accounts 0 (suc (view.ticks 0 w)) (suc (view.turns w)) owned sockets
        w (h, omega arith, omega arith)).0

  pub or_close-Yields :
      {A : Type 0} (owned : ℕ → ℕ) (sockets : List ℕ) (I : W → Type 0) (K : A → W → Type 0)
      (body : Program W A)
      → Yields I K (Held view (λ x. owned_by sockets x + owned x)) body
      → Yields I K (Held view owned) (or_close net sockets body)
  unfolding or_close
  or_close-Yields {A = A} owned sockets I K body yields w h =
      let (r, v, e, k) = yields w h in kept r v e k
    where
      kept :
          (r : Result A) (v : W)
          → body w ≡ some (r, v)
          → Post K (Held view (λ x. owned_by sockets x + owned x)) r v
          → Ends K (Held view owned) (or_close net sockets body w)
      kept (ok a) v e k = (ok a, v, rw (e, or_close) refl, k)
      kept (err error) v e k = (
        err error,
        close_all net sockets v,
        rw (e, or_close) refl,
        close_all-Held owned sockets v k,
      )

  pub open_targets-Yields :
      (owned : ℕ → ℕ) (targets : List DiscoveryTarget) (sockets : List ℕ)
      → Yields
          (Gains owned sockets)
          (Gains owned)
          (Held view owned)
          (open_targets net options targets sockets)
  unfolding open_targets
  open_targets-Yields owned [] sockets = λ w h. (ok sockets, w, refl, h)
  open_targets-Yields owned (target ∷ targets) sockets =
      let held : ℕ → ℕ = λ x. owned_by sockets x + owned x in
      let open_one = call (net.socket datagram) >>= opened_target net options target in
      bind-Yields (Gains owned sockets) (Gains held) (Gains owned) (Held view owned)
        (or_close net sockets open_one) _
        (or_close-Yields owned sockets (Gains owned sockets) (Gains held) open_one
          (open_target-Yields held target))
        (λ opened w h. open_targets-Yields owned targets (sockets ++ opened) w (
          regroup-Safe net view accounts 0 u n _ _ w
            (λ x. omega (arith, owned_by-append sockets opened x)) h))
