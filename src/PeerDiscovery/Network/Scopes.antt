-- ===== src/PeerDiscovery/Network/Scopes.antt =====
-- The handles of peer discovery close their sockets at the end of their scopes.
use hyper_link.Base.{
  ℕ, ◌+◌, ◌≡◌, refl, sym, subst, ◌∙◌, arith, some, List, [], ◌∷◌, Result, ok, err,
}
use hyper_link.Base.Program.{Program}
use hyper_link.Base.Triple.{Post, Ends, Yields}
use hyper_link.Tcp.Ledger.{Balanced, close_one-Balanced, only}
use hyper_link.PeerDiscovery.Network.{Network, with_handle, keep_handle, close_all}
use hyper_link.PeerDiscovery.Network.Accounts.{View, Accounts, Held, Safe, Stays, owned_by}

module _ {W : Type 0} (net : Network W) (view : View W) (accounts : Accounts net view)
    (deadline : ℕ) where
  pub close-Safe :
      (t n : ℕ) (owned : ℕ → ℕ) (d : ℕ) (w : W)
      → Safe view deadline t n (λ x. only d x + owned x) w
      → Safe view deadline t n owned (net.close d w)
  close-Safe t n owned d w (h, p, q) =
      let (e, (f, g)) = accounts.close_closes d w in
      (
        subst (λ l. Balanced l owned) (sym e) (close_one-Balanced d (view.ledger w) owned h),
        omega (arith, p, f deadline),
        omega (arith, q, g),
      )

  pub close-Held :
      (owned : ℕ → ℕ) (d : ℕ) (w : W)
      → Held view (λ x. only d x + owned x) w
      → Held view owned (net.close d w)
  close-Held owned d w h =
      subst (λ l. Balanced l owned) (sym (accounts.close_closes d w).0)
        (close_one-Balanced d (view.ledger w) owned h)

  module _ (t n : ℕ) (owned : ℕ → ℕ) (d : ℕ) where
    -- The body of a scope that has a handle.
    pub with_handle-Yields :
        {A : Type 0} (I : W → Type 0) (K L : A → W → Type 0) (body : Program W A)
        → Yields I K (Held view (λ x. only d x + owned x)) body
        → ((a : A) (w : W) → K a w → L a (net.close d w))
        → Yields I L (Held view owned) (with_handle net d body)
    unfolding with_handle
    with_handle-Yields {A = A} I K L body yields closes w h =
        let (r, w', e, k) = yields w h in
        (r, net.close d w', rw (e, with_handle) refl, closed r w' k)
      where
        closed :
            (r : Result A) (w' : W)
            → Post K (Held view (λ x. only d x + owned x)) r w'
            → Post L (Held view owned) r (net.close d w')
        closed (ok a) w' k = closes a w' k
        closed (err error) w' k = close-Held owned d w' k

    -- What sets up a handle that is returned.
    pub keep_handle-Yields :
        (body : Program W (Unit {0}))
        → Stays view deadline t n (λ x. only d x + owned x) body
        → Yields
            (Safe view deadline t n (λ x. only d x + owned x))
            (λ a. Safe view deadline t n (λ x. only a x + owned x))
            (Held view owned)
            (keep_handle net d body)
    unfolding keep_handle
    keep_handle-Yields body stays w h = let (r, w', e, k) = stays w h in kept r w' e k
      where
        kept :
            (r : Result (Unit {0})) (w' : W)
            → body w ≡ some (r, w')
            → Post
                (λ a. Safe view deadline t n (λ x. only d x + owned x))
                (Held view (λ x. only d x + owned x))
                r
                w'
            → Ends
                (λ a. Safe view deadline t n (λ x. only a x + owned x))
                (Held view owned)
                (keep_handle net d body w)
        kept (ok a) w' e k = (ok d, w', rw (e, keep_handle) refl, k)
        kept (err error) w' e k =
            (err error, net.close d w', rw (e, keep_handle) refl, close-Held owned d w' k)

  pub regroup-Safe :
      (t n : ℕ) (owned owned' : ℕ → ℕ) (w : W)
      → ((x : ℕ) → owned x ≡ owned' x)
      → Safe view deadline t n owned w
      → Safe view deadline t n owned' w
  regroup-Safe t n owned owned' w same ((f, h), p, q) = ((f, λ x. h x ∙ same x), p, q)

  pub close_all-Safe :
      (t n : ℕ) (owned : ℕ → ℕ) (sockets : List ℕ) (w : W)
      → Safe view deadline t n (λ x. owned_by sockets x + owned x) w
      → Safe view deadline t n owned (close_all net sockets w)
  unfolding close_all
  close_all-Safe t n owned [] w h = regroup-Safe t n _ owned w (λ x. omega arith) h
  close_all-Safe t n owned (d ∷ sockets) w h = close_all-Safe t n owned sockets (net.close d w) (
      close-Safe t n (λ x. owned_by sockets x + owned x) d w
        (regroup-Safe t n (λ x. (only d x + owned_by sockets x) + owned x)
          (λ x. only d x + (owned_by sockets x + owned x)) w (λ x. omega arith) h))
