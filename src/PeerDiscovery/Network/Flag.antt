-- ===== src/PeerDiscovery/Network/Flag.antt =====
-- A loop that goes on while the flag of the responder is set.
use hyper_link.Base.{ℕ, suc, ◌≡◌, arith, true, false, Bool-cases, ◌⊎◌, inl, inr, if◌then◌else◌}
use hyper_link.Base.Program.{Program, ◌>>=◌}
use hyper_link.Base.Triple.{call, Ends, Yields}
use hyper_link.PeerDiscovery.Network.{Network}
use hyper_link.PeerDiscovery.Network.Accounts.{View, Accounts, Safe}
use hyper_link.PeerDiscovery.Network.Handles.{Steady-Safe}

module _ {W : Type 0} (net : Network W) (view : View W) (accounts : Accounts net view)
    (deadline t f : ℕ) (owned : ℕ → ℕ) where
  -- One round, with fewer readings of the flag left behind a reading of it as set.
  pub flag-Yields :
      {A : Type 0} (L : A → W → Type 0) (D : W → Type 0) (body finish : Program W A)
      → Yields (Safe view deadline t f owned) L D body
      → Yields (Safe view deadline t (suc f) owned) L D finish
      → Yields
          (Safe view deadline t (suc f) owned)
          L
          D
          (call net.running >>= λ running. if running then body else finish)
  flag-Yields L D body finish goes ends w h = split (Bool-cases (net.running w).0)
    where
      split :
          ((net.running w).0 ≡ true) ⊎ ((net.running w).0 ≡ false)
          → Ends L D ((if (net.running w).0 then body else finish) (net.running w).1)
      split (inl set) =
          let (k, p, q) =
            Steady-Safe net view accounts deadline t (suc f) owned w _ (accounts.running_steady w)
              h in
          rw set (goes (net.running w).1 (k, p, omega (arith, accounts.running_turns w set, h.2)))
      split (inr reset) = rw reset (
          ends (net.running w).1 (
            Steady-Safe net view accounts deadline t (suc f) owned w _ (accounts.running_steady w)
              h))
