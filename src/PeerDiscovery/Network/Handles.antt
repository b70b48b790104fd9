-- ===== src/PeerDiscovery/Network/Handles.antt =====
-- The sockets that the steps of peer discovery own, and the time that they leave.
use hyper_link.Base.{
  ℕ, zero, suc, ◌+◌, ◌-◌, ◌/◌, ◌<◌, ◌≡◌, refl, sym, subst, arith, Bool, true, false, Bool-cases,
  ◌⊎◌, inl, inr, Option, none, some, [], ◌∷◌, Text, leb, if◌then◌else◌, Error, Result, ok, err,
}
use hyper_link.Base.Int.{ℤ, pos, minus, is_positive}
use hyper_link.Base.Program.{Program, ◌>>=◌, pure, throw, lift}
use hyper_link.Base.Triple.{call, run, Ends, Yields, bind-Yields, if-Yields}
use hyper_link.Tcp.Ledger.{Balanced, opened-Balanced, only, owns}
use hyper_link.PeerDiscovery.Network.{
  Network, SocketType, Selected, select_failed, nothing_ready, some_ready, throw_last, require,
  set_flags, set_nonblocking, not_configured, wait_for_socket, select_one, open_socket,
  opened_socket, check_selected, remaining_us, timed_out, wait_failed,
}
use hyper_link.PeerDiscovery.Network.Accounts.{View, Accounts, Steady, Held, Safe, Stays}

minus-positive : (n : ℕ) → is_positive (minus n) ≡ false
minus-positive zero = refl
minus-positive (suc n) = refl

time_left :
    (early : Bool) (deadline now : ℕ)
    → is_positive (if early then pos ((deadline - now) / 1000) else minus ((now - deadline) / 1000))
      ≡ true
    → now < deadline
time_left true deadline now h = ground arith
time_left false deadline now h = absurd (ground (arith, minus-positive ((now - deadline) / 1000)))

remaining-lt : (deadline now : ℕ) → is_positive (remaining_us deadline now) ≡ true → now < deadline
unfolding remaining_us
remaining-lt deadline now h = time_left (leb now deadline) deadline now h

module _ {W : Type 0} (net : Network W) (view : View W) (accounts : Accounts net view)
    (deadline : ℕ) where
  pub Steady-Held :
      (owned : ℕ → ℕ) (w w' : W) → Steady net view w w' → Held view owned w → Held view owned w'
  Steady-Held owned w w' (e, later) h = subst (λ l. Balanced l owned) (sym e) h

  pub Steady-Safe :
      (t n : ℕ) (owned : ℕ → ℕ) (w w' : W)
      → Steady net view w w'
      → Safe view deadline t n owned w
      → Safe view deadline t n owned w'
  Steady-Safe t n owned w w' (e, (f, g)) (h, p, q) =
      (subst (λ l. Balanced l owned) (sym e) h, omega (arith, p, f deadline), omega (arith, q, g))

  module _ (t n : ℕ) (owned : ℕ → ℕ) where
    pub call-Stays :
        {A : Type 0} (f : W → A × W)
        → ((w : W) → Steady net view w (f w).1)
        → Stays view deadline t n owned (call f)
    call-Stays f steady w h = (ok (f w).0, (f w).1, refl, Steady-Safe t n owned w _ (steady w) h)

    pub run-Stays :
        (f : W → W) → ((w : W) → Steady net view w (f w)) → Stays view deadline t n owned (run f)
    run-Stays f steady w h = (ok tt, f w, refl, Steady-Safe t n owned w _ (steady w) h)

    pub bind-Stays :
        {A B : Type 0} (m : Program W A) (k : A → Program W B)
        → Stays view deadline t n owned m
        → ((a : A) → Stays view deadline t n owned (k a))
        → Stays view deadline t n owned (m >>= k)
    bind-Stays m k h f =
        bind-Yields (Safe view deadline t n owned) (λ a. Safe view deadline t n owned)
          (λ b. Safe view deadline t n owned) (Held view owned) m k h f

    pub pure-Stays : {A : Type 0} (a : A) → Stays view deadline t n owned (pure a)
    pure-Stays a w h = (ok a, w, refl, h)

    pub throw-Stays :
        {A : Type 0} (error : Error) → Stays view deadline t n owned (throw {A = A} error)
    throw-Stays error w h = (err error, w, refl, h.0)

    pub throw_last-Stays :
        {A : Type 0} (error : Text → Error)
        → Stays view deadline t n owned (throw_last net {A = A} error)
    throw_last-Stays error w h = (err (error (net.last_socket_error w)), w, refl, h.0)

    pub lift-Stays : {A : Type 0} (r : Result A) → Stays view deadline t n owned (lift r)
    lift-Stays (ok a) = pure-Stays a
    lift-Stays (err error) = throw-Stays error

    pub require-Stays :
        (error : Text → Error) (f : W → Bool × W)
        → ((w : W) → Steady net view w (f w).1)
        → Stays view deadline t n owned (require net error f)
    require-Stays error f steady = bind-Stays (call f) _ (call-Stays f steady) (λ done.
        if-Yields (Safe view deadline t n owned) (λ a. Safe view deadline t n owned)
          (Held view owned) done (pure tt) (throw_last net error) (λ e. pure-Stays tt)
          (λ e. throw_last-Stays error))

    set_flags-Stays :
        (d : ℕ) (flags : Option ℕ) → Stays view deadline t n owned (set_flags net d flags)
    unfolding set_flags
    set_flags-Stays d none = throw_last-Stays not_configured
    set_flags-Stays d (some flags) =
        require-Stays not_configured (net.set_nonblocking_flag d flags)
          (accounts.set_flag_steady d flags)

    pub set_nonblocking-Stays : (d : ℕ) → Stays view deadline t n owned (set_nonblocking net d)
    unfolding set_nonblocking
    set_nonblocking-Stays d =
        bind-Stays (call (net.get_flags d)) (set_flags net d)
          (call-Stays (net.get_flags d) (accounts.get_flags_steady d)) (set_flags-Stays d)

    check_selected-Stays :
        (selected : Selected) → Stays view deadline t n owned (check_selected net selected)
    unfolding check_selected
    check_selected-Stays select_failed = throw_last-Stays wait_failed
    check_selected-Stays nothing_ready = throw-Stays timed_out
    check_selected-Stays (some_ready readable writable) = pure-Stays tt

    select_one-Stays :
        (d : ℕ) (write : Bool) (timeout : ℤ)
        → Stays view deadline t n owned (select_one net d write timeout)
    unfolding select_one
    select_one-Stays d true timeout = call-Stays _ (accounts.select_steady [] (d ∷ []) timeout)
    select_one-Stays d false timeout = call-Stays _ (accounts.select_steady (d ∷ []) [] timeout)

  -- A wait that returns has read the clock before the deadline.
  pub wait_for_socket-Yields :
      (t n : ℕ) (owned : ℕ → ℕ) (d : ℕ) (write : Bool)
      → Yields
          (Safe view deadline (suc t) n owned)
          (λ a. Safe view deadline t n owned)
          (Held view owned)
          (wait_for_socket net d write deadline)
  unfolding wait_for_socket
  wait_for_socket-Yields t n owned d write w h =
      split w h (Bool-cases (is_positive (remaining_us deadline (net.now w).0)))
    where
      split :
          (w : W)
          → Safe view deadline (suc t) n owned w
          → (is_positive (remaining_us deadline (net.now w).0) ≡ true)
            ⊎ (is_positive (remaining_us deadline (net.now w).0) ≡ false)
          → Ends
              (λ a. Safe view deadline t n owned)
              (Held view owned)
              ((if is_positive (remaining_us deadline (net.now w).0)
                  then select_one net d write (remaining_us deadline (net.now w).0)
                    >>= check_selected net
                  else throw timed_out)
                (net.now w).1)
      split w h (inl early) =
          let (k, p, q) = Steady-Safe (suc t) n owned w _ (accounts.now_steady w) h in
          let sooner = accounts.now_ticks deadline w (remaining-lt deadline (net.now w).0 early) in
          rw early (
            bind-Stays t n owned (select_one net d write (remaining_us deadline (net.now w).0))
              (check_selected net) (select_one-Stays t n owned d write _)
              (check_selected-Stays t n owned) (net.now w).1 (k, omega (arith, sooner, h.1), q))
      split w h (inr late) =
          let k = Steady-Safe (suc t) n owned w _ (accounts.now_steady w) h in
          rw late (err timed_out, (net.now w).1, refl, k.0)

  -- A socket that opens belongs to the step behind it.
  pub open_socket-Yields :
      (t n : ℕ) (owned : ℕ → ℕ) (type : SocketType) (error : Text → Error)
      → Yields
          (Safe view deadline t n owned)
          (λ d. Safe view deadline t n (λ x. only d x + owned x))
          (Held view owned)
          (open_socket net type error)
  unfolding open_socket opened_socket
  open_socket-Yields t n owned type error w (h, p, q) =
      let (e, (f, g)) = accounts.socket_opens type w in
      opening (net.socket type w).0 (net.socket type w).1 (
        subst (λ l. Balanced l (λ x. owns (net.socket type w).0 x + owned x)) (sym e)
            (opened-Balanced (net.socket type w).0 (view.ledger w) owned h),
        omega (arith, p, f deadline),
        omega (arith, q, g),
      )
    where
      opening :
          (handle : Option ℕ) (w' : W)
          → Safe view deadline t n (λ x. owns handle x + owned x) w'
          → Ends
              (λ d. Safe view deadline t n (λ x. only d x + owned x))
              (Held view owned)
              (opened_socket net error handle w')
      opening none w' ((f, h), p, q) =
          (err (error (net.last_socket_error w')), w', refl, (f, λ x. ground (arith, h x)))
      opening (some d) w' h = (ok d, w', refl, h)
