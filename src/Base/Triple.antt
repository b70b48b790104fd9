-- ===== src/Base/Triple.antt =====
-- What a program leads to, from the states with a property: it returns, by a result with a property of
-- it and of the state, or by an exception in a state with another.
use mathlib.Core.Path.{◌≡◌, refl, sym, ◌∙◌}
use mathlib.Core.Bool.{Bool, true, false}
use mathlib.Core.Option.{Option, some}
use native.Mathlib.Omega.{arith}
use hyper_link.Base.Tests.{if◌then◌else◌}
use hyper_link.Base.Outcome.{Error, Result, ok, err}
use hyper_link.Base.Program.{Program, ◌>>=◌, >>=-ok, >>=-err}

-- A call that returns a value.
abbrev pub call : {S A : Type 0} → (S → A × S) → Program S A
call f s = some (ok (f s).0, (f s).1)

-- A call that returns nothing.
abbrev pub run : {S : Type 0} → (S → S) → Program S (Unit {0})
run f s = some (ok tt, f s)

module _ {S : Type 0} where
  abbrev pub Post : {A : Type 0} → (A → S → Type 0) → (S → Type 0) → Result A → S → Type 0
  Post K D (ok a) s = K a s
  Post K D (err error) s = D s

  abbrev pub Ends : {A : Type 0} → (A → S → Type 0) → (S → Type 0) → Option (Result A × S) → Type 0
  Ends {A = A} K D outcome = (r : Result A) × (s : S) × (outcome ≡ some (r, s)) × Post K D r s

  abbrev pub Yields :
      {A : Type 0} → (S → Type 0) → (A → S → Type 0) → (S → Type 0) → Program S A → Type 0
  Yields I K D m = (s : S) → I s → Ends K D (m s)

  module _ {A B : Type 0} (I : S → Type 0) (K : A → S → Type 0) (L : B → S → Type 0)
      (D : S → Type 0) where
    bind_end :
        (m : Program S A) (k : A → Program S B) (s s' : S) (r : Result A)
        → m s ≡ some (r, s')
        → Post K D r s'
        → ((a : A) → Yields (K a) L D (k a))
        → Ends L D ((m >>= k) s)
    bind_end m k s s' (err error) e h f = (err error, s', >>=-err m k s e, h)
    bind_end m k s s' (ok a) e h f = let (q, t, g, h') = f a s' h in (q, t, >>=-ok m k s e ∙ g, h')

    pub bind-Yields :
        (m : Program S A) (k : A → Program S B)
        → Yields I K D m
        → ((a : A) → Yields (K a) L D (k a))
        → Yields I L D (m >>= k)
    bind-Yields m k h f s i = let (r, s', e, h') = h s i in bind_end m k s s' r e h' f

  -- A program whose value is passed on.
  module _ {B : Type 0} (I : S → Type 0) (L : B → S → Type 0) (D : S → Type 0) where
    pub call-Yields :
        {A : Type 0} (f : S → A × S) (k : A → Program S B)
        → ((s : S) → I s → Ends L D (k (f s).0 (f s).1))
        → Yields I L D (call f >>= k)
    call-Yields f k h s i = h s i

    pub if-Yields :
        (test : Bool) (m m' : Program S B)
        → (test ≡ true → Yields I L D m)
        → (test ≡ false → Yields I L D m')
        → Yields I L D (if test then m else m')
    if-Yields true m m' h h' = h refl
    if-Yields false m m' h h' = h' refl

    pub weaken_result :
        (J : B → S → Type 0) (m : Program S B)
        → ((b : B) (s : S) → J b s → L b s)
        → Yields I J D m
        → Yields I L D m
    weaken_result J m weaker h s i = let (r, s', e, p) = h s i in (r, s', e, weaker_end r s' p)
      where
        weaker_end : (r : Result B) (s' : S) → Post J D r s' → Post L D r s'
        weaker_end (ok b) s' p = weaker b s' p
        weaker_end (err error) s' p = p

    differ :
        {error : Error} {b : B} {s s' : S}
        → ◌≡◌ {A = Option (Result B × S)} (some (err error, s)) (some (ok b, s'))
        → ⊥
    differ e = ground arith

    -- A program that never throws.
    pub surely-Yields :
        (C : S → Type 0) (m : Program S B)
        → ((s : S) → I s → (b : B) × (s' : S) × (m s ≡ some (ok b, s')))
        → Yields I L D m
        → Yields I L C m
    surely-Yields C m returns h s i =
        let (r, s', e, p) = h s i in let (b, s'', e') = returns s i in returned r s' b s'' e' e p
      where
        returned :
            (r : Result B) (s' : S) (b : B) (s'' : S)
            → m s ≡ some (ok b, s'')
            → m s ≡ some (r, s')
            → Post L D r s'
            → Ends L C (m s)
        returned (ok a) s' b s'' same e p = (ok a, s', e, p)
        returned (err error) s' b s'' same e p = absurd (differ (sym e ∙ same))
