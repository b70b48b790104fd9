-- ===== src/Base/Program.antt =====
-- Code that changes a state, throws, and loops: from a state to the result and the new state, `none`
-- if the fuel of a loop ran out. A throw keeps the state that it was reached in.
use mathlib.Core.Path.{◌≡◌}
use mathlib.Core.Option.{Option, none, some}
use hyper_link.Base.Outcome.{Error, Result, ok, err}

abbrev pub Program {ℓ} : Type ℓ → Type 0 → Type ℓ
Program S A = S → Option (Result A × S)

infixl 5 ◌>>=◌ ◌>>◌
abbrev pub ◌>>=◌ {ℓ} : {S : Type ℓ} {A B : Type 0} → Program S A → (A → Program S B) → Program S B
◌>>=◌ m f s = elim (m s) [
  | none ↦ none
  | some (ok a, s') ↦ f a s'
  | some (err e, s') ↦ some (err e, s')
]

abbrev pub ◌>>◌ {ℓ} : {S : Type ℓ} {B : Type 0} → Program S (Unit {0}) → Program S B → Program S B
m >> k = m >>= λ _. k

abbrev pub pure {ℓ} : {S : Type ℓ} {A : Type 0} → A → Program S A
pure a s = some (ok a, s)

abbrev pub throw {ℓ} : {S : Type ℓ} {A : Type 0} → Error → Program S A
throw e s = some (err e, s)

-- A computation that neither loops nor touches the state.
abbrev pub lift {ℓ} : {S : Type ℓ} {A : Type 0} → Result A → Program S A
lift r s = some (r, s)

-- One step of a block, by what its first action returns.
module _ {ℓ} {S : Type ℓ} {A B : Type 0} (m : Program S A) (f : A → Program S B) (s : S) where
  pub >>=-ok : {a : A} {s' : S} → m s ≡ some (ok a, s') → (m >>= f) s ≡ f a s'
  >>=-ok {a} {s'} e = rw (e, ◌>>=◌)

  pub >>=-err : {x : Error} {s' : S} → m s ≡ some (err x, s') → (m >>= f) s ≡ some (err x, s')
  >>=-err {x} {s'} e = rw (e, ◌>>=◌)

module _ {ℓ} {S : Type ℓ} {A B : Type 0} (r : Result A) (f : A → Program S B) (s : S) where
  pub lifts : {a : A} → r ≡ ok a → (lift r >>= f) s ≡ f a s
  lifts e = rw (e, ◌>>=◌)

  pub lifts_err : {x : Error} → r ≡ err x → (lift r >>= f) s ≡ some (err x, s)
  lifts_err e = rw (e, ◌>>=◌)
