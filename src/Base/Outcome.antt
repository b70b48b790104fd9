-- ===== src/Base/Outcome.antt =====
-- Exceptions as values: the exception classes that the program throws, and a result monad.
use mathlib.Core.Path.{◌≡◌, refl}
use mathlib.Core.Logic.{◌⊎◌, inl, inr}
use hyper_link.Base.Strings.{Text}

-- `std::invalid_argument`, `std::logic_error`, `std::out_of_range`, `std::runtime_error` and `PeerDiscoveryError`, with
-- the text that `what()` returns.
pub data Error : Type 0 where
  invalid_argument : Text → Error
  logic_error : Text → Error
  out_of_range : Text → Error
  runtime_error : Text → Error
  peer_discovery_error : Text → Error

-- What a call comes to: an exception, or the value that it returns.
pub data Result {ℓ} (A : Type ℓ) : Type ℓ where
  err : Error → Result A
  ok : A → Result A

module _ {ℓ} {A : Type ℓ} where
  -- A result is one or the other.
  pub Result-cases : (r : Result A) → ((a : A) × (r ≡ ok a)) ⊎ ((x : Error) × (r ≡ err x))
  Result-cases (err x) = inr (x, refl)
  Result-cases (ok a) = inl (a, refl)

infixl 5 ◌>>=◌ ◌>>◌
-- The rest of a block runs on the value, and not at all after an exception.
abbrev pub ◌>>=◌ {ℓ κ} :
    {A : Type ℓ} {B : Type κ} (first : Result A) (rest : A → Result B) → Result B
first >>= rest = elim first [ err x ↦ err x | ok value ↦ rest value ]

abbrev pub ◌>>◌ {κ} : {B : Type κ} (first : Result (Unit {0})) (rest : Result B) → Result B
first >> rest = elim first [ err x ↦ err x | ok done ↦ rest ]

-- `what()`.
abbrev pub what : Error → Text
what (invalid_argument m) = m
what (logic_error m) = m
what (out_of_range m) = m
what (runtime_error m) = m
what (peer_discovery_error m) = m
