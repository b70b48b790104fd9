-- ===== src/Base/Strings.antt =====
-- `std::string` as the list of its bytes, with comparison, order and search.
use Prim.Native.Nat.{ℕ, compare, Ordering}
use Prim.Native.Char.{code}
use Prim.Native.String.{String}
use mathlib.Core.Path.{◌≡◌, refl}
use mathlib.Core.Logic.{◌≢◌, ◌↔◌, ◌⊎◌, inl, inr}
use mathlib.Core.Bool.{Bool, true, false, ◌&&◌}
use mathlib.Core.List.{List, [], ◌∷◌, ◌++◌}
use mathlib.Core.Option.{Option, none, some}
use native.Mathlib.Omega.{arith}
use hyper_link.Base.Tests.{◌==◌, if◌then◌else◌, Bool-cases}
use hyper_link.Base.Lists.{All}

abbrev pub Text : Type 0
Text = List ℕ

-- The bytes of an ASCII literal.
abbrev pub codes : String → Text
codes String.[] = []
codes (String.◌∷◌ c s) = code c ∷ codes s

-- `operator==` of std::string.
unfoldable pub text_eq : Text → Text → Bool
text_eq [] [] = true
text_eq [] (d ∷ t) = false
text_eq (c ∷ s) [] = false
text_eq (c ∷ s) (d ∷ t) = c == d && text_eq s t

pub text_eq_iff : (s t : Text) → (text_eq s t ≡ true) ↔ (s ≡ t)
unfolding text_eq
text_eq_iff [] [] = (λ _. refl, λ _. refl)
text_eq_iff [] (d ∷ t) = ground arith
text_eq_iff (c ∷ s) [] = ground arith
text_eq_iff (c ∷ s) (d ∷ t) = ground (arith, text_eq_iff s t)

pub text_eq_refl : (s : Text) → text_eq s s ≡ true
text_eq_refl s = (text_eq_iff s s).1 refl

-- `operator<` of std::string: byte by byte, a proper prefix first.
unfoldable pub text_lt : Text → Text → Bool
text_lt [] [] = false
text_lt [] (d ∷ t) = true
text_lt (c ∷ s) [] = false
text_lt (c ∷ s) (d ∷ t) = elim (compare c d) [
  | Ordering.lt ↦ true
  | Ordering.eq ↦ text_lt s t
  | Ordering.gt ↦ false
]

-- `string::empty`.
abbrev pub is_empty : Text → Bool
is_empty [] = true
is_empty (c ∷ s) = false

-- No byte of the text is `b`.
abbrev pub Lacks : ℕ → Text → Type 0
Lacks b = All (λ c. c ≢ b)

-- `find(b, 0)`: what stands before the first `b` and what stands after it, `none` for `npos`.
unfoldable pub break_at : ℕ → Text → Option (Text × Text)
break_at b [] = none
break_at b (c ∷ s) =
    let rest = break_at b s in
    if c == b then some ([], s) else elim rest [ none ↦ none | some (p, q) ↦ some (c ∷ p, q) ]

pub break_at-append : (b : ℕ) (p q : Text) → Lacks b p → break_at b (p ++ b ∷ q) ≡ some (p, q)
unfolding break_at
break_at-append b [] q h = ground arith
break_at-append b (c ∷ p) q h = ground (arith, break_at-append b p q)

pub break_at-Lacks : (b : ℕ) (s : Text) → Lacks b s → break_at b s ≡ none
unfolding break_at
break_at-Lacks b [] h = refl
break_at-Lacks b (c ∷ s) h = ground (arith, break_at-Lacks b s)

-- What a search finds: nothing, or the first occurrence.
abbrev pub Breaks : ℕ → Text → Option (Text × Text) → Type 0
Breaks b s r =
    ((r ≡ none) × Lacks b s)
    ⊎ ((p : Text) × (q : Text) × (r ≡ some (p, q)) × (s ≡ p ++ b ∷ q) × Lacks b p)

pub break_at-Breaks : (b : ℕ) (s : Text) → Breaks b s (break_at b s)
unfolding break_at
break_at-Breaks b [] = inl (refl, tt)
break_at-Breaks b (c ∷ s) = elim (Bool-cases (c == b)) [
  | inl hit ↦ inr ([], s, rw hit, ground arith, tt)
  | inr miss ↦ elim (break_at-Breaks b s) [
    | inl (e, l) ↦ inl (ground arith, ground arith)
    | inr (p, q, e, f, l) ↦ inr (c ∷ p, q, rw (miss, e), ground arith, ground arith)
  ]
]

pub text_lt_irrefl : (s : Text) → text_lt s s ≡ false
unfolding text_lt
text_lt_irrefl [] = refl
text_lt_irrefl (c ∷ s) = ground (arith, text_lt_irrefl s)

pub text_lt_trans : (r s t : Text) → text_lt r s ≡ true → text_lt s t ≡ true → text_lt r t ≡ true
unfolding text_lt
text_lt_trans [] [] t h k = ground arith
text_lt_trans [] (c ∷ s) [] h k = ground arith
text_lt_trans [] (c ∷ s) (d ∷ t) h k = refl
text_lt_trans (b ∷ r) [] t h k = ground arith
text_lt_trans (b ∷ r) (c ∷ s) [] h k = ground arith
text_lt_trans (b ∷ r) (c ∷ s) (d ∷ t) h k = ground (arith, text_lt_trans r s t)

pub text_lt_total : (s t : Text) → text_lt s t ≡ false → text_lt t s ≡ false → s ≡ t
unfolding text_lt
text_lt_total [] [] h k = refl
text_lt_total [] (d ∷ t) h k = ground arith
text_lt_total (c ∷ s) [] h k = ground arith
text_lt_total (c ∷ s) (d ∷ t) h k = ground (arith, text_lt_total s t)

pub text_eq_of_lt : (s t : Text) → text_lt s t ≡ true → text_eq s t ≡ false
unfolding text_lt text_eq
text_eq_of_lt [] [] h = ground arith
text_eq_of_lt [] (d ∷ t) h = refl
text_eq_of_lt (c ∷ s) [] h = ground arith
text_eq_of_lt (c ∷ s) (d ∷ t) h = ground (arith, text_eq_of_lt s t)
