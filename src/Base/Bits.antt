-- ===== src/Base/Bits.antt =====
-- `(q << 8) | r` for a byte `r`, as arithmetic. The libraries give `bit_or` by its digits only.
use Prim.Native.Nat.{
  ℕ, zero, suc, ◌+◌, ◌*◌, ◌/◌, ◌^◌, ◌≤◌, ◌<◌, max, bit_or, digits, bit_or-bitwise,
}
use mathlib.Core.Path.{◌≡◌, refl, ap, ◌∙◌}
use native.Mathlib.Nat.{pow-suc}
use native.Mathlib.Omega.{arith}

abbrev or_digits : ℕ → ℕ → ℕ → ℕ
or_digits = digits (λ b. b) max

or_digits-zero : (n a : ℕ) → a ≤ n → or_digits n a 0 ≡ a
or_digits-zero zero zero h = refl
or_digits-zero (suc n) zero h = refl
or_digits-zero zero (suc a) h = absurd (omega arith)
or_digits-zero (suc n) (suc a) h = omega (arith, or_digits-zero n (suc a / 2) (omega arith))

-- The digits of `r` fill the places that the multiple `a` of 2 ^ k leaves free.
or_digits_disjoint : (k n a q r : ℕ) → a ≤ n → a ≡ q * 2 ^ k → r < 2 ^ k → or_digits n a r ≡ a + r
or_digits_disjoint zero n a q zero h e l = omega (arith, or_digits-zero n a h)
or_digits_disjoint zero n a q (suc r) h e l = absurd (omega arith)
or_digits_disjoint (suc k) zero zero q r h e l = omega arith
or_digits_disjoint (suc k) (suc n) zero q r h e l = omega arith
or_digits_disjoint (suc k) zero (suc a) q r h e l = absurd (omega arith)
or_digits_disjoint (suc k) (suc n) (suc a) q r h e l =
    let twice : 2 ^ suc k ≡ 2 * 2 ^ k = omega (arith, pow-suc 2 k) in
    let half : suc a ≡ 2 * (q * 2 ^ k) = omega (arith, ap (λ (t : ℕ). q * t) twice) in
    omega (
      arith,
      or_digits_disjoint k n (suc a / 2) q (r / 2) (omega arith) (omega arith) (omega arith),
    )

-- `(q << 8) | r` for a byte `r`.
pub bit_or-byte : (q r : ℕ) → r < 256 → bit_or (q * 256) r ≡ q * 256 + r
bit_or-byte q r h =
    bit_or-bitwise (q * 256) r ∙ or_digits_disjoint 8 (q * 256) (q * 256) q r (omega arith) refl h
