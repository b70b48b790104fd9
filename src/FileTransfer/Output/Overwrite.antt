-- ===== src/FileTransfer/Output/Overwrite.antt =====
-- Bytes written into the middle of a file.
use hyper_link.Base.{
  ℕ, zero, suc, ◌+◌, ◌-◌, ◌≤◌, ◌<◌, ◌≡◌, refl, ap, ◌∙◌, arith, ◌⊎◌, inl, inr, some, List, [], ◌∷◌,
  ◌++◌, length, get_elem?, take, drop,
}
use native.Mathlib.Nat.{sub-zero, suc-sub-suc}
use native.Mathlib.Decide.{dec_lt}

module _ {A : Type 0} where
  -- The bytes at a position and behind it are replaced.
  unfoldable pub overwrite : ℕ → List A → List A → List A
  overwrite p bytes [] = []
  overwrite zero [] (x ∷ xs) = x ∷ xs
  overwrite zero (b ∷ bytes) (x ∷ xs) = b ∷ overwrite zero bytes xs
  overwrite (suc p) bytes (x ∷ xs) = x ∷ overwrite p bytes xs

  pub length-overwrite : (p : ℕ) (bytes xs : List A) → length (overwrite p bytes xs) ≡ length xs
  unfolding overwrite
  length-overwrite p bytes [] = refl
  length-overwrite zero [] (x ∷ xs) = refl
  length-overwrite zero (b ∷ bytes) (x ∷ xs) = ap suc (length-overwrite zero bytes xs)
  length-overwrite (suc p) bytes (x ∷ xs) = ap suc (length-overwrite p bytes xs)

  -- Two texts are the same from one position to another.
  abbrev pub Agrees : ℕ → ℕ → List A → List A → Type 0
  Agrees lo hi xs ys = (k : ℕ) → lo ≤ k → k < hi → get_elem? xs k ≡ get_elem? ys k

  overwrite_zero_inside :
      (bytes xs ys : List A) (k : ℕ)
      → take (length bytes) ys ≡ bytes
      → length bytes ≤ length xs
      → k < length bytes
      → get_elem? (overwrite 0 bytes xs) k ≡ get_elem? ys k
  unfolding overwrite
  overwrite_zero_inside [] xs ys k e h l = absurd (omega arith)
  overwrite_zero_inside (b ∷ bytes) [] ys k e h l = absurd (omega arith)
  overwrite_zero_inside (b ∷ bytes) (x ∷ xs) [] k e h l = absurd (ground arith)
  overwrite_zero_inside (b ∷ bytes) (x ∷ xs) (y ∷ ys) zero e h l = ground arith
  overwrite_zero_inside (b ∷ bytes) (x ∷ xs) (y ∷ ys) (suc k) e h l =
      overwrite_zero_inside bytes xs ys k (ground arith) (omega arith) (omega arith)

  overwrite_inside :
      (p : ℕ) (bytes xs ys : List A) (k : ℕ)
      → take (length bytes) (drop p ys) ≡ bytes
      → p + length bytes ≤ length xs
      → p ≤ k
      → k < p + length bytes
      → get_elem? (overwrite p bytes xs) k ≡ get_elem? ys k
  unfolding overwrite
  overwrite_inside zero bytes xs ys k e h l u =
      overwrite_zero_inside bytes xs ys k e (omega arith) (omega arith)
  overwrite_inside (suc p) bytes [] ys k e h l u = absurd (omega arith)
  overwrite_inside (suc p) [] (x ∷ xs) [] k e h l u = absurd (omega arith)
  overwrite_inside (suc p) (b ∷ bytes) (x ∷ xs) [] k e h l u = absurd (ground arith)
  overwrite_inside (suc p) bytes (x ∷ xs) (y ∷ ys) zero e h l u = absurd (omega arith)
  overwrite_inside (suc p) bytes (x ∷ xs) (y ∷ ys) (suc k) e h l u =
      overwrite_inside p bytes xs ys k e (omega arith) (omega arith) (omega arith)

  overwrite_outside :
      (p : ℕ) (bytes xs : List A) (k : ℕ)
      → (k < p) ⊎ (p + length bytes ≤ k)
      → get_elem? (overwrite p bytes xs) k ≡ get_elem? xs k
  unfolding overwrite
  overwrite_outside p bytes [] k h = refl
  overwrite_outside zero [] (x ∷ xs) k h = refl
  overwrite_outside zero (b ∷ bytes) (x ∷ xs) zero h = absurd (omega arith)
  overwrite_outside zero (b ∷ bytes) (x ∷ xs) (suc k) h =
      overwrite_outside zero bytes xs k (inr (omega arith))
  overwrite_outside (suc p) bytes (x ∷ xs) zero h = refl
  overwrite_outside (suc p) bytes (x ∷ xs) (suc k) h = overwrite_outside p bytes xs k (ground arith)

  -- A piece of another text written where it belongs: what agreed still does, and so does the piece.
  pub overwrite-Agrees :
      (p : ℕ) (bytes xs ys : List A) (lo hi : ℕ)
      → take (length bytes) (drop p ys) ≡ bytes
      → p + length bytes ≤ length xs
      → Agrees lo hi xs ys
      → Agrees lo hi (overwrite p bytes xs) ys
  overwrite-Agrees p bytes xs ys lo hi e h a k l u = elim (dec_lt k p) [
    | yes before ↦ overwrite_outside p bytes xs k (inl before) ∙ a k l u
    | no late ↦ elim (dec_lt k (p + length bytes)) [
      | yes within ↦ overwrite_inside p bytes xs ys k e h (omega arith) within
      | no behind ↦ overwrite_outside p bytes xs k (inr (omega arith)) ∙ a k l u
    ]
  ]

  -- What agreed up to the position agrees up to the end of the piece.
  pub overwrite-Agrees_piece :
      (p : ℕ) (bytes xs ys : List A) (lo : ℕ)
      → take (length bytes) (drop p ys) ≡ bytes
      → p + length bytes ≤ length xs
      → Agrees lo p xs ys
      → Agrees lo (p + length bytes) (overwrite p bytes xs) ys
  overwrite-Agrees_piece p bytes xs ys lo e h a k l u = elim (dec_lt k p) [
    | yes before ↦ overwrite_outside p bytes xs k (inl before) ∙ a k l before
    | no late ↦ overwrite_inside p bytes xs ys k e h (omega arith) u
  ]

  pub Agrees-≡ : (xs ys : List A) → length xs ≡ length ys → Agrees 0 (length ys) xs ys → xs ≡ ys
  Agrees-≡ [] [] h a = refl
  Agrees-≡ [] (y ∷ ys) h a = absurd (omega arith)
  Agrees-≡ (x ∷ xs) [] h a = absurd (omega arith)
  Agrees-≡ (x ∷ xs) (y ∷ ys) h a =
      let heads : some x ≡ some y = a 0 (omega arith) (omega arith) in
      let same : xs ≡ ys =
        Agrees-≡ xs ys (omega arith) (λ k l u. a (suc k) (omega arith) (omega arith)) in
      ground arith

  -- A piece that is first in a part of a text, and what is behind it.
  pub cut_piece :
      (n : ℕ) (xs piece later : List A)
      → take n xs ≡ piece ++ later
      → (length piece ≤ n)
        × (take (length piece) xs ≡ piece)
        × (take (n - length piece) (drop (length piece) xs) ≡ later)
  cut_piece n xs [] later e = (omega arith, refl, rw sub-zero e)
  cut_piece zero xs (b ∷ piece) later e = absurd (ground arith)
  cut_piece (suc n) [] (b ∷ piece) later e = absurd (ground arith)
  cut_piece (suc n) (x ∷ xs) (b ∷ piece) later e =
      let heads : x ≡ b = ground arith in
      let (short, front, behind) = cut_piece n xs piece later (ground arith) in
      (omega arith, ground arith, rw suc-sub-suc behind)
