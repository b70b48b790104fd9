-- ===== src/Base/Sort.antt =====
-- `std::ranges::sort` by a comparison, of which the callers use the front: any element that no other
-- comes before.
use mathlib.Core.Path.{◌≡◌, refl, ap, ◌∙◌, sym, subst}
use mathlib.Core.Logic.{◌⊎◌, inl, inr}
use mathlib.Core.Bool.{Bool, true, false}
use mathlib.Core.Option.{Option, none, some}
use mathlib.Core.List.{List, [], ◌∷◌, ◌++◌}
use native.Mathlib.Omega.{arith}
use hyper_link.Base.Tests.{if◌then◌else◌, Bool-cases}
use hyper_link.Base.Lists.{All}
use hyper_link.Base.Order.{IsStrict}

module _ {A : Type 0} where
  -- The element stands somewhere in the list.
  abbrev pub Occurs : A → List A → Type 0
  Occurs a xs = (left : List A) × (right : List A) × (xs ≡ left ++ a ∷ right)

  pub Occurs-cons : (x a : A) (xs : List A) → Occurs a xs → Occurs a (x ∷ xs)
  Occurs-cons x a xs (p, q, e) = (x ∷ p, q, ap (◌∷◌ x) e)

  abbrev pub front : List A → Option A
  front [] = none
  front (x ∷ rest) = some x

module _ {A : Type 0} (before : A → A → Bool) where
  unfoldable pub insert_sorted : A → List A → List A
  insert_sorted x [] = x ∷ []
  insert_sorted x (y ∷ ys) =
      let later = y ∷ insert_sorted x ys in if before x y then x ∷ (y ∷ ys) else later

  unfoldable pub sort : List A → List A
  sort [] = []
  sort (x ∷ xs) = insert_sorted x (sort xs)

  -- `candidates.front()` after the sort.
  unfoldable pub sorted_front : List A → Option A
  unfolding sort
  sorted_front xs = front (sort xs)

  pub insert_sorted-All :
      (P : A → Type 0) (x : A) (ys : List A) → P x → All P ys → All P (insert_sorted x ys)
  unfolding insert_sorted
  insert_sorted-All P x [] p all = (p, tt)
  insert_sorted-All P x (y ∷ ys) p (q, all) = elim (Bool-cases (before x y)) [
    | inl first ↦ rw first (p, (q, all))
    | inr later ↦ rw later (q, insert_sorted-All P x ys p all)
  ]

  -- What holds of all elements holds of the front of the sorted list.
  pub sorted_front-All :
      (P : A → Type 0) (xs : List A) (a : A) → All P xs → sorted_front xs ≡ some a → P a
  unfolding sorted_front sort
  sorted_front-All P xs a all e = first (sort xs) (sort-All xs all) e
    where
      first : (ys : List A) → All P ys → front ys ≡ some a → P a
      first [] h e = absurd (ground arith)
      first (y ∷ ys) (h, rest) e = subst P (ground arith) h

      sort-All : (ys : List A) → All P ys → All P (sort ys)
      sort-All [] h = tt
      sort-All (y ∷ ys) (h, rest) = insert_sorted-All P y (sort ys) h (sort-All ys rest)

-- A comparison that is a strict order of keys, on the elements that have one.
module _ {A K : Type 0} (before : A → A → Bool) (eq lt : K → K → Bool) (order : IsStrict eq lt)
    (key : A → K) where
  abbrev pub Follows : A → A → Type 0
  Follows b a = lt (key b) (key a) ≡ false

  Follows-trans : (a b c : A) → Follows b a → Follows c b → Follows c a
  Follows-trans a b c h k = elim (Bool-cases (lt (key c) (key a))) [
    | inr no_less ↦ no_less
    | inl less ↦ elim (Bool-cases (lt (key a) (key b))) [
      | inl up ↦ absurd (ground (arith, order.trans (key c) (key a) (key b)))
      | inr level ↦ let same = order.total (key a) (key b) level h in absurd (ground (arith))
    ]
  ]

  -- The comparison is that of the keys, between the elements of the list.
  abbrev pub Agrees : (A → Type 0) → Type 0
  Agrees P = (a b : A) → P a → P b → before a b ≡ lt (key a) (key b)

  module _ (P : A → Type 0) (agrees : Agrees P) where
    -- What is known of a sorted list: it is empty with its source, or its front comes from the source
    -- and nothing in the source comes before it.
    data Sorted (xs : List A) : List A → Type 0 where
      none_left : xs ≡ [] → Sorted xs []
      least :
          (a : A) (rest : List A)
          → Occurs a xs
          → P a
          → All (λ c. Follows c a) xs
          → Sorted xs (a ∷ rest)

    Follows-All :
        (a b : A) (xs : List A)
        → Follows b a
        → All (λ c. Follows c b) xs
        → All (λ c. Follows c a) xs
    Follows-All a b [] h all = tt
    Follows-All a b (x ∷ xs) h (k, all) = (Follows-trans a b x h k, Follows-All a b xs h all)

    insert_sorted-Sorted :
        (x : A) (xs : List A) {ys : List A}
        → P x
        → Sorted xs ys
        → Sorted (x ∷ xs) (insert_sorted before x ys)
    unfolding insert_sorted
    insert_sorted-Sorted x xs px (none_left e) =
        least x [] ([], xs, refl) px
          (order.irrefl (key x), subst (All (λ c. Follows c x)) (sym e) tt)
    insert_sorted-Sorted x xs px (least a rest occurs pa all) = elim (Bool-cases (before x a)) [
      | inl first ↦
          let below = agrees x a px pa ∙ refl in
          rw first (
            least x (a ∷ rest) ([], xs, refl) px
              (order.irrefl (key x), Follows-All x a xs (after x a (sym below ∙ first)) all))
      | inr later ↦ rw later (
          least a (insert_sorted before x rest) (Occurs-cons x a xs occurs) pa
            (sym (agrees x a px pa) ∙ later, all))
    ]
      where
        after : (b c : A) → lt (key b) (key c) ≡ true → Follows c b
        after b c h = elim (Bool-cases (lt (key c) (key b))) [
          | inr fine ↦ fine
          | inl back ↦
              absurd (ground (arith, order.trans (key b) (key c) (key b), order.irrefl (key b)))
        ]

    sort-Sorted : (xs : List A) → All P xs → Sorted xs (sort before xs)
    unfolding sort
    sort-Sorted [] _ = none_left refl
    sort-Sorted (x ∷ xs) (px, pxs) = insert_sorted-Sorted x xs px (sort-Sorted xs pxs)

    -- The front of the sorted list.
    pub sorted_front-least :
        (xs : List A)
        → All P xs
        → ((xs ≡ []) × (sorted_front before xs ≡ none))
          ⊎ ((a : A) × (sorted_front before xs ≡ some a) × Occurs a xs × All (λ c. Follows c a) xs)
    unfolding sorted_front
    sorted_front-least xs h = of_Sorted (sort-Sorted xs h)
      where
        of_Sorted :
            {ys : List A}
            → Sorted xs ys
            → ((xs ≡ []) × (front ys ≡ none))
              ⊎ ((a : A) × (front ys ≡ some a) × Occurs a xs × All (λ c. Follows c a) xs)
        of_Sorted (none_left e) = inl (e, refl)
        of_Sorted (least a rest occurs pa all) = inr (a, refl, occurs, all)
