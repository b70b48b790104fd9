-- ===== src/Base/Distinct.antt =====
-- `std::ranges::sort` and `std::unique`, one after the other: the elements of a list in order, each once.
use mathlib.Core.Path.{◌≡◌, sym, subst, ◌∙◌}
use mathlib.Core.Logic.{inl, inr, ◌↔◌}
use mathlib.Core.Bool.{Bool, true, false}
use mathlib.Core.List.{List, [], ◌∷◌}
use mathlib.Core.List.{Memᴰ}
use native.Mathlib.Omega.{arith}
use hyper_link.Base.Tests.{if◌then◌else◌, Bool-cases}
use hyper_link.Base.Lists.{All}
use hyper_link.Base.Order.{IsStrict}
use hyper_link.Base.Sort.{insert_sorted, sort, insert_sorted-All}

module _ {A : Type 0} (eq : A → A → Bool) where
  -- The elements behind `x` that do not equal the last one that was kept.
  unfoldable pub unique_after : A → List A → List A
  unique_after x [] = []
  unique_after x (y ∷ ys) = if eq x y then unique_after x ys else y ∷ unique_after y ys

  -- `unique` and `erase`.
  unfoldable pub unique : List A → List A
  unique [] = []
  unique (x ∷ xs) = x ∷ unique_after x xs

module _ {A : Type 0} (lt : A → A → Bool) where
  -- Each element comes before all behind it.
  abbrev pub Ascending : List A → Type 0
  Ascending [] = Unit
  Ascending (x ∷ xs) = All (λ y. lt x y ≡ true) xs × Ascending xs

  -- No element comes after one behind it.
  abbrev Ordered : List A → Type 0
  Ordered [] = Unit
  Ordered (x ∷ xs) = All (λ y. lt y x ≡ false) xs × Ordered xs

module _ {A : Type 0} {eq lt : A → A → Bool} (order : IsStrict eq lt) where
  at_most_trans : (x y z : A) → lt y x ≡ false → lt z y ≡ false → lt z x ≡ false
  at_most_trans x y z h k = elim (Bool-cases (lt z x)) [
    | inr fine ↦ fine
    | inl back ↦ elim (Bool-cases (lt x y)) [
      | inl up ↦ absurd (ground (arith, order.trans z x y back up))
      | inr level ↦
          absurd (ground (arith, subst (λ u. lt z u ≡ true) (order.total x y level h) back))
    ]
  ]

  asymmetric : (x y : A) → lt x y ≡ true → lt y x ≡ false
  asymmetric x y h = elim (Bool-cases (lt y x)) [
    | inr fine ↦ fine
    | inl back ↦ absurd (ground (arith, order.trans x y x h back, order.irrefl x))
  ]

  lower :
      (x y : A) (zs : List A)
      → lt y x ≡ false
      → All (λ z. lt z y ≡ false) zs
      → All (λ z. lt z x ≡ false) zs
  lower x y [] h all = tt
  lower x y (z ∷ zs) h (k, all) = (at_most_trans x y z h k, lower x y zs h all)

  insert_sorted-Ordered : (x : A) (ys : List A) → Ordered lt ys → Ordered lt (insert_sorted lt x ys)
  unfolding insert_sorted
  insert_sorted-Ordered x [] h = (tt, tt)
  insert_sorted-Ordered x (y ∷ ys) (all, h) = elim (Bool-cases (lt x y)) [
    | inl first ↦
        let below = asymmetric x y first in rw first ((below, lower x y ys below all), (all, h))
    | inr later ↦
        rw later
          (insert_sorted-All lt (λ z. lt z y ≡ false) x ys later all, insert_sorted-Ordered x ys h)
  ]

  sort-Ordered : (xs : List A) → Ordered lt (sort lt xs)
  unfolding sort
  sort-Ordered [] = tt
  sort-Ordered (x ∷ xs) = insert_sorted-Ordered x (sort lt xs) (sort-Ordered xs)

  apart : (x y : A) → lt y x ≡ false → eq x y ≡ false → lt x y ≡ true
  apart x y h k = elim (Bool-cases (lt x y)) [
    | inl up ↦ up
    | inr level ↦ absurd (ground (arith, k, (order.eq_iff x y).1 (order.total x y level h)))
  ]

  raise :
      (x y : A) (zs : List A)
      → lt x y ≡ true
      → All (λ z. lt y z ≡ true) zs
      → All (λ z. lt x z ≡ true) zs
  raise x y [] h all = tt
  raise x y (z ∷ zs) h (k, all) = (order.trans x y z h k, raise x y zs h all)

  -- What is kept behind `x` comes after it.
  unique_after-Ascending :
      (x : A) (ys : List A)
      → All (λ y. lt y x ≡ false) ys
      → Ordered lt ys
      → All (λ y. lt x y ≡ true) (unique_after eq x ys) × Ascending lt (unique_after eq x ys)
  unfolding unique_after
  unique_after-Ascending x [] all h = (tt, tt)
  unique_after-Ascending x (y ∷ ys) (k, all) (above, h) = elim (Bool-cases (eq x y)) [
    | inl same ↦ rw same (unique_after-Ascending x ys all h)
    | inr other ↦
        let (later, rest) = unique_after-Ascending y ys above h in
        let up = apart x y k other in
        rw other ((up, raise x y (unique_after eq y ys) up later), (later, rest))
  ]

  pub unique-sort-Ascending : (xs : List A) → Ascending lt (unique eq (sort lt xs))
  unfolding unique
  unique-sort-Ascending xs = kept (sort lt xs) (sort-Ordered xs)
    where
      kept : (ys : List A) → Ordered lt ys → Ascending lt (unique eq ys)
      kept [] h = tt
      kept (y ∷ ys) (all, h) = unique_after-Ascending y ys all h

  -- The same elements, first through the sort.
  swap :
      {a x y : A} {ys zs : List A}
      → (Memᴰ a (x ∷ ys) → Memᴰ a zs)
      → Memᴰ a (x ∷ y ∷ ys)
      → Memᴰ a (y ∷ zs)
  swap f (Memᴰ.head e) = Memᴰ.tail (f (Memᴰ.head e))
  swap f (Memᴰ.tail (Memᴰ.head e)) = Memᴰ.head e
  swap f (Memᴰ.tail (Memᴰ.tail n)) = Memᴰ.tail (f (Memᴰ.tail n))

  swap_back :
      {a x y : A} {ys zs : List A}
      → (Memᴰ a zs → Memᴰ a (x ∷ ys))
      → Memᴰ a (y ∷ zs)
      → Memᴰ a (x ∷ y ∷ ys)
  swap_back {a} {x} {y} {ys} f (Memᴰ.head e) = Memᴰ.tail (Memᴰ.head e)
  swap_back {a} {x} {y} {ys} f (Memᴰ.tail m) = push (f m)
    where
      push : Memᴰ a (x ∷ ys) → Memᴰ a (x ∷ y ∷ ys)
      push (Memᴰ.head e) = Memᴰ.head e
      push (Memᴰ.tail n) = Memᴰ.tail (Memᴰ.tail n)

  insert_sorted-mem : (a x : A) (ys : List A) → Memᴰ a (x ∷ ys) ↔ Memᴰ a (insert_sorted lt x ys)
  unfolding insert_sorted
  insert_sorted-mem a x [] = (λ m. m, λ m. m)
  insert_sorted-mem a x (y ∷ ys) = elim (Bool-cases (lt x y)) [
    | inl first ↦ rw first (λ m. m, λ m. m)
    | inr later ↦
        let (into, back) = insert_sorted-mem a x ys in
        rw later (λ m. swap into m, λ m. swap_back back m)
  ]

  under : {a x : A} {ys zs : List A} → (Memᴰ a ys → Memᴰ a zs) → Memᴰ a (x ∷ ys) → Memᴰ a (x ∷ zs)
  under f (Memᴰ.head e) = Memᴰ.head e
  under f (Memᴰ.tail m) = Memᴰ.tail (f m)

  sort-mem : (a : A) (xs : List A) → Memᴰ a xs ↔ Memᴰ a (sort lt xs)
  unfolding sort
  sort-mem a [] = (λ m. m, λ m. m)
  sort-mem a (x ∷ xs) =
      let (into, back) = sort-mem a xs in
      let (into', back') = insert_sorted-mem a x (sort lt xs) in
      (λ m. into' (under into m), λ m. under back (back' m))

  skip :
      {a x y : A} {ys zs : List A}
      → x ≡ y
      → (Memᴰ a (x ∷ ys) → Memᴰ a zs)
      → Memᴰ a (x ∷ y ∷ ys)
      → Memᴰ a zs
  skip same f (Memᴰ.head e) = f (Memᴰ.head e)
  skip same f (Memᴰ.tail (Memᴰ.head e)) = f (Memᴰ.head (e ∙ sym same))
  skip same f (Memᴰ.tail (Memᴰ.tail m)) = f (Memᴰ.tail m)

  unique_after-mem : (a x : A) (ys : List A) → Memᴰ a (x ∷ ys) ↔ Memᴰ a (x ∷ unique_after eq x ys)
  unfolding unique_after
  unique_after-mem a x [] = (λ m. m, λ m. m)
  unique_after-mem a x (y ∷ ys) = elim (Bool-cases (eq x y)) [
    | inl same ↦
        let (into, back) = unique_after-mem a x ys in
        rw same (skip ((order.eq_iff x y).0 same) into, λ m. widen (back m))
    | inr other ↦ let (into, back) = unique_after-mem a y ys in rw other (under into, under back)
  ]
    where
      widen : Memᴰ a (x ∷ ys) → Memᴰ a (x ∷ y ∷ ys)
      widen (Memᴰ.head e) = Memᴰ.head e
      widen (Memᴰ.tail m) = Memᴰ.tail (Memᴰ.tail m)

  pub unique-sort-mem : (a : A) (xs : List A) → Memᴰ a xs ↔ Memᴰ a (unique eq (sort lt xs))
  unfolding unique
  unique-sort-mem a xs =
      let (into, back) = sort-mem a xs in
      let (into', back') = kept (sort lt xs) in (λ m. into' (into m), λ m. back (back' m))
    where
      kept : (ys : List A) → Memᴰ a ys ↔ Memᴰ a (unique eq ys)
      kept [] = (λ m. m, λ m. m)
      kept (y ∷ ys) = unique_after-mem a y ys
