-- ===== src/FileTransfer/Partition/Balance.antt =====
-- The streams' loads differ by no more than the largest entry.
use mathlib.Core.List.{Perm}
use hyper_link.Base.{
  ℕ, zero, suc, ◌+◌, ◌^◌, ◌%◌, ◌<◌, ◌≤◌, ◌≡◌, refl, sym, subst, arith, Bool, true, false,
  Bool-cases, inl, inr, List, [], ◌∷◌, All, length, length-replicate, replicate, ltb, and_true, ◌∙◌,
}
use hyper_link.FileTransfer.Send.{DirectoryItem}
use hyper_link.FileTransfer.Partition.Load.{
  load, largest, only_payload, without_payload, load-Perm, largest-Perm, only_payload-Perm,
  payload_bytes-payload, payload_bytes-metadata, only_payload-payload_of, load-payload_of,
  largest-payload_of_le, without_payload-metadata_of, load-append,
}
use hyper_link.FileTransfer.Partition.Coverage.{length-add_at, length-push_front}
use hyper_link.FileTransfer.Partition.{
  DirectoryPartition, empty_partition, has_payload, payload_of, metadata_of, larger_first, least,
  push_item, add_item, add_at, place_all, push_front, partition_directory_items,
}

All-map :
    {A : Type 0} (P Q : A → Type 0) (xs : List A) → ((a : A) → P a → Q a) → All P xs → All Q xs
All-map P Q [] f h = tt
All-map P Q (x ∷ xs) f (h, hs) = (f x h, All-map P Q xs f hs)

All-both :
    {A : Type 0} (P Q R : A → Type 0) (xs : List A)
    → All P xs
    → All Q xs
    → ((a : A) → P a → Q a → R a)
    → All R xs
All-both P Q R [] hp hq f = tt
All-both P Q R (x ∷ xs) (p, hp) (q, hq) f = (f x p q, All-both P Q R xs hp hq f)

-- The two ways in which the least of several is found.
least_fewer :
    (p q : DirectoryPartition) (rest : List DirectoryPartition)
    → ltb (least (q ∷ rest)).1 p.bytes ≡ true
    → least (p ∷ (q ∷ rest)) ≡ (suc (least (q ∷ rest)).0, (least (q ∷ rest)).1)
unfolding least
least_fewer p q rest h = rw (least, h) refl

least_first :
    (p q : DirectoryPartition) (rest : List DirectoryPartition)
    → ltb (least (q ∷ rest)).1 p.bytes ≡ false
    → least (p ∷ (q ∷ rest)) ≡ (0, p.bytes)
unfolding least
least_first p q rest h = rw (least, h) refl

-- A partition that takes an item has the load of both.
abbrev Placed : (ℕ → Type 0) → DirectoryItem → ℕ × ℕ → List DirectoryPartition → Type 0
Placed P item found partitions =
    found.1 + item.payload_size < 2 ^ 64
    → P (found.1 + item.payload_size)
    → All (λ p. P p.bytes) (add_at found.0 item partitions)

first_Placed :
    (P : ℕ → Type 0) (item : DirectoryItem) (p : DirectoryPartition)
    (rest : List DirectoryPartition)
    → All (λ p. P p.bytes) rest
    → Placed P item (0, p.bytes) (p ∷ rest)
unfolding add_at add_item push_item
first_Placed P item p rest hs small new =
    let same : p.bytes + item.payload_size ≡ (p.bytes + item.payload_size) % 2 ^ 64 =
      omega (arith, small) in
    (subst P same new, hs)

later_Placed :
    (P : ℕ → Type 0) (item : DirectoryItem) (p : DirectoryPartition) (found : ℕ × ℕ)
    (rest : List DirectoryPartition)
    → P p.bytes
    → Placed P item found rest
    → Placed P item (suc found.0, found.1) (p ∷ rest)
unfolding add_at
later_Placed P item p found rest h placed small new = (h, placed small new)

add_at-All :
    (P : ℕ → Type 0) (item : DirectoryItem) (partitions : List DirectoryPartition)
    → All (λ p. P p.bytes) partitions
    → Placed P item (least partitions) partitions
unfolding least add_at
add_at-All P item [] h = λ small new. tt
add_at-All P item (p ∷ []) (h, hs) = first_Placed P item p [] tt
add_at-All P item (p ∷ (q ∷ rest)) (h, hs) = elim (Bool-cases (ltb (least (q ∷ rest)).1 p.bytes)) [
  | inl fewer ↦
      subst (λ found. Placed P item found (p ∷ (q ∷ rest))) (sym (least_fewer p q rest fewer))
        (later_Placed P item p (least (q ∷ rest)) (q ∷ rest) h (add_at-All P item (q ∷ rest) hs))
  | inr more ↦
      subst (λ found. Placed P item found (p ∷ (q ∷ rest))) (sym (least_first p q rest more))
        (first_Placed P item p (q ∷ rest) hs)
]

-- What is found is below a bound, as soon as one load is.
abbrev Bounds : ℕ × ℕ → List DirectoryPartition → Type 0
Bounds found partitions = All (λ p. found.1 ≤ p.bytes) partitions

least-Bounds : (partitions : List DirectoryPartition) → Bounds (least partitions) partitions
unfolding least
least-Bounds [] = tt
least-Bounds (p ∷ []) = (omega arith, tt)
least-Bounds (p ∷ (q ∷ rest)) =
    let below = least-Bounds (q ∷ rest) in
    elim (Bool-cases (ltb (least (q ∷ rest)).1 p.bytes)) [
      | inl fewer ↦
          subst (λ found. Bounds found (p ∷ (q ∷ rest))) (sym (least_fewer p q rest fewer))
            (ground (arith, fewer), below)
      | inr more ↦
          subst (λ found. Bounds found (p ∷ (q ∷ rest))) (sym (least_first p q rest more))
            (omega arith, All-map _ _ (q ∷ rest) (λ a k. ground (arith, more, k)) below)
    ]

le-least :
    (low : ℕ) (partitions : List DirectoryPartition)
    → 0 < length partitions
    → All (λ p. low ≤ p.bytes) partitions
    → low ≤ (least partitions).1
unfolding least
le-least low [] pos h = absurd (omega arith)
le-least low (p ∷ []) pos (h, hs) = h
le-least low (p ∷ (q ∷ rest)) pos (h, hs) = elim (Bool-cases (ltb (least (q ∷ rest)).1 p.bytes)) [
  | inl fewer ↦
      subst (λ found. low ≤ found.1) (sym (least_fewer p q rest fewer))
        (le-least low (q ∷ rest) (omega arith) hs)
  | inr more ↦ subst (λ found. low ≤ found.1) (sym (least_first p q rest more)) h
]

-- Loads that differ by at most the largest item do so when one more is placed.
abbrev Even : ℕ → List DirectoryPartition → Type 0
Even most partitions = All (λ p. p.bytes ≤ (least partitions).1 + most) partitions

place-Even :
    (most : ℕ) (item : DirectoryItem) (partitions : List DirectoryPartition)
    → 0 < length partitions
    → item.payload_size ≤ most
    → (least partitions).1 + item.payload_size < 2 ^ 64
    → Even most partitions
    → Even most (add_at (least partitions).0 item partitions)
place-Even most item partitions pos few small even =
    let low = (least partitions).1 in
    let after = add_at (least partitions).0 item partitions in
    let above : All (λ p. p.bytes ≤ low + most) after =
      add_at-All (λ n. n ≤ low + most) item partitions even small (omega (arith, few)) in
    let below : All (λ p. low ≤ p.bytes) after =
      add_at-All (λ n. low ≤ n) item partitions (least-Bounds partitions) small (omega arith) in
    let rises : low ≤ (least after).1 =
      le-least low after (omega (arith, pos, length-add_at (least partitions).0 item partitions))
        below in
    All-map _ _ after (λ p h. omega (arith, h, rises)) above

least_le_each :
    (most : ℕ) (partitions : List DirectoryPartition)
    → 0 < length partitions
    → All (λ p. p.bytes ≤ most) partitions
    → (least partitions).1 ≤ most
least_le_each most [] pos h = absurd (omega arith)
least_le_each most (p ∷ rest) pos (h, hs) = omega (arith, h, (least-Bounds (p ∷ rest)).0)

-- The counted bytes are the bytes of the items.
abbrev Counted : DirectoryPartition → Type 0
Counted p = p.bytes ≡ load p.items

add_at-Counted :
    (placed index : ℕ) (item : DirectoryItem) (partitions : List DirectoryPartition)
    → has_payload item ≡ true
    → placed + item.payload_size < 2 ^ 64
    → All (λ p. p.bytes ≤ placed) partitions
    → All Counted partitions
    → All Counted (add_at index item partitions)
unfolding add_at add_item push_item
add_at-Counted placed index item [] payload fits loads h = tt
add_at-Counted placed zero item (p ∷ rest) payload fits (few, fews) (h, hs) =
    let bytes = payload_bytes-payload item payload in
    let longer = load-append p.items item in (omega (arith, bytes, longer, h, few, fits), hs)
add_at-Counted placed (suc index) item (p ∷ rest) payload fits (few, fews) (h, hs) =
    (h, add_at-Counted placed index item rest payload fits fews hs)

-- No load exceeds what was placed so far, so that nothing wraps around.
place_all-Even :
    (most placed : ℕ) (items : List DirectoryItem) (partitions : List DirectoryPartition)
    → 0 < length partitions
    → only_payload items ≡ true
    → largest items ≤ most
    → placed + load items < 2 ^ 64
    → All (λ p. p.bytes ≤ placed) partitions
    → Even most partitions
    → All Counted partitions
    → Even most (place_all items partitions) × All Counted (place_all items partitions)
unfolding place_all
place_all-Even most placed [] partitions pos payloads few small loads even counted = (even, counted)
place_all-Even most placed (item ∷ items) partitions pos payloads few small loads even counted =
    let (payload, others) = (and_true _ _).0 payloads in
    let bytes = payload_bytes-payload item payload in
    let room : placed + item.payload_size < 2 ^ 64 = omega (arith, bytes, small) in
    let fits : (least partitions).1 + item.payload_size < 2 ^ 64 =
      omega (arith, least_le_each placed partitions pos loads, room) in
    place_all-Even most (placed + item.payload_size) items
      (add_at (least partitions).0 item partitions)
      (omega (arith, pos, length-add_at (least partitions).0 item partitions)) others
      (omega (arith, few)) (omega (arith, bytes, small))
      (add_at-All (λ n. n ≤ placed + item.payload_size) item partitions
        (All-map _ _ partitions (λ p h. omega (arith, h)) loads) fits
        (omega (arith, least_le_each placed partitions pos loads)))
      (place-Even most item partitions pos (omega (arith, bytes, few)) fits even)
      (add_at-Counted placed (least partitions).0 item partitions payload room loads counted)

push_front-idle :
    (metadata : List DirectoryItem) (partitions : List DirectoryPartition)
    → All (λ p. p.bytes ≤ 0) partitions
    → All (λ p. p.bytes ≤ 0) (push_front metadata partitions)
unfolding push_front push_item
push_front-idle metadata [] h = tt
push_front-idle [] (p ∷ rest) h = h
push_front-idle (item ∷ metadata) (p ∷ rest) h =
    push_front-idle metadata (push_item item p ∷ rest) h

push_front-Counted :
    (metadata : List DirectoryItem) (partitions : List DirectoryPartition)
    → without_payload metadata ≡ true
    → All Counted partitions
    → All Counted (push_front metadata partitions)
unfolding push_front push_item
push_front-Counted metadata [] w h = tt
push_front-Counted [] (p ∷ rest) w h = h
push_front-Counted (item ∷ metadata) (p ∷ rest) w (h, hs) =
    let (first, others) = (and_true _ _).0 w in
    let none_there = payload_bytes-metadata item first in
    let longer = load-append p.items item in
    push_front-Counted metadata (push_item item p ∷ rest) others
      (omega (arith, none_there, longer, h), hs)

replicate-idle :
    (n : ℕ)
    → All (λ p. p.bytes ≤ 0) (replicate n empty_partition)
      × All Counted (replicate n empty_partition)
replicate-idle zero = (tt, tt)
replicate-idle (suc n) =
    let (idle, counted) = replicate-idle n in ((omega arith, idle), (refl, counted))

-- The payload of any partition exceeds that of any other by no more than `most`.
abbrev pub AreBalanced : ℕ → List DirectoryPartition → Type 0
AreBalanced most partitions =
    All (λ p. All (λ q. load p.items ≤ load q.items + most) partitions) partitions

Even-AreBalanced :
    (most : ℕ) (partitions : List DirectoryPartition)
    → Even most partitions
    → All Counted partitions
    → AreBalanced most partitions
Even-AreBalanced most partitions even counted =
    let low =
      All-both _ _ _ partitions counted (least-Bounds partitions)
        (λ q e below. subst (λ n. (least partitions).1 ≤ n) e below) in
    All-both _ _ _ partitions counted even
      (λ p e h. All-map _ _ partitions (λ q below. omega (arith, e, h, below)) low)

-- For at least one stream, a sort that only changes the order, and fewer than 2 ^ 64 bytes in the files
-- and symbolic links of the directory: the bytes in those that one stream gets exceed the bytes in those
-- that another gets by no more than the largest of them all.
pub partition_directory_items-AreBalanced :
    (sort : (DirectoryItem → DirectoryItem → Bool) → List DirectoryItem → List DirectoryItem)
    (items : List DirectoryItem) (parallel : ℕ)
    → ((xs : List DirectoryItem) → Perm (sort larger_first xs) xs)
    → 0 < parallel
    → load items < 2 ^ 64
    → AreBalanced (largest items) (partition_directory_items sort items parallel)
unfolding partition_directory_items
partition_directory_items-AreBalanced sort items parallel permutes pos small =
    let empty = replicate parallel empty_partition in
    let front = push_front (metadata_of items) empty in
    let (none_yet, counted) = replicate-idle parallel in
    let idle = push_front-idle (metadata_of items) empty none_yet in
    let same = permutes (payload_of items) in
    let (even, bytes) =
      place_all-Even (largest items) 0 (sort larger_first (payload_of items)) front
        (omega (
          arith,
          pos,
          length-push_front (metadata_of items) empty,
          length-replicate parallel empty_partition,
        ))
        (only_payload-Perm same ∙ only_payload-payload_of items)
        (omega (arith, largest-Perm same, largest-payload_of_le items))
        (omega (arith, load-Perm same, load-payload_of items, small)) idle
        (All-map _ _ front (λ p h. omega (arith, h)) idle)
        (push_front-Counted (metadata_of items) empty (without_payload-metadata_of items)
          counted) in
    Even-AreBalanced (largest items) _ even bytes
