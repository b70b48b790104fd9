-- ===== src/FileTransfer/Partition/Coverage.antt =====
-- Every entry of a directory goes to one stream, once.
use mathlib.Core.List.{Perm, perm_middle}
use mathlib.Core.List.Perm
use hyper_link.Base.{
  ℕ, zero, suc, ◌<◌, ◌≡◌, refl, sym, ap, subst, ◌∙◌, arith, Bool, Bool-cases, inl, inr, List, [],
  ◌∷◌, ◌++◌, append_assoc, append-nil, length, length-replicate, replicate, ltb,
}
use hyper_link.FileTransfer.Send.{DirectoryItem}
use hyper_link.FileTransfer.Partition.{
  DirectoryPartition, empty_partition, has_payload, payload_of, metadata_of, larger_first, least,
  push_item, add_item, add_at, place_all, push_front, partition_directory_items,
}

-- All items of all partitions.
unfoldable pub items_of : List DirectoryPartition → List DirectoryItem
items_of [] = []
items_of (partition ∷ rest) = partition.items ++ items_of rest

add_at-items_of :
    (index : ℕ) (item : DirectoryItem) (partitions : List DirectoryPartition)
    → index < length partitions
    → Perm (items_of (add_at index item partitions)) (item ∷ items_of partitions)
unfolding items_of add_at add_item push_item
add_at-items_of index item [] h = absurd (omega arith)
add_at-items_of zero item (p ∷ rest) h =
    subst (λ xs. Perm xs (item ∷ (p.items ++ items_of rest)))
      (sym (append_assoc p.items (item ∷ []) (items_of rest))) (perm_middle p.items (items_of rest))
add_at-items_of (suc index) item (p ∷ rest) h =
    Perm.trans (Perm.append_left p.items (add_at-items_of index item rest (omega arith)))
      (perm_middle p.items (items_of rest))

pub length-add_at :
    (index : ℕ) (item : DirectoryItem) (partitions : List DirectoryPartition)
    → length (add_at index item partitions) ≡ length partitions
unfolding add_at
length-add_at index item [] = refl
length-add_at zero item (p ∷ rest) = refl
length-add_at (suc index) item (p ∷ rest) = ap suc (length-add_at index item rest)

least_lt_length :
    (partitions : List DirectoryPartition)
    → 0 < length partitions
    → (least partitions).0 < length partitions
unfolding least
least_lt_length [] h = absurd (omega arith)
least_lt_length (p ∷ []) h = omega arith
least_lt_length (p ∷ (q ∷ rest)) h =
    let below = least_lt_length (q ∷ rest) (omega arith) in
    elim (Bool-cases (ltb (least (q ∷ rest)).1 p.bytes)) [
      | inl fewer ↦ rw (least, fewer) (omega (arith, below))
      | inr more ↦ rw (least, more) (omega arith)
    ]

place_all-items_of :
    (items : List DirectoryItem) (partitions : List DirectoryPartition)
    → 0 < length partitions
    → Perm (items_of (place_all items partitions)) (items ++ items_of partitions)
unfolding place_all
place_all-items_of [] partitions h = Perm.refl (items_of partitions)
place_all-items_of (item ∷ items) partitions h =
    let index = (least partitions).0 in
    let placed = add_at-items_of index item partitions (least_lt_length partitions h) in
    let later =
      place_all-items_of items (add_at index item partitions)
        (omega (arith, h, length-add_at index item partitions)) in
    Perm.trans later
      (Perm.trans (Perm.append_left items placed) (perm_middle items (items_of partitions)))

push_front-items_of :
    (metadata : List DirectoryItem) (partitions : List DirectoryPartition)
    → 0 < length partitions
    → Perm (items_of (push_front metadata partitions)) (metadata ++ items_of partitions)
unfolding push_front items_of push_item
push_front-items_of metadata [] h = absurd (omega arith)
push_front-items_of [] (p ∷ rest) h = Perm.refl (p.items ++ items_of rest)
push_front-items_of (item ∷ metadata) (p ∷ rest) h =
    let pushed : Perm (items_of (push_item item p ∷ rest)) (item ∷ (p.items ++ items_of rest)) =
      subst (λ xs. Perm xs (item ∷ (p.items ++ items_of rest)))
        (sym (append_assoc p.items (item ∷ []) (items_of rest)))
        (perm_middle p.items (items_of rest)) in
    Perm.trans (push_front-items_of metadata (push_item item p ∷ rest) (omega arith)) (
      Perm.trans (Perm.append_left metadata pushed)
        (perm_middle metadata (p.items ++ items_of rest)))

replicate-items_of : (n : ℕ) → items_of (replicate n empty_partition) ≡ []
unfolding items_of
replicate-items_of zero = refl
replicate-items_of (suc n) = replicate-items_of n

payload_of-metadata_of :
    (items : List DirectoryItem) → Perm (payload_of items ++ metadata_of items) items
unfolding payload_of metadata_of
payload_of-metadata_of [] = Perm.refl []
payload_of-metadata_of (item ∷ items) = elim (Bool-cases (has_payload item)) [
  | inl yes_payload ↦
      rw (payload_of, metadata_of, yes_payload) (Perm.cons item (payload_of-metadata_of items))
  | inr none_there ↦
      rw (payload_of, metadata_of, none_there)
        (Perm.trans (perm_middle (payload_of items) (metadata_of items))
          (Perm.cons item (payload_of-metadata_of items)))
]

pub length-push_front :
    (metadata : List DirectoryItem) (partitions : List DirectoryPartition)
    → length (push_front metadata partitions) ≡ length partitions
unfolding push_front
length-push_front metadata [] = refl
length-push_front [] (p ∷ rest) = refl
length-push_front (item ∷ metadata) (p ∷ rest) =
    length-push_front metadata (push_item item p ∷ rest)

-- For at least one stream, and a sort that only changes the order: the items of all partitions together
-- are the items of the directory, each as often as it was there.
pub partition_directory_items-Perm :
    (sort : (DirectoryItem → DirectoryItem → Bool) → List DirectoryItem → List DirectoryItem)
    (items : List DirectoryItem) (parallel : ℕ)
    → ((xs : List DirectoryItem) → Perm (sort larger_first xs) xs)
    → 0 < parallel
    → Perm (items_of (partition_directory_items sort items parallel)) items
unfolding partition_directory_items
partition_directory_items-Perm sort items parallel permutes h =
    let empty = replicate parallel empty_partition in
    let front = push_front (metadata_of items) empty in
    let long : 0 < length empty = omega (arith, length-replicate parallel empty_partition, h) in
    let placed =
      place_all-items_of (sort larger_first (payload_of items)) front
        (omega (arith, length-push_front (metadata_of items) empty, long)) in
    let pushed : Perm (items_of front) (metadata_of items) =
      subst (λ xs. Perm (items_of front) xs)
        (ap (◌++◌ (metadata_of items)) (replicate-items_of parallel)
          ∙ append-nil (metadata_of items))
        (push_front-items_of (metadata_of items) empty long) in
    Perm.trans placed
      (Perm.trans (Perm.append (permutes (payload_of items)) pushed) (payload_of-metadata_of items))
