-- ===== src/FileTransfer/Partition/Load.antt =====
-- The bytes of the entries of a directory: those of its files and symbolic links.
use mathlib.Core.List.{Perm, foldr}
use mathlib.Core.List.Perm
use native.Mathlib.Nat.{ℕ_set}
use mathlib.Core.Bool.{Bool-set}
use hyper_link.Base.{
  ℕ, ◌+◌, ◌≤◌, ◌≡◌, refl, arith, Bool, true, false, ◌&&◌, not, max, List, [], ◌∷◌, ◌++◌,
}
use hyper_link.FileTransfer.{
  TransferKind, file, directory_tar, file_part, directory_entry, directory_file, directory_symlink,
}
use hyper_link.FileTransfer.Send.{DirectoryItem}
use hyper_link.FileTransfer.Partition.{has_payload, payload_of, metadata_of}

-- What a stream sends behind the header of an entry.
unfoldable pub bytes_of_kind : TransferKind → ℕ → ℕ
bytes_of_kind directory_file size = size
bytes_of_kind directory_symlink size = size
bytes_of_kind file size = 0
bytes_of_kind directory_tar size = 0
bytes_of_kind file_part size = 0
bytes_of_kind directory_entry size = 0

abbrev pub payload_bytes : DirectoryItem → ℕ
payload_bytes item = bytes_of_kind item.kind item.payload_size

-- Their sum and their maximum.
abbrev pub load : List DirectoryItem → ℕ
load = foldr (λ item rest. payload_bytes item + rest) 0

abbrev pub largest : List DirectoryItem → ℕ
largest = foldr (λ item rest. max (payload_bytes item) rest) 0

-- All of them have a payload, or none has.
abbrev pub only_payload : List DirectoryItem → Bool
only_payload = foldr (λ item rest. has_payload item && rest) true

abbrev pub without_payload : List DirectoryItem → Bool
without_payload = foldr (λ item rest. not (has_payload item) && rest) true

pub load-Perm : {xs ys : List DirectoryItem} → Perm xs ys → load xs ≡ load ys
load-Perm p =
    Perm.foldr-eq ℕ_set (λ item rest. payload_bytes item + rest) (λ a b n. omega arith) p 0

pub largest-Perm : {xs ys : List DirectoryItem} → Perm xs ys → largest xs ≡ largest ys
largest-Perm p =
    Perm.foldr-eq ℕ_set (λ item rest. max (payload_bytes item) rest) (λ a b n. omega arith) p 0

pub only_payload-Perm :
    {xs ys : List DirectoryItem} → Perm xs ys → only_payload xs ≡ only_payload ys
only_payload-Perm p =
    Perm.foldr-eq Bool-set (λ item rest. has_payload item && rest) (λ a b rest. ground arith) p true

kinds :
    (kind : TransferKind) (item : DirectoryItem)
    → item.kind ≡ kind
    → (has_payload item ≡ true → payload_bytes item ≡ item.payload_size)
      × (has_payload item ≡ false → payload_bytes item ≡ 0)
unfolding has_payload bytes_of_kind
kinds file item e = rw e (ground arith)
kinds directory_tar item e = rw e (ground arith)
kinds file_part item e = rw e (ground arith)
kinds directory_entry item e = rw e (ground arith)
kinds directory_file item e = rw e (ground arith)
kinds directory_symlink item e = rw e (ground arith)

pub payload_bytes-payload :
    (item : DirectoryItem) → has_payload item ≡ true → payload_bytes item ≡ item.payload_size
payload_bytes-payload item h = (kinds item.kind item refl).0 h

pub payload_bytes-metadata :
    (item : DirectoryItem) → not (has_payload item) ≡ true → payload_bytes item ≡ 0
payload_bytes-metadata item h = (kinds item.kind item refl).1 (ground arith)

pub load-append :
    (xs : List DirectoryItem) (item : DirectoryItem)
    → load (xs ++ item ∷ []) ≡ load xs + payload_bytes item
load-append [] item = omega arith
load-append (x ∷ xs) item = omega (arith, load-append xs item)

pub only_payload-payload_of : (items : List DirectoryItem) → only_payload (payload_of items) ≡ true
unfolding payload_of
only_payload-payload_of [] = refl
only_payload-payload_of (item ∷ items) = ground (arith, only_payload-payload_of items)

pub without_payload-metadata_of :
    (items : List DirectoryItem) → without_payload (metadata_of items) ≡ true
unfolding metadata_of
without_payload-metadata_of [] = refl
without_payload-metadata_of (item ∷ items) = ground (arith, without_payload-metadata_of items)

pub load-payload_of : (items : List DirectoryItem) → load (payload_of items) ≡ load items
unfolding payload_of
load-payload_of [] = refl
load-payload_of (item ∷ items) =
    ground (arith, (kinds item.kind item refl).1, load-payload_of items)

pub largest-payload_of_le :
    (items : List DirectoryItem) → largest (payload_of items) ≤ largest items
unfolding payload_of
largest-payload_of_le [] = omega arith
largest-payload_of_le (item ∷ items) = ground (arith, largest-payload_of_le items)
