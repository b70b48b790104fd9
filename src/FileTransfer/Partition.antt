-- ===== src/FileTransfer/Partition.antt =====
-- How the entries of a directory are divided among the streams: `partition_directory_items`.
use hyper_link.Base.{
  ℕ, zero, suc, ◌+◌, ◌%◌, ◌^◌, Bool, true, false, List, [], ◌∷◌, ◌++◌, replicate, ltb,
  if◌then◌else◌,
}
use hyper_link.FileTransfer.{
  TransferKind, file, directory_tar, file_part, directory_entry, directory_file, directory_symlink,
}
use hyper_link.FileTransfer.Send.{DirectoryItem}
pub mod Balance
pub mod Coverage
pub mod Load

pub record DirectoryPartition : Type 0 where
  pub items : List DirectoryItem
  pub bytes : ℕ

abbrev pub empty_partition : DirectoryPartition
empty_partition = record { items = []; bytes = 0 }

unfoldable pub has_payload : DirectoryItem → Bool
has_payload item = elim item.kind [
  | file ↦ false
  | directory_tar ↦ false
  | file_part ↦ false
  | directory_entry ↦ false
  | directory_file ↦ true
  | directory_symlink ↦ true
]

-- The loop that tells `payload` and `metadata` apart.
unfoldable pub payload_of : List DirectoryItem → List DirectoryItem
payload_of [] = []
payload_of (item ∷ items) =
    let rest = payload_of items in if has_payload item then item ∷ rest else rest

unfoldable pub metadata_of : List DirectoryItem → List DirectoryItem
metadata_of [] = []
metadata_of (item ∷ items) =
    let rest = metadata_of items in if has_payload item then rest else item ∷ rest

-- The comparison of the sort.
unfoldable pub larger_first : DirectoryItem → DirectoryItem → Bool
larger_first left right = ltb right.payload_size left.payload_size

-- `std::min_element` by the bytes: the index of the first partition with the fewest, and its bytes. Of
-- no partitions there is none; the caller has at least one.
unfoldable pub least : List DirectoryPartition → ℕ × ℕ
least [] = (0, 0)
least (partition ∷ []) = (0, partition.bytes)
least (partition ∷ (next ∷ rest)) =
    let (index, bytes) = least (next ∷ rest) in
    if ltb bytes partition.bytes then (suc index, bytes) else (0, partition.bytes)

unfoldable pub push_item : DirectoryItem → DirectoryPartition → DirectoryPartition
push_item item partition = record partition { items = partition.items ++ item ∷ [] }

-- `target->bytes += ...; target->items.push_back(...)`
unfoldable pub add_item : DirectoryItem → DirectoryPartition → DirectoryPartition
add_item item partition = record (push_item item partition) {
  bytes = (partition.bytes + item.payload_size) % 2 ^ 64;
}

unfoldable pub add_at : ℕ → DirectoryItem → List DirectoryPartition → List DirectoryPartition
add_at index item [] = []
add_at zero item (partition ∷ rest) = add_item item partition ∷ rest
add_at (suc index) item (partition ∷ rest) = partition ∷ add_at index item rest

unfoldable pub place_all : List DirectoryItem → List DirectoryPartition → List DirectoryPartition
place_all [] partitions = partitions
place_all (item ∷ items) partitions = place_all items (add_at (least partitions).0 item partitions)

-- The loop over `metadata`, which goes to `partitions.front()`.
unfoldable pub push_front : List DirectoryItem → List DirectoryPartition → List DirectoryPartition
push_front metadata [] = []
push_front [] (front ∷ rest) = front ∷ rest
push_front (item ∷ metadata) (front ∷ rest) = push_front metadata (push_item item front ∷ rest)

-- `sort` stands for `std::sort`, of which the order among equals is not specified.
unfoldable pub partition_directory_items :
    ((DirectoryItem → DirectoryItem → Bool) → List DirectoryItem → List DirectoryItem)
    → List DirectoryItem
    → ℕ
    → List DirectoryPartition
partition_directory_items sort items parallel =
    place_all (sort larger_first (payload_of items))
      (push_front (metadata_of items) (replicate parallel empty_partition))
