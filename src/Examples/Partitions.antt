-- ===== src/Examples/Partitions.antt =====
-- An example of a directory that is divided among two streams.
use mathlib.Core.List.{Perm}
use mathlib.Core.List.Perm
use hyper_link.Base.{◌^◌, ◌<◌, arith, Bool, List, [], ◌∷◌, codes}
use hyper_link.FileTransfer.{directory_entry, directory_file, directory_symlink}
use hyper_link.FileTransfer.Send.{DirectoryItem}
use hyper_link.FileTransfer.Partition.{partition_directory_items}
use hyper_link.FileTransfer.Partition.Coverage.{items_of, partition_directory_items-Perm}
use hyper_link.FileTransfer.Partition.Load.{bytes_of_kind, load, largest}
use hyper_link.FileTransfer.Partition.Balance.{AreBalanced, partition_directory_items-AreBalanced}

abbrev folder : DirectoryItem
folder = record {
  kind = directory_entry;
  source = codes "in/a";
  relative_path = codes "a";
  payload_size = 0;
  mode = 0;
}

abbrev large : DirectoryItem
large = record folder { kind = directory_file; relative_path = codes "a/x"; payload_size = 7 }

abbrev small : DirectoryItem
small = record folder { kind = directory_file; relative_path = codes "a/y"; payload_size = 3 }

abbrev link : DirectoryItem
link = record folder { kind = directory_symlink; relative_path = codes "a/z"; payload_size = 2 }

abbrev items : List DirectoryItem
items = folder ∷ large ∷ small ∷ link ∷ []

-- The payload items are in order already.
abbrev keep_order : (DirectoryItem → DirectoryItem → Bool) → List DirectoryItem → List DirectoryItem
keep_order before xs = xs

partition_directory_items-Perm_example :
    Perm (items_of (partition_directory_items keep_order items 2)) items
partition_directory_items-Perm_example =
    partition_directory_items-Perm keep_order items 2 (λ xs. Perm.refl xs) (omega arith)

few_together : load items < 2 ^ 64
unfolding bytes_of_kind
few_together = omega arith

partition_directory_items-AreBalanced_example :
    AreBalanced (largest items) (partition_directory_items keep_order items 2)
partition_directory_items-AreBalanced_example =
    partition_directory_items-AreBalanced keep_order items 2 (λ xs. Perm.refl xs) (omega arith)
      few_together
