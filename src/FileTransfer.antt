-- ===== src/FileTransfer.antt =====
-- examples/file_transfer.cpp, the tool `hyperlink_file`: one module for each family of its functions.
pub mod Args
pub mod Connection
pub mod Send
pub mod Partition
pub mod Names
pub mod Output
pub mod Quote
pub mod Receive
pub mod Streams
pub mod Wire
use hyper_link.Base.{ℕ, ◌*◌, ◌-◌, ◌^◌}

-- `TransferKind`, and the numbers that stand for it on the wire.
pub data TransferKind : Type 0 where
  file directory_tar file_part directory_entry directory_file directory_symlink : TransferKind

abbrev pub chunk_bytes : ℕ
chunk_bytes = 4 * 1024 * 1024

-- `std::numeric_limits<std::uint64_t>::max()`.
abbrev pub streaming_payload_size : ℕ
streaming_payload_size = 2 ^ 64 - 1
