-- ===== src/FileTransfer/Wire/RoundTrip.antt =====
-- What the receiver reads from a header that `make_header` wrote.
use hyper_link.Base.{ℕ, ◌^◌, ◌<◌, ◌≡◌, refl, arith, some, take, drop, length}
use hyper_link.FileTransfer.{TransferKind}
use hyper_link.FileTransfer.Wire.{
  magic, make_header, kind_code, kind_of_code, write_u64_be, read_u64_be, header_bytes,
}
use hyper_link.FileTransfer.Wire.Bytes.{read_u64_be-write_u64_be}

-- The numbers that a header carries fit their 64-bit fields.
abbrev pub Fits64 : ℕ → Type 0
Fits64 n = n < 2 ^ 64

pub length-make_header :
    (kind : TransferKind) (p n o t : ℕ) → length (make_header kind p n o t) ≡ header_bytes
unfolding make_header write_u64_be
length-make_header kind p n o t = refl

pub kind_of_code-kind_code : (kind : TransferKind) → kind_of_code (kind_code kind) ≡ some kind
unfolding kind_of_code
kind_of_code-kind_code kind = ground arith

module _ (kind : TransferKind) (p n o t : ℕ) where
  pub magic-make_header : take 8 (make_header kind p n o t) ≡ magic
  unfolding make_header
  magic-make_header = refl

  pub kind-make_header : read_u64_be (drop 8 (make_header kind p n o t)) ≡ kind_code kind
  unfolding make_header write_u64_be read_u64_be
  kind-make_header = read_u64_be-write_u64_be (kind_code kind) (ground arith)

  pub payload_size-make_header : Fits64 p → read_u64_be (drop 16 (make_header kind p n o t)) ≡ p
  unfolding make_header write_u64_be read_u64_be
  payload_size-make_header = read_u64_be-write_u64_be p

  pub name_size-make_header : Fits64 n → read_u64_be (drop 24 (make_header kind p n o t)) ≡ n
  unfolding make_header write_u64_be read_u64_be
  name_size-make_header = read_u64_be-write_u64_be n

  pub offset-make_header : Fits64 o → read_u64_be (drop 32 (make_header kind p n o t)) ≡ o
  unfolding make_header write_u64_be read_u64_be
  offset-make_header = read_u64_be-write_u64_be o

  pub total_size-make_header : Fits64 t → read_u64_be (drop 40 (make_header kind p n o t)) ≡ t
  unfolding make_header write_u64_be read_u64_be
  total_size-make_header = read_u64_be-write_u64_be t
