-- ===== src/FileTransfer/Streams.antt =====
-- How a file is divided among parallel streams, and how the streams' results are put together:
-- `byte_range_for_stream`, `total_bytes` and `rethrow_first_error`. Numbers are 64-bit words.
pub mod Ranges
pub mod Results
use hyper_link.Base.{
  ℕ, ◌+◌, ◌*◌, ◌/◌, ◌%◌, ◌^◌, min, Option, none, some, List, [], ◌∷◌, Error, Result, ok, err, ltb,
  if◌then◌else◌,
}

-- The offset and the size of a stream's part. Division by no streams is undefined: `parallel` is positive.
unfoldable pub byte_range_for_stream : ℕ → ℕ → ℕ → ℕ × ℕ
byte_range_for_stream total_size stream parallel =
    let base = total_size / parallel in
    let extra = total_size % parallel in
    (
      (base * stream + min stream extra) % 2 ^ 64,
      (base + (if ltb stream extra then 1 else 0)) % 2 ^ 64,
    )

-- `error` is the exception that ended the stream's thread, if one did.
pub record StreamResult : Type 0 where
  pub bytes : ℕ
  pub error : Option Error

unfoldable pub rethrow_first_error : List StreamResult → Result (Unit {0})
rethrow_first_error [] = ok tt
rethrow_first_error (result ∷ results) = elim result.error [
  | none ↦ rethrow_first_error results
  | some error ↦ err error
]

-- The loop of `total_bytes`, with the sum so far.
unfoldable pub add_bytes : ℕ → List StreamResult → ℕ
add_bytes bytes [] = bytes
add_bytes bytes (result ∷ results) = add_bytes ((bytes + result.bytes) % 2 ^ 64) results

unfoldable pub total_bytes : List StreamResult → ℕ
total_bytes results = add_bytes 0 results
