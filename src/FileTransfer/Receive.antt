-- ===== src/FileTransfer/Receive.antt =====
-- Reading from a session: `receive_exact`, `receive_header` and `receive_header_optional`, over the
-- session's `receive_into`, which is a parameter. A buffer that is filled is the text that it holds.
pub mod Stream
pub mod Header
pub mod Optional
use hyper_link.Base.{
  ℕ, zero, suc, ◌-◌, ◌<◌, ◌≤◌, ◌≡◌, Bool, true, false, ◌||◌, Option, none, some, [], ◌++◌, Text,
  codes, text_eq, is_empty, take, drop, length, ltb, ◌==◌, if◌then◌else◌, Error, runtime_error,
  Result, ok, err,
}
use hyper_link.Base.Program.{Program, ◌>>=◌, pure, throw, lift}
use hyper_link.FileTransfer.{TransferKind}
use hyper_link.FileTransfer.Wire.{magic, header_bytes, read_u64_be, kind_of_code}
use hyper_link.FileTransfer.Names.{safe_file_name}

pub record IncomingHeader : Type 0 where
  pub kind : TransferKind
  pub payload_size : ℕ
  pub name_size : ℕ
  pub offset : ℕ
  pub total_size : ℕ
  pub file_name : Text

abbrev pub max_name_bytes : ℕ
max_name_bytes = 4096

unfoldable pub closed_early : Error
closed_early = runtime_error (codes "connection closed before expected bytes arrived")

unfoldable pub closed_in_header : Error
closed_in_header = runtime_error (codes "connection closed in the middle of a header")

unfoldable pub bad_magic : Error
bad_magic = runtime_error (codes "invalid file-transfer header")

unfoldable pub bad_name_length : Error
bad_name_length = runtime_error (codes "invalid incoming file name length")

unfoldable pub bad_kind : Error
bad_kind = runtime_error (codes "unsupported incoming transfer kind")

-- The 64-bit field at an offset of the header.
unfoldable pub field_at : ℕ → Text → ℕ
field_at offset header = read_u64_be (drop offset header)

-- The checks on the 48 bytes: the magic bytes, the name's length, the kind. The name is still to come.
unfoldable pub check_header : Text → Result IncomingHeader
check_header header =
    let name_size = field_at 24 header in
    if text_eq (take 8 header) magic
    then if name_size == 0 || ltb max_name_bytes name_size
      then err bad_name_length
      else elim (kind_of_code (field_at 8 header)) [
        | none ↦ err bad_kind
        | some kind ↦ ok (record {
          kind = kind;
          payload_size = field_at 16 header;
          name_size = name_size;
          offset = field_at 32 header;
          total_size = field_at 40 header;
          file_name = [];
        })
      ]
    else err bad_magic

module _ {S : Type 0} (receive_into : ℕ → Program S Text) where
  -- The loop of `receive_exact`, with `want` bytes of the buffer still to be filled; each round that
  -- goes on fills at least one, so that as much fuel as bytes is enough.
  unfoldable pub receive_loop : ℕ → ℕ → Text → Program S Text
  receive_loop fuel zero got = pure got
  receive_loop zero (suc want) got = λ s. none
  receive_loop (suc fuel) (suc want) got = do
    received ← receive_into (suc want)
    if is_empty received
        then throw closed_early
        else receive_loop fuel (suc want - length received) (got ++ received)

  unfoldable pub receive_exact : ℕ → Program S Text
  receive_exact size = receive_loop size size []

  unfoldable pub receive_header : Program S IncomingHeader
  receive_header = do
    header ← receive_exact header_bytes
    incoming ← lift (check_header header)
    name_bytes ← receive_exact incoming.name_size
    file_name ← lift (safe_file_name name_bytes)
    pure (record incoming { file_name = file_name })

  -- The loop of `receive_header_optional`: a connection that closes before the first byte of a header
  -- is a regular end.
  unfoldable pub receive_optional_loop : ℕ → ℕ → Text → Program S (Option Text)
  receive_optional_loop fuel zero got = pure (some got)
  receive_optional_loop zero (suc want) got = λ s. none
  receive_optional_loop (suc fuel) (suc want) got = do
    received ← receive_into (suc want)
    if is_empty received
        then if is_empty got then pure none else throw closed_in_header
        else receive_optional_loop fuel (suc want - length received) (got ++ received)

  -- Here the name is kept as it arrives: the caller makes it safe.
  receive_name : Option Text → Program S (Option IncomingHeader)
  receive_name none = pure none
  receive_name (some header) = do
    incoming ← lift (check_header header)
    name_bytes ← receive_exact incoming.name_size
    pure (some (record incoming { file_name = name_bytes }))

  unfoldable pub receive_header_optional : Program S (Option IncomingHeader)
  unfolding receive_name
  receive_header_optional = do
    header ← receive_optional_loop header_bytes header_bytes []
    receive_name header
