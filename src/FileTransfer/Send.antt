-- ===== src/FileTransfer/Send.antt =====
-- Sending parts of files and the entries of directories: `send_file_range` and `send_directory_items`,
-- over an interface of the calls that read files.
pub mod Range
pub mod Stays
pub mod Closing
pub mod Handover
pub mod Discovered
use hyper_link.Base.{
  ℕ, zero, suc, ◌+◌, ◌-◌, ◌%◌, ◌^◌, min, Bool, true, false, Option, none, some, List, [], ◌∷◌, ◌++◌,
  Text, codes, is_empty, length, ltb, if◌then◌else◌, Error, runtime_error, Result, ok, err,
}
use hyper_link.Base.Program.{Program, ◌>>=◌, ◌>>◌, pure, throw}
use hyper_link.Session.{Session, destroy_session}
use hyper_link.Session
use hyper_link.Tcp.{Sockets, TcpTransport, client}
use hyper_link.FileTransfer.{
  TransferKind, file, file_part, directory_tar, directory_entry, directory_file, directory_symlink,
  chunk_bytes,
}
use hyper_link.FileTransfer.Args.{Options}
use hyper_link.FileTransfer.Wire.{make_header}
use hyper_link.FileTransfer.Streams.{StreamResult}
use hyper_link.FileTransfer.Connection.{connect_stream, no_session}

-- The calls that read, on a state `W` of the world: `read` reads at a position. A test is true on success.
pub record Inputs (W : Type 0) : Type 0 where
  pub open_input : Text → W → Bool × W
  pub seek : Text → ℕ → W → Bool × W
  pub read : Text → ℕ → ℕ → W → Text × W
  pub read_symlink : Text → W → Result Text × W

pub record DirectoryItem : Type 0 where
  pub kind : TransferKind
  pub source : Text
  pub relative_path : Text
  pub payload_size : ℕ
  pub mode : ℕ

unfoldable pub input_not_open : Text → Error
input_not_open path = runtime_error (codes "failed to open input payload: " ++ path)

unfoldable pub item_not_open : Text → Error
item_not_open path = runtime_error (codes "failed to open input file: " ++ path)

unfoldable pub input_seek_failed : Error
input_seek_failed = runtime_error (codes "failed to seek input file")

unfoldable pub input_ended : Error
input_ended = runtime_error (codes "input file ended unexpectedly")

-- The state of a thread is the world and the bytes of its result.
module _ {W : Type 0} where
  abbrev pub on_world : {A : Type 0} → Program W A → Program (W × ℕ) A
  on_world m (w, bytes) = elim (m w) [
    | none ↦ none
    | some (result, w') ↦ some (result, (w', bytes))
  ]

  abbrev pub require : Error → (W → Bool × W) → Program (W × ℕ) (Unit {0})
  require error operation (w, bytes) =
      let (done, w') = operation w in some (if done then ok tt else err error, (w', bytes))

  abbrev pub attempt : {A : Type 0} → (W → Result A × W) → Program (W × ℕ) A
  attempt operation (w, bytes) = let (result, w') = operation w in some (result, (w', bytes))

  -- `result.bytes += ...`
  unfoldable pub count : ℕ → Program (W × ℕ) (Unit {0})
  count n (w, bytes) = some (ok tt, (w, (bytes + n) % 2 ^ 64))

module _ {W : Type 0} (inputs : Inputs W) (send : Text → Program W ℕ) where
  -- `session.send`, whose result is not used.
  unfoldable pub send_all : Text → Program (W × ℕ) (Unit {0})
  send_all payload = on_world (send payload) >>= λ sent. pure tt

  unfoldable pub read_piece : Text → ℕ → ℕ → Program (W × ℕ) Text
  read_piece path position want =
      attempt (λ w. let (piece, w') = inputs.read path position want w in (ok piece, w'))

  -- The loops of `send_file_range` and `send_directory_items`, `want` bytes before the end; each round that goes on reads at least one, so
  -- that as much fuel as bytes is enough.
  unfoldable pub send_loop : ℕ → Text → ℕ → ℕ → Program (W × ℕ) (Unit {0})
  send_loop fuel path position zero = pure tt
  send_loop zero path position (suc want) = λ s. none
  send_loop (suc fuel) path position (suc want) = do
    piece ← read_piece path position (min (suc want) chunk_bytes)
    if is_empty piece
        then throw input_ended
        else send_all piece
          >> count (length piece)
          >> send_loop fuel path (position + length piece) (suc want - length piece)

  unfoldable pub open_range : Text → ℕ → Program (W × ℕ) (Unit {0})
  open_range path offset =
      require (input_not_open path) (inputs.open_input path)
      >> require input_seek_failed (inputs.seek path offset)

  -- `send_file_range` behind the connection, up to the close.
  unfoldable pub send_range : ℕ → Text → Text → ℕ → ℕ → ℕ → Program (W × ℕ) (Unit {0})
  send_range parallel path remote_name total_size offset payload_size =
      send_all (
        make_header (if ltb 1 parallel then file_part else file) payload_size (length remote_name)
          offset total_size)
      >> send_all remote_name
      >> send_loop payload_size path offset payload_size

  unfoldable pub send_content : DirectoryItem → Program (W × ℕ) (Unit {0})
  send_content item = elim item.kind [
    | directory_file ↦
        require (item_not_open item.source) (inputs.open_input item.source)
        >> send_loop item.payload_size item.source 0 item.payload_size
    | directory_symlink ↦ attempt (inputs.read_symlink item.source) >>= λ target.
        send_all target >> count (length target)
    | file ↦ pure tt
    | directory_tar ↦ pure tt
    | file_part ↦ pure tt
    | directory_entry ↦ pure tt
  ]

  unfoldable pub send_item : DirectoryItem → Program (W × ℕ) (Unit {0})
  send_item item =
      send_all (make_header item.kind item.payload_size (length item.relative_path) item.mode 0)
      >> send_all item.relative_path
      >> send_content item

  unfoldable pub send_items : List DirectoryItem → Program (W × ℕ) (Unit {0})
  send_items [] = pure tt
  send_items (item ∷ items) = send_item item >> send_items items

-- The end of a thread: the session is destroyed, and an exception becomes a part of the result.
unfoldable pub thread_result :
    {V : Type 0}
    → Option (Result (Unit {0}) × ((Session V × V) × ℕ))
    → Option (StreamResult × (Session V × V))
thread_result none = none
thread_result (some (ok a, (s, bytes))) =
    some (record { bytes = bytes; error = none }, (no_session, destroy_session s))
thread_result (some (err error, (s, bytes))) =
    some (record { bytes = bytes; error = some error }, (no_session, destroy_session s))

module _ {A U : Type 0} (sockets : Sockets A U)
    (inputs : Inputs (Session (TcpTransport × U) × (TcpTransport × U))) where
  unfoldable pub close_session :
      Program ((Session (TcpTransport × U) × (TcpTransport × U)) × ℕ) (Unit {0})
  close_session (s, bytes) = some (ok tt, (Session.close s, bytes))

  unfoldable pub send_file_range :
      Options
      → Text
      → Text
      → ℕ
      → ℕ
      → ℕ
      → ℕ
      → Session (TcpTransport × U) × (TcpTransport × U)
      → Option (StreamResult × (Session (TcpTransport × U) × (TcpTransport × U)))
  send_file_range options path remote_name total_size offset payload_size stream s = thread_result (
      (open_range inputs Session.send path offset
          >> on_world (connect_stream sockets client options stream)
          >> send_range inputs Session.send options.parallel path remote_name total_size offset
              payload_size
          >> close_session)
        (s, 0))

  unfoldable pub send_directory_items :
      Options
      → List DirectoryItem
      → ℕ
      → Session (TcpTransport × U) × (TcpTransport × U)
      → Option (StreamResult × (Session (TcpTransport × U) × (TcpTransport × U)))
  send_directory_items options items stream s = thread_result (
      (on_world (connect_stream sockets client options stream)
          >> send_items inputs Session.send items
          >> close_session)
        (s, 0))
