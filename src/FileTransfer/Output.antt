-- ===== src/FileTransfer/Output.antt =====
-- Writing what arrives into files: `receive_payload_to_file`, `receive_directory_file`,
-- `create_symlink_or_fallback`, `receive_text_payload` and `receive_file_part` with the state that the
-- threads of the streams share. The calls of the file system are an interface.
pub mod Overwrite
pub mod Schedule
pub mod Turns
pub mod Part
pub mod Reassembly
pub mod Interleaving
pub mod Threads
use hyper_link.Base.{
  ℕ, zero, suc, ◌+◌, ◌-◌, ◌%◌, ◌^◌, min, Bool, true, false, ◌||◌, not, Option, none, some, [], ◌∷◌,
  ◌++◌, Text, codes, text_eq, is_empty, length, ltb, ◌==◌, if◌then◌else◌, Error, runtime_error,
  Result, ok, err,
}
use hyper_link.Base.Program.{Program, ◌>>=◌, ◌>>◌, pure, throw, lift}
use hyper_link.FileTransfer.{
  TransferKind, file, directory_tar, file_part, directory_entry, directory_file, directory_symlink,
  chunk_bytes,
}
use hyper_link.FileTransfer.Names.{safe_file_name, safe_relative_path, parent_path}
use hyper_link.FileTransfer.Receive.{IncomingHeader, receive_exact, receive_header_optional}
use hyper_link.FileTransfer.Streams.{StreamResult}

-- The calls of the file system on a state `W` of the world. `join` is the operator `/` on paths. A test is true on success; `make_directories` is
-- `create_directories` with an error code, and returns the message of the error, and
-- `create_directories` and `resize_file` are the calls that throw. `write` writes at a position.
pub record Files (W : Type 0) : Type 0 where
  pub join : Text → Text → Text
  pub make_directories : Text → W → Option Text × W
  pub create_directories : Text → W → Result (Unit {0}) × W
  pub open_truncated : Text → W → Bool × W
  pub open_update : Text → W → Bool × W
  pub seek : Text → ℕ → W → Bool × W
  pub write : Text → ℕ → Text → W → Bool × W
  pub resize_file : Text → ℕ → W → Result (Unit {0}) × W
  pub permissions : Text → ℕ → W → W
  pub remove : Text → W → W
  pub create_symlink : Text → Text → W → Bool × W

-- `ReceiveSharedState` without its mutex.
pub record ReceiveSharedState : Type 0 where
  pub initialized : Bool
  pub output_path : Text
  pub file_name : Text
  pub total_size : ℕ

abbrev pub initial_shared : ReceiveSharedState
initial_shared = record { initialized = false; output_path = []; file_name = []; total_size = 0 }

-- What a thread of a stream works on: the world, the shared state, and the bytes of its result.
pub record Thread (W : Type 0) : Type 0 where
  pub world : W
  pub shared : ReceiveSharedState
  pub bytes : ℕ

unfoldable pub open_failed : Text → Error
open_failed path = runtime_error (codes "failed to open output file: " ++ path)

unfoldable pub write_failed : Error
write_failed = runtime_error (codes "failed while writing output file")

unfoldable pub seek_failed : Error
seek_failed = runtime_error (codes "failed to seek output file")

unfoldable pub payload_cut : Error
payload_cut = runtime_error (codes "connection closed before transfer completed")

unfoldable pub directory_file_cut : Error
directory_file_cut = runtime_error (codes "connection closed before directory file completed")

unfoldable pub part_cut : Error
part_cut = runtime_error (codes "connection closed before file part completed")

unfoldable pub bad_part_kind : Error
bad_part_kind = runtime_error (codes "parallel receive got unsupported transfer kind")

unfoldable pub bad_range : Error
bad_range = runtime_error (codes "incoming file range exceeds total file size")

unfoldable pub create_failed : Text → Error
create_failed path = runtime_error (codes "failed to create output file: " ++ path)

unfoldable pub other_file : Error
other_file = runtime_error (codes "incoming file parts do not describe the same file")

unfoldable pub parent_failed : Text → Text → Error
parent_failed path message =
    runtime_error
      (codes "failed to create parent directory: " ++ (parent_path path ++ (codes ": " ++ message)))

unfoldable pub fallback_path : Text → Text
fallback_path path = path ++ codes ".hyperlink-symlink.txt"

unfoldable pub fallback_failed : Text → Error
fallback_failed path = runtime_error (codes "failed to create symlink fallback file for: " ++ path)

-- A call of the file system that throws by itself, one whose failure makes the code throw, and one that is not
-- checked.
abbrev pub attempt : {W A : Type 0} → (W → Result A × W) → Program W A
attempt operation w = some (operation w)

abbrev pub require : {W : Type 0} → Error → (W → Bool × W) → Program W (Unit {0})
require error operation w =
    let (done, w') = operation w in some (if done then ok tt else err error, w')

abbrev pub unchecked : {W : Type 0} → (W → W) → Program W (Unit {0})
unchecked operation w = some (ok tt, operation w)

module _ {W : Type 0} where
  abbrev pub on_world : {A : Type 0} → Program W A → Program (Thread W) A
  on_world m t = elim (m t.world) [
    | none ↦ none
    | some (result, w) ↦ some (result, record t { world = w })
  ]

  -- `result.bytes += ...`
  unfoldable pub count : ℕ → Program (Thread W) (Unit {0})
  count n t = some (ok tt, record t { bytes = (t.bytes + n) % 2 ^ 64 })

module _ {W : Type 0} (files : Files W) where
  unfoldable pub write_piece : Text → ℕ → Text → Program W (Unit {0})
  write_piece path position piece = require write_failed (files.write path position piece)

  unfoldable pub create_symlink_or_fallback : Text → Text → Program W (Unit {0})
  create_symlink_or_fallback target path w =
      let (made, w₁) = files.create_symlink target path (files.remove path w) in
      if made
      then some (ok tt, w₁)
      else let (opened, w₂) = files.open_truncated (fallback_path path) w₁ in
        if opened
        then some (ok tt, (files.write (fallback_path path) 0 target w₂).1)
        else some (err (fallback_failed path), w₂)

  -- What the first part writes into the shared state.
  unfoldable pub claims : Text → IncomingHeader → ReceiveSharedState
  claims output_dir incoming = record {
    initialized = true;
    output_path = files.join output_dir incoming.file_name;
    file_name = incoming.file_name;
    total_size = incoming.total_size;
  }

  unfoldable pub create_output : ReceiveSharedState → W → Result Text × (ReceiveSharedState × W)
  create_output claimed w =
      let (created, w₁) = files.open_truncated claimed.output_path w in
      let (resized, w₂) = files.resize_file claimed.output_path claimed.total_size w₁ in
      if created
      then elim resized [
        | err error ↦ (err error, (claimed, w₂))
        | ok a ↦ (ok claimed.output_path, (claimed, w₂))
      ]
      else (err (create_failed claimed.output_path), (claimed, w₁))

  -- The block of `receive_file_part` under the mutex, which returns the output path. The first part
  -- creates the file; the state stays initialized if that throws.
  unfoldable pub claim_output :
      Text → IncomingHeader → ReceiveSharedState × W → Result Text × (ReceiveSharedState × W)
  claim_output output_dir incoming (shared, w) =
      if shared.initialized
      then if not (text_eq shared.file_name incoming.file_name)
          || not (shared.total_size == incoming.total_size)
        then (err other_file, (shared, w))
        else (ok shared.output_path, (shared, w))
      else create_output (claims output_dir incoming) w

  unfoldable pub claim : Text → IncomingHeader → Program (Thread W) Text
  claim output_dir incoming t =
      let (result, s) = claim_output output_dir incoming (t.shared, t.world) in
      some (result, record t { shared = s.0; world = s.1 })

  module _ (receive_into : ℕ → Program W Text) where
    -- The loop of `receive_payload_to_file`, `want` bytes before the end; each round that goes on receives
    -- at least one, so that as much fuel as bytes is enough.
    unfoldable pub payload_loop : ℕ → Text → ℕ → ℕ → Program W (Unit {0})
    payload_loop fuel path position zero = pure tt
    payload_loop zero path position (suc want) = λ w. none
    payload_loop (suc fuel) path position (suc want) = do
      received ← receive_into (min (suc want) chunk_bytes)
      if is_empty received
          then throw payload_cut
          else write_piece path position received
            >> payload_loop fuel path (position + length received) (suc want - length received)

    unfoldable pub receive_payload_to_file : Text → ℕ → Program W (Unit {0})
    receive_payload_to_file path payload_size =
        require (open_failed path) (files.open_truncated path)
        >> payload_loop payload_size path 0 payload_size

    -- One round of the loops of `receive_directory_file` and `receive_file_part`, which differ in what they
    -- throw on a connection that closes early: it returns how many bytes were received.
    unfoldable pub part_round : Error → Text → ℕ → ℕ → Program (Thread W) ℕ
    part_round cut path position want = do
      received ← on_world (receive_into (min want chunk_bytes))
      if is_empty received
          then throw cut
          else on_world (write_piece path position received)
            >> count (length received)
            >> pure (length received)

    unfoldable pub part_loop : Error → ℕ → Text → ℕ → ℕ → Program (Thread W) (Unit {0})
    part_loop cut fuel path position zero = pure tt
    part_loop cut zero path position (suc want) = λ t. none
    part_loop cut (suc fuel) path position (suc want) = do
      received ← part_round cut path position (suc want)
      part_loop cut fuel path (position + received) (suc want - received)

    unfoldable pub ensure_parent : Text → Program W (Unit {0})
    ensure_parent path w =
        let (message, w') = files.make_directories (parent_path path) w in
        elim message [
          | none ↦ some (ok tt, w')
          | some text ↦ some (err (parent_failed path text), w')
        ]

    unfoldable pub receive_directory_file : Text → IncomingHeader → Program (Thread W) (Unit {0})
    receive_directory_file path incoming =
        on_world (ensure_parent path)
        >> on_world (require (open_failed path) (files.open_truncated path))
        >> part_loop directory_file_cut incoming.payload_size path 0 incoming.payload_size
        >> on_world (unchecked (files.permissions path incoming.offset))

    unfoldable pub receive_text_payload : ℕ → Program W Text
    receive_text_payload payload_size = receive_exact receive_into payload_size

    unfoldable pub receive_symlink : Text → IncomingHeader → Program (Thread W) (Unit {0})
    receive_symlink path incoming =
        on_world (attempt (files.create_directories (parent_path path)))
        >> (on_world (receive_text_payload incoming.payload_size) >>= λ target.
            on_world (create_symlink_or_fallback target path) >> count incoming.payload_size)

    -- A part of a file behind the check of its kind, up to the loop over its bytes: it returns the path.
    unfoldable pub begin_part : Text → IncomingHeader → Program (Thread W) Text
    begin_part output_dir incoming = do
      file_name ← lift (safe_file_name incoming.file_name)
      if ltb incoming.total_size ((incoming.offset + incoming.payload_size) % 2 ^ 64)
          then throw bad_range
          else claim output_dir (record incoming { file_name = file_name }) >>= λ path.
              on_world (require (open_failed path) (files.open_update path))
              >> on_world (require seek_failed (files.seek path incoming.offset))
              >> pure path

    unfoldable pub receive_part : Text → IncomingHeader → Program (Thread W) (Unit {0})
    receive_part output_dir incoming = begin_part output_dir incoming >>= λ path.
        part_loop part_cut incoming.payload_size path incoming.offset incoming.payload_size

    -- One round of the loop of `receive_file_part` behind the header.
    unfoldable pub receive_item : Text → IncomingHeader → Program (Thread W) (Unit {0})
    receive_item output_dir incoming = elim incoming.kind [
      | directory_entry ↦ lift (safe_relative_path incoming.file_name) >>= λ name.
          on_world (attempt (files.create_directories (files.join output_dir name)))
      | directory_symlink ↦ lift (safe_relative_path incoming.file_name) >>= λ name.
          receive_symlink (files.join output_dir name) incoming
      | directory_file ↦ lift (safe_relative_path incoming.file_name) >>= λ name.
          receive_directory_file (files.join output_dir name) incoming
      | file_part ↦ receive_part output_dir incoming
      | file ↦ receive_part output_dir incoming
      | directory_tar ↦ throw bad_part_kind
    ]

    -- The loop of `receive_file_part`, on fuel for each header.
    unfoldable pub receive_items : ℕ → Text → Program (Thread W) (Unit {0})
    receive_items zero output_dir = λ t. none
    receive_items (suc fuel) output_dir =
        let rest = receive_items fuel output_dir in
        on_world (receive_header_optional receive_into) >>= λ incoming. elim incoming [
          | none ↦ pure tt
          | some header ↦ receive_item output_dir header >> rest
        ]
