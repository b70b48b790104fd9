-- ===== src/FileTransfer/Output/Turns.antt =====
-- What a turn of a thread does while no call fails.
use hyper_link.Base.{
  ℕ, ◌+◌, ◌≤◌, ◌<◌, ◌^◌, ◌%◌, min, ◌≡◌, ◌≢◌, refl, sym, ap, ◌∙◌, arith, Bool, true, false, Option,
  some, [], ◌∷◌, ◌++◌, Text, replicate, ltb, text_eq_iff, ==_iff, length, Error, Result, ok,
}
use hyper_link.Base.Program.{Program, ◌>>◌, pure, >>=-ok, lifts}
use hyper_link.FileTransfer.{chunk_bytes}
use hyper_link.FileTransfer.Names.{safe_file_name}
use hyper_link.FileTransfer.Receive.{IncomingHeader}
use hyper_link.FileTransfer.Output.{
  on_world, require, open_failed, seek_failed, write_failed, Files, ReceiveSharedState, Thread,
  claim_output, claim, create_output, claims, begin_part, part_round, count, write_piece,
}
use hyper_link.FileTransfer.Output.Overwrite.{overwrite}

-- What the threads run on: the files of a file system, and for each thread the bytes that it has not received.
pub record View (W : Type 0) : Type 0 where
  pub contents : Text → W → Option Text
  pub pending : ℕ → W → Text

module _ {W : Type 0} (files : Files W) (receive_into : ℕ → ℕ → Program W Text)
    (view : View W) where
  abbrev SamePending : W → W → Type 0
  SamePending w w' = (j : ℕ) → view.pending j w' ≡ view.pending j w

  -- The documented behaviour of the calls while none fails: a file is created empty, is made longer by
  -- zeros, keeps its bytes when it is opened, and has bytes replaced; and a session that has bytes to
  -- come delivers some of them.
  pub record Works : Type 0 where
    pub creates :
        (path : Text) (w : W)
        → ((files.open_truncated path w).0 ≡ true)
          × (view.contents path (files.open_truncated path w).1 ≡ some [])
          × SamePending w (files.open_truncated path w).1
    pub resizes :
        (path : Text) (n : ℕ) (w : W)
        → view.contents path w ≡ some []
        → ((files.resize_file path n w).0 ≡ ok tt)
          × (view.contents path (files.resize_file path n w).1 ≡ some (replicate n 0))
          × SamePending w (files.resize_file path n w).1
    pub opens :
        (path content : Text) (w : W)
        → view.contents path w ≡ some content
        → ((files.open_update path w).0 ≡ true)
          × (view.contents path (files.open_update path w).1 ≡ some content)
          × SamePending w (files.open_update path w).1
    pub seeks :
        (path : Text) (n : ℕ) (w : W)
        → ((files.seek path n w).0 ≡ true)
          × (view.contents path (files.seek path n w).1 ≡ view.contents path w)
          × SamePending w (files.seek path n w).1
    pub writes :
        (path content piece : Text) (n : ℕ) (w : W)
        → view.contents path w ≡ some content
        → n + length piece ≤ length content
        → ((files.write path n piece w).0 ≡ true)
          × (view.contents path (files.write path n piece w).1 ≡ some (overwrite n piece content))
          × SamePending w (files.write path n piece w).1
    pub receives :
        (i n : ℕ) (w : W)
        → 0 < n
        → 0 < length (view.pending i w)
        → (b : ℕ) × (piece : Text) × (w' : W) × (receive_into i n w ≡ some (ok (b ∷ piece), w'))
          × (length (b ∷ piece) ≤ n)
          × (view.pending i w ≡ (b ∷ piece) ++ view.pending i w')
          × ((j : ℕ) → j ≢ i → view.pending j w' ≡ view.pending j w)
          × ((path : Text) → view.contents path w' ≡ view.contents path w)

module _ {W : Type 0} (files : Files W) (receive_into : ℕ → ℕ → Program W Text) (view : View W)
    (works : Works files receive_into view) where
  abbrev thread : W → ReceiveSharedState → ℕ → Thread W
  thread w shared bytes = record { world = w; shared = shared; bytes = bytes }

  -- A part that begins returns the path, with the shared state and the content of the file that follow.
  abbrev pub Begins :
      Option (Result Text × Thread W) → Text → ReceiveSharedState → ℕ → Text → W → Type 0
  Begins outcome path shared bytes content w =
      (w' : W) × (outcome ≡ some (ok path, thread w' shared bytes))
      × (view.contents path w' ≡ some content)
      × ((j : ℕ) → view.pending j w' ≡ view.pending j w)

  -- A checked call that succeeds.
  call-ok :
      (error : Error) (operation : W → Bool × W) (w : W) (shared : ReceiveSharedState) (bytes : ℕ)
      → (operation w).0 ≡ true
      → on_world (require error operation) (thread w shared bytes)
        ≡ some (ok tt, thread (operation w).1 shared bytes)
  call-ok error operation w shared bytes h = rw (h, require, on_world) refl

  call_then :
      {A : Type 0} (error : Error) (operation : W → Bool × W) (rest : Program (Thread W) A) (w : W)
      (shared : ReceiveSharedState) (bytes : ℕ)
      → (operation w).0 ≡ true
      → (on_world (require error operation) >> rest) (thread w shared bytes)
        ≡ rest (thread (operation w).1 shared bytes)
  call_then error operation rest w shared bytes h =
      >>=-ok (on_world (require error operation)) (λ _. rest) (thread w shared bytes)
        (call-ok error operation w shared bytes h)

  on_world-ok :
      {A : Type 0} (m : Program W A) (w w' : W) (shared : ReceiveSharedState) (bytes : ℕ) {a : A}
      → m w ≡ some (ok a, w')
      → on_world m (thread w shared bytes) ≡ some (ok a, thread w' shared bytes)
  on_world-ok m w w' shared bytes h = rw (h, on_world) refl

  open_at : ℕ → Text → Program (Thread W) Text
  open_at offset path =
      on_world (require (open_failed path) (files.open_update path))
      >> on_world (require seek_failed (files.seek path offset))
      >> pure path

  open_at-Begins :
      (offset : ℕ) (path content : Text) (w : W) (shared : ReceiveSharedState) (bytes : ℕ)
      → view.contents path w ≡ some content
      → Begins (open_at offset path (thread w shared bytes)) path shared bytes content w
  unfolding open_at
  open_at-Begins offset path content w shared bytes h =
      let w₁ = (files.open_update path w).1 in
      let (opened, same, kept) = works.opens path content w h in
      let (sought, same', kept') = works.seeks path offset w₁ in
      let w₂ = (files.seek path offset w₁).1 in
      let opening = on_world (require (open_failed path) (files.open_update path)) in
      let seeking = on_world (require seek_failed (files.seek path offset)) in
      (
        w₂,
        >>=-ok (opening >> seeking) (λ _. pure path) (thread w shared bytes)
            (call_then (open_failed path) (files.open_update path) seeking w shared bytes opened
              ∙ call-ok seek_failed (files.seek path offset) w₁ shared bytes sought),
        same' ∙ same,
        λ j. kept' j ∙ kept j,
      )

  -- The block under the mutex, for the first part and for a later one.
  pub claim_first :
      (output_dir : Text) (incoming : IncomingHeader) (w : W) (shared : ReceiveSharedState)
      → shared.initialized ≡ false
      → let path = files.join output_dir incoming.file_name in
        (w' : W) × (claim_output files output_dir incoming (shared, w)
          ≡ (ok path, (claims files output_dir incoming, w')))
        × (view.contents path w' ≡ some (replicate incoming.total_size 0))
        × ((j : ℕ) → view.pending j w' ≡ view.pending j w)
  unfolding claim_output create_output claims
  claim_first output_dir incoming w shared h =
      let path = files.join output_dir incoming.file_name in
      let (created, empty, kept) = works.creates path w in
      let (resized, zeros, kept') = works.resizes path incoming.total_size _ empty in
      (_, rw (claim_output, h, created, resized) refl, zeros, λ j. kept' j ∙ kept j)

  pub claim_later :
      (output_dir : Text) (incoming : IncomingHeader) (w : W) (shared : ReceiveSharedState)
      → shared.initialized ≡ true
      → shared.file_name ≡ incoming.file_name
      → shared.total_size ≡ incoming.total_size
      → claim_output files output_dir incoming (shared, w) ≡ (ok shared.output_path, (shared, w))
  unfolding claim_output
  claim_later output_dir incoming w shared h e f =
      rw
        (
          claim_output,
          h,
          (text_eq_iff shared.file_name incoming.file_name).1 e,
          (==_iff shared.total_size incoming.total_size).1 f,
        )
        refl

  -- A part within the file begins.
  pub begin_part-Begins :
      (i : ℕ) (output_dir name path content : Text) (incoming : IncomingHeader) (w w₁ : W)
      (shared shared' : ReceiveSharedState) (bytes : ℕ)
      → safe_file_name incoming.file_name ≡ ok name
      → incoming.offset + incoming.payload_size ≤ incoming.total_size
      → incoming.total_size < 2 ^ 64
      → claim_output files output_dir (record incoming { file_name = name }) (shared, w)
        ≡ (ok path, (shared', w₁))
      → view.contents path w₁ ≡ some content
      → ((j : ℕ) → view.pending j w₁ ≡ view.pending j w)
      → Begins
          (begin_part files (receive_into i) output_dir incoming (thread w shared bytes))
          path
          shared'
          bytes
          content
          w
  unfolding begin_part claim open_at
  begin_part-Begins i output_dir name path content incoming w w₁ shared shared' bytes safe within
        small claimed same kept =
      let in_range : ltb incoming.total_size ((incoming.offset + incoming.payload_size) % 2 ^ 64)
          ≡ false =
        ground (arith, within, small) in
      let named = record incoming { file_name = name } in
      let claiming : claim files output_dir named (thread w shared bytes)
          ≡ some (ok path, thread w₁ shared' bytes) =
        rw (claim, claimed) refl in
      let (w₂, e, same', kept') =
        open_at-Begins incoming.offset path content w₁ shared' bytes same in
      (
        w₂,
        lifts (safe_file_name incoming.file_name) _ (thread w shared bytes) safe
            ∙ rw in_range
                (>>=-ok (claim files output_dir named) _ (thread w shared bytes) claiming ∙ e),
        same',
        λ j. kept' j ∙ kept j,
      )

  written_round :
      (i : ℕ) (cut : Error) (path : Text) (position want b : ℕ) (piece : Text) (w w₁ : W)
      (shared : ReceiveSharedState) (bytes : ℕ)
      → receive_into i (min want chunk_bytes) w ≡ some (ok (b ∷ piece), w₁)
      → (files.write path position (b ∷ piece) w₁).0 ≡ true
      → part_round files (receive_into i) cut path position want (thread w shared bytes)
        ≡ some (
          ok (length (b ∷ piece)),
          thread
              (files.write path position (b ∷ piece) w₁).1
              shared
              ((bytes + length (b ∷ piece)) % 2 ^ 64),
        )
  unfolding part_round write_piece count
  written_round i cut path position want b piece w w₁ shared bytes received written =
      let size = length (b ∷ piece) in
      let writing = on_world (require write_failed (files.write path position (b ∷ piece))) in
      let t₁ = thread w₁ shared bytes in
      >>=-ok (on_world (receive_into i (min want chunk_bytes))) _ (thread w shared bytes)
        (on_world-ok (receive_into i (min want chunk_bytes)) w w₁ shared bytes received)
      ∙ >>=-ok (writing >> count size) (λ _. pure size) t₁
          (call_then write_failed (files.write path position (b ∷ piece)) (count size) w₁ shared
            bytes written)

  -- A round of a loop that has bytes to come writes the first of them.
  pub part_round_lem :
      (i : ℕ) (cut : Error) (path content : Text) (position want : ℕ) (w : W)
      (shared : ReceiveSharedState) (bytes : ℕ)
      → 0 < want
      → view.contents path w ≡ some content
      → position + want ≤ length content
      → want ≤ length (view.pending i w)
      → (piece : Text) × (w' : W) × (part_round files
            (receive_into i)
            cut
            path
            position
            want
            (thread w shared bytes)
          ≡ some (ok (length piece), thread w' shared ((bytes + length piece) % 2 ^ 64)))
        × (0 < length piece)
        × (length piece ≤ want)
        × (view.pending i w ≡ piece ++ view.pending i w')
        × ((j : ℕ) → j ≢ i → view.pending j w' ≡ view.pending j w)
        × (view.contents path w' ≡ some (overwrite position piece content))
  part_round_lem i cut path content position want w shared bytes pos same fits more =
      let (b, piece, w₁, received, few, split, others, files_kept) =
        works.receives i (min want chunk_bytes) w (omega arith) (omega arith) in
      let short : length (b ∷ piece) ≤ want = omega (arith, few) in
      let (written, over, kept) =
        works.writes path content (b ∷ piece) position w₁ (files_kept path ∙ same)
          (omega (arith, fits, short)) in
      let w₂ = (files.write path position (b ∷ piece) w₁).1 in
      (
        b ∷ piece,
        w₂,
        written_round i cut path position want b piece w w₁ shared bytes received written,
        omega arith,
        short,
        split ∙ ap (◌++◌ (b ∷ piece)) (sym (kept i)),
        λ j h. kept j ∙ others j h,
        over,
      )
