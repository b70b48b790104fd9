-- ===== src/FileTransfer/Output/Part.antt =====
-- The code of one part of a file, `receive_part`, as it runs in one go, while no call fails.
use hyper_link.Base.{
  ℕ, zero, suc, ◌+◌, ◌-◌, ◌≤◌, ◌<◌, ◌%◌, ◌^◌, ◌≡◌, ◌≢◌, ◌⊎◌, inl, inr, refl, sym, ap, subst, ◌∙◌,
  arith, true, false, Option, some, List, [], ◌∷◌, ◌++◌, Text, length, length-append, take, drop,
  replicate, length-replicate, ltb, Bool-cases, Result, ok, err,
}
use hyper_link.Base.Program.{Program, >>=-ok, >>=-err, lifts}
use native.Mathlib.Nat.{zero-add, suc-add}
use hyper_link.FileTransfer.Names.{safe_file_name}
use hyper_link.FileTransfer.Receive.{IncomingHeader}
use hyper_link.FileTransfer.Output.{
  Files, ReceiveSharedState, Thread, claims, begin_part, part_round, part_loop, part_cut, bad_range,
  receive_part,
}
use hyper_link.FileTransfer.Output.Overwrite.{overwrite, length-overwrite}
use hyper_link.FileTransfer.Output.Turns.{
  View, Works, Begins, claim_first, claim_later, begin_part-Begins, part_round_lem,
}

module _ {A : Type 0} where
  -- A shorter beginning of a text leaves the rest of a longer one.
  split_prefix :
      (piece rest front later : List A)
      → piece ++ rest ≡ front ++ later
      → length front ≤ length piece
      → (back : List A) × (piece ≡ front ++ back) × (later ≡ back ++ rest)
  split_prefix piece rest [] later e h = (piece, refl, sym e)
  split_prefix [] rest (b ∷ front) later e h = absurd (omega arith)
  split_prefix (c ∷ piece) rest (b ∷ front) later e h =
      let (back, same, behind) = split_prefix piece rest front later (ground arith) (omega arith) in
      (back, ground arith, behind)

  overwrite_zero :
      (front back xs : List A)
      → overwrite (length front) back (overwrite 0 front xs) ≡ overwrite 0 (front ++ back) xs
  unfolding overwrite
  overwrite_zero [] back [] = refl
  overwrite_zero [] back (x ∷ xs) = refl
  overwrite_zero (b ∷ front) back [] = refl
  overwrite_zero (b ∷ front) back (x ∷ xs) = ap (◌∷◌ b) (overwrite_zero front back xs)

  -- Two pieces written behind each other are one.
  overwrite-append :
      (p : ℕ) (front back xs : List A)
      → overwrite (p + length front) back (overwrite p front xs) ≡ overwrite p (front ++ back) xs
  unfolding overwrite
  overwrite-append p front back [] = refl
  overwrite-append zero front back (x ∷ xs) = rw zero-add (overwrite_zero front back (x ∷ xs))
  overwrite-append (suc p) front back (x ∷ xs) =
      rw suc-add (ap (◌∷◌ x) (overwrite-append p front back xs))

  overwrite_nothing : (p : ℕ) (xs : List A) → overwrite p [] xs ≡ xs
  unfolding overwrite
  overwrite_nothing p [] = refl
  overwrite_nothing zero (x ∷ xs) = refl
  overwrite_nothing (suc p) (x ∷ xs) = ap (◌∷◌ x) (overwrite_nothing p xs)

  splice_zero :
      (bytes xs : List A)
      → length bytes ≤ length xs
      → overwrite 0 bytes xs ≡ bytes ++ drop (length bytes) xs
  unfolding overwrite
  splice_zero [] [] h = refl
  splice_zero [] (x ∷ xs) h = refl
  splice_zero (b ∷ bytes) [] h = absurd (omega arith)
  splice_zero (b ∷ bytes) (x ∷ xs) h = ap (◌∷◌ b) (splice_zero bytes xs (omega arith))

  splice :
      (p : ℕ) (bytes xs : List A)
      → p + length bytes ≤ length xs
      → overwrite p bytes xs ≡ take p xs ++ (bytes ++ drop (p + length bytes) xs)
  unfolding overwrite
  splice zero bytes xs h = rw zero-add (splice_zero bytes xs (omega (arith, h)))
  splice (suc p) bytes [] h = absurd (omega arith)
  splice (suc p) bytes (x ∷ xs) h = rw suc-add (ap (◌∷◌ x) (splice p bytes xs (omega (arith, h))))

module _ {W : Type 0} (files : Files W) (receive_into : ℕ → ℕ → Program W Text) (view : View W)
    (works : Works files receive_into view) where
  abbrev thread : W → ReceiveSharedState → ℕ → Thread W
  thread w shared bytes = record { world = w; shared = shared; bytes = bytes }

  -- Some code ends with the shared state, the file and the bytes to come as they should be.
  abbrev pub Ends :
      Option (Result (Unit {0}) × Thread W)
      → (i : ℕ) → (path content rest : Text) → ReceiveSharedState
      → ℕ
      → W
      → Type 0
  Ends outcome i path content rest shared bytes w =
      (w' : W) × (outcome ≡ some (ok tt, thread w' shared bytes))
      × (view.contents path w' ≡ some content)
      × (view.pending i w' ≡ rest)
      × ((j : ℕ) → j ≢ i → view.pending j w' ≡ view.pending j w)

  part_loop-Ends :
      (fuel i : ℕ) (path content piece rest : Text) (position want : ℕ) (w : W)
      (shared : ReceiveSharedState) (bytes : ℕ)
      → want ≤ fuel
      → bytes < 2 ^ 64
      → view.contents path w ≡ some content
      → position + want ≤ length content
      → length piece ≡ want
      → view.pending i w ≡ piece ++ rest
      → Ends
          (part_loop files
            (receive_into i)
            part_cut
            fuel
            path
            position
            want
            (thread w shared bytes))
          i
          path
          (overwrite position piece content)
          rest
          shared
          ((bytes + want) % 2 ^ 64)
          w
  unfolding part_loop
  part_loop-Ends fuel i path content [] rest position zero w shared bytes enough small same fits
        size more =
      let stays : bytes ≡ (bytes + 0) % 2 ^ 64 = omega (arith, small) in
      (
        w,
        ap (λ n. some (ok tt, thread w shared n)) stays,
        same ∙ ap some (sym (overwrite_nothing position content)),
        more,
        λ j h. refl,
      )
  part_loop-Ends fuel i path content (c ∷ piece) rest position zero w shared bytes enough small same
        fits size more =
      absurd (omega arith)
  part_loop-Ends zero i path content piece rest position (suc want) w shared bytes enough small same
        fits size more =
      absurd (omega arith)
  part_loop-Ends (suc fuel) i path content piece rest position (suc want) w shared bytes enough
        small same fits size more =
      let wanted : suc want ≤ length (view.pending i w) =
        subst (λ x. suc want ≤ length x) (sym more)
          (omega (arith, length-append piece rest, size)) in
      let (front, w₁, round, pos, few, split, others, written) =
        part_round_lem files receive_into view works i part_cut path content position (suc want) w
          shared bytes (omega arith) same fits wanted in
      let (back, whole, behind) =
        split_prefix piece rest front (view.pending i w₁) (sym more ∙ split)
          (omega (arith, few, size)) in
      let lengths : length piece ≡ length front + length back =
        ap length whole ∙ length-append front back in
      let (w₂, e, content₂, pending₂, others₂) =
        part_loop-Ends fuel i path (overwrite position front content) back rest
          (position + length front) (suc want - length front) w₁ shared
          ((bytes + length front) % 2 ^ 64) (omega (arith, enough, pos)) (omega arith) written
          (omega (arith, fits, few, length-overwrite position front content))
          (omega (arith, lengths, size)) behind in
      let counted : ((bytes + length front) % 2 ^ 64 + (suc want - length front)) % 2 ^ 64
          ≡ (bytes + suc want) % 2 ^ 64 =
        omega (arith, few) in
      (
        w₂,
        >>=-ok (part_round files (receive_into i) part_cut path position (suc want)) _
              (thread w shared bytes) round
            ∙ e
            ∙ ap (λ n. some (ok tt, thread w₂ shared n)) counted,
        content₂
            ∙ ap some (
                overwrite-append position front back content
                ∙ ap (λ x. overwrite position x content) (sym whole)),
        pending₂,
        λ j h. others₂ j h ∙ others j h,
      )

  -- The output that a part finds: none yet, so that it will make one of zeros, or the one that an earlier
  -- part of the same file has claimed, of the length that the header says.
  pub data Finds (output_dir name : Text) (total : ℕ) (shared : ReceiveSharedState) (w : W)
      : Text → Text → ReceiveSharedState → Type 0 where
    first :
        shared.initialized ≡ false
        → Finds output_dir name total shared w
            (files.join output_dir name)
            (replicate total 0)
            (record {
              initialized = true;
              output_path = files.join output_dir name;
              file_name = name;
              total_size = total;
            })
    later :
        (content : Text)
        → shared.initialized ≡ true
        → shared.file_name ≡ name
        → shared.total_size ≡ total
        → view.contents shared.output_path w ≡ some content
        → length content ≡ total
        → Finds output_dir name total shared w shared.output_path content shared

  Finds-Begins :
      (i : ℕ) (output_dir name path content : Text) (incoming : IncomingHeader) (w : W)
      (shared shared' : ReceiveSharedState) (bytes : ℕ)
      → safe_file_name incoming.file_name ≡ ok name
      → incoming.offset + incoming.payload_size ≤ incoming.total_size
      → incoming.total_size < 2 ^ 64
      → Finds output_dir name incoming.total_size shared w path content shared'
      → Begins files receive_into view works
          (begin_part files (receive_into i) output_dir incoming (thread w shared bytes))
          path
          shared'
          bytes
          content
          w
        × (length content ≡ incoming.total_size)
  unfolding claims
  Finds-Begins i output_dir name path content incoming w shared shared' bytes safe within small
        (first h) =
      let named = record incoming { file_name = name } in
      let (w₁, e, zeros, kept) =
        claim_first files receive_into view works output_dir named w shared h in
      (
        begin_part-Begins files receive_into view works i output_dir name _ _ incoming w w₁ shared _
            bytes safe within small e zeros kept,
        length-replicate incoming.total_size 0,
      )
  Finds-Begins i output_dir name path content incoming w shared shared' bytes safe within small
        (later found h n t same size) =
      let named = record incoming { file_name = name } in
      (
        begin_part-Begins files receive_into view works i output_dir name _ _ incoming w w shared _
            bytes safe within small
            (claim_later files receive_into view works output_dir named w shared h n t) same
            (λ j. refl),
        size,
      )

  part_outside :
      (i : ℕ) (output_dir name : Text) (incoming : IncomingHeader) (t : Thread W)
      → safe_file_name incoming.file_name ≡ ok name
      → ltb incoming.total_size ((incoming.offset + incoming.payload_size) % 2 ^ 64) ≡ true
      → receive_part files (receive_into i) output_dir incoming t ≡ some (err bad_range, t)
  unfolding receive_part begin_part
  part_outside i output_dir name incoming t safe outside =
      >>=-err (begin_part files (receive_into i) output_dir incoming) _ t
        (lifts (safe_file_name incoming.file_name) _ t safe ∙ rw outside refl)

  receive_part_steps :
      (i : ℕ) (output_dir : Text) (incoming : IncomingHeader) (t : Thread W) {path : Text}
      {t' : Thread W}
      → begin_part files (receive_into i) output_dir incoming t ≡ some (ok path, t')
      → receive_part files (receive_into i) output_dir incoming t
        ≡ part_loop files
            (receive_into i)
            part_cut
            incoming.payload_size
            path
            incoming.offset
            incoming.payload_size
            t'
  unfolding receive_part
  receive_part_steps i output_dir incoming t e =
      >>=-ok (begin_part files (receive_into i) output_dir incoming) _ t e

  -- While no call fails, for a header with a safe name, a total size and an end of the range that are below
  -- 2 ^ 64, with the bytes of the range to come on the session, fewer than 2 ^ 64 bytes counted so far, and
  -- either no output claimed yet or one that exists, for the same name and total size and of that length:
  -- a part either lies outside the file, and then ends with that error before anything changes, or it
  -- lies inside. Then the code of the part returns, the range of the file has become the bytes of the
  -- range and the rest of the file is as the part found it (zeros, if it was the first), the bytes are
  -- counted in 64 bits, and what follows them on the session and on the other sessions is still to come.
  pub receive_part-Ends :
      (i : ℕ) (output_dir name path content piece rest : Text) (incoming : IncomingHeader) (w : W)
      (shared shared' : ReceiveSharedState) (bytes : ℕ)
      → safe_file_name incoming.file_name ≡ ok name
      → incoming.offset + incoming.payload_size < 2 ^ 64
      → incoming.total_size < 2 ^ 64
      → bytes < 2 ^ 64
      → Finds output_dir name incoming.total_size shared w path content shared'
      → length piece ≡ incoming.payload_size
      → view.pending i w ≡ piece ++ rest
      → ((incoming.total_size < incoming.offset + incoming.payload_size)
          × (receive_part files (receive_into i) output_dir incoming (thread w shared bytes)
              ≡ some (err bad_range, thread w shared bytes)))
        ⊎ ((incoming.offset + incoming.payload_size ≤ incoming.total_size)
            × Ends
                (receive_part files (receive_into i) output_dir incoming (thread w shared bytes))
                i
                path
                (take incoming.offset content
                  ++ (piece ++ drop (incoming.offset + incoming.payload_size) content))
                rest
                shared'
                ((bytes + incoming.payload_size) % 2 ^ 64)
                w)
  receive_part-Ends i output_dir name path content piece rest incoming w shared shared' bytes safe
        range total small finds size more =
      elim (Bool-cases
        (ltb incoming.total_size ((incoming.offset + incoming.payload_size) % 2 ^ 64))) [
          | inl outside ↦ inl (
            ground (arith, outside, range),
            part_outside i output_dir name incoming (thread w shared bytes) safe outside,
          )
          | inr inside ↦
              let within : incoming.offset + incoming.payload_size ≤ incoming.total_size =
                ground (arith, inside, range) in
              inr (within, copied within)
        ]
    where
      copied :
          incoming.offset + incoming.payload_size ≤ incoming.total_size
          → Ends
              (receive_part files (receive_into i) output_dir incoming (thread w shared bytes))
              i
              path
              (take incoming.offset content
                ++ (piece ++ drop (incoming.offset + incoming.payload_size) content))
              rest
              shared'
              ((bytes + incoming.payload_size) % 2 ^ 64)
              w
      copied within =
          let ((w₁, e, same, kept), long) =
            Finds-Begins i output_dir name path content incoming w shared shared' bytes safe within
              total finds in
          let (w₂, e₂, content₂, pending₂, others₂) =
            part_loop-Ends incoming.payload_size i path content piece rest incoming.offset
              incoming.payload_size w₁ shared' bytes (omega arith) small same
              (omega (arith, within, long)) size (kept i ∙ more) in
          let spliced = splice incoming.offset piece content (omega (arith, within, long, size)) in
          (
            w₂,
            receive_part_steps i output_dir incoming (thread w shared bytes) e ∙ e₂,
            content₂
                ∙ ap some (
                    spliced
                    ∙ ap
                        (λ n.
                          take incoming.offset content
                          ++ (piece ++ drop (incoming.offset + n) content))
                        size),
            pending₂,
            λ j h. others₂ j h ∙ kept j,
          )
