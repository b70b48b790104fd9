-- ===== src/FileTransfer/Send/Range.antt =====
-- What `send_file_range` puts on the wire, and what the receiver's thread makes of it.
use hyper_link.Base.{
  ℕ, zero, suc, ◌+◌, ◌-◌, ◌≤◌, ◌<◌, ◌^◌, min, ◌≡◌, refl, sym, ap, ◌∙◌, arith, Option, some, [], ◌∷◌,
  ◌++◌, append_assoc, append-nil, Text, length, drop-drop, take-add, take, drop, ltb, if◌then◌else◌,
  Result, ok,
}
use hyper_link.Base.Program.{Program, ◌>>◌, >>=-ok}
use hyper_link.FileTransfer.{file, file_part, chunk_bytes}
use hyper_link.FileTransfer.Wire.{make_header}
use hyper_link.FileTransfer.Send.{
  Inputs, send_all, read_piece, send_loop, send_range, on_world, count,
}

-- What the sender's thread works on: files, and the bytes that it has sent.
pub record Outgoing (W : Type 0) : Type 0 where
  pub contents : Text → W → Option Text
  pub wire : W → Text

module _ {W : Type 0} (inputs : Inputs W) (send : Text → Program W ℕ) (view : Outgoing W) where
  -- The behaviour of the calls while none fails: a session sends all of the payload, and a
  -- read within a file returns some of the bytes at the position. Neither changes a file.
  pub record Transmits : Type 0 where
    pub sends :
        (payload : Text) (w : W)
        → (w' : W) × (send payload w ≡ some (ok (length payload), w'))
          × (view.wire w' ≡ view.wire w ++ payload)
          × ((path : Text) → view.contents path w' ≡ view.contents path w)
    pub reads :
        (path content : Text) (position n : ℕ) (w : W)
        → view.contents path w ≡ some content
        → position < length content
        → 0 < n
        → (b : ℕ) × (piece : Text) × (w' : W) × (inputs.read path position n w ≡ (b ∷ piece, w'))
          × (length (b ∷ piece) ≤ n)
          × (take (length (b ∷ piece)) (drop position content) ≡ b ∷ piece)
          × (view.wire w' ≡ view.wire w)
          × ((path' : Text) → view.contents path' w' ≡ view.contents path' w)

module _ {W : Type 0} (inputs : Inputs W) (send : Text → Program W ℕ) (view : Outgoing W)
    (transmits : Transmits inputs send view) where
  -- The program goes on, with bytes on the wire behind those that were there, and the files as they were.
  pub record Sent (outcome : Option (Result (Unit {0}) × (W × ℕ))) (bytes : ℕ) (payload : Text)
      (w : W) : Type 0 where
    pub world : W
    pub goes_on : outcome ≡ some (ok tt, (world, bytes))
    pub on_wire : view.wire world ≡ view.wire w ++ payload
    pub files_kept : (path : Text) → view.contents path world ≡ view.contents path w

  pub send_all-Sent :
      (payload : Text) (w : W) (bytes : ℕ)
      → Sent (send_all inputs send payload (w, bytes)) bytes payload w
  unfolding send_all
  send_all-Sent payload w bytes =
      let (w', e, sent, kept) = transmits.sends payload w in
      let sending : on_world (send payload) (w, bytes) ≡ some (ok (length payload), (w', bytes)) =
        rw (on_world, e) refl in
      record {
        world = w';
        goes_on = >>=-ok (on_world (send payload)) _ (w, bytes) sending;
        on_wire = sent;
        files_kept = kept;
      }

  -- Two programs, one after the other.
  pub then-Sent :
      (m k : Program (W × ℕ) (Unit {0})) (w : W) (b b' b'' : ℕ) (payload rest : Text)
      (first : Sent (m (w, b)) b' payload w)
      → Sent (k (first.world, b')) b'' rest first.world
      → Sent ((m >> k) (w, b)) b'' (payload ++ rest) w
  then-Sent m k w b b' b'' payload rest first second = record {
    world = second.world;
    goes_on = >>=-ok m (λ _. k) (w, b) first.goes_on ∙ second.goes_on;
    on_wire =
        second.on_wire
        ∙ (ap (λ t. t ++ rest) first.on_wire ∙ append_assoc (view.wire w) payload rest);
    files_kept = λ path. second.files_kept path ∙ first.files_kept path;
  }

  count-Sent : (n : ℕ) (w : W) (b : ℕ) → b + n < 2 ^ 64 → Sent (count n (w, b)) (b + n) [] w
  unfolding count
  count-Sent n w b h = record {
    world = w;
    goes_on = ap (λ c. some (ok tt, (w, c))) (omega (arith, h));
    on_wire = sym (append-nil (view.wire w));
    files_kept = λ path. refl;
  }

  pub send_loop-Sent :
      (fuel : ℕ) (path content : Text) (position want : ℕ) (w : W) (b : ℕ)
      → want ≤ fuel
      → view.contents path w ≡ some content
      → position + want ≤ length content
      → b + want < 2 ^ 64
      → Sent
          (send_loop inputs send fuel path position want (w, b))
          (b + want)
          (take want (drop position content))
          w
  unfolding send_loop read_piece
  send_loop-Sent fuel path content position zero w b h e fits small = record {
    world = w;
    goes_on = ap (λ c. some (ok tt, (w, c))) (omega arith);
    on_wire = sym (append-nil (view.wire w));
    files_kept = λ p. refl;
  }
  send_loop-Sent zero path content position (suc want) w b h e fits small = absurd (omega arith)
  send_loop-Sent (suc fuel) path content position (suc want) w b h e fits small =
      let (c, piece, w₁, r, short, same, wire_kept, kept) =
        transmits.reads path content position (min (suc want) chunk_bytes) w e (omega (arith, fits))
          (omega arith) in
      let n = length (c ∷ piece) in
      let less : n ≤ suc want = omega (arith, short) in
      let first = send_all-Sent (c ∷ piece) w₁ b in
      let counted = count-Sent n first.world b (omega (arith, less, small)) in
      let both =
        then-Sent (send_all inputs send (c ∷ piece)) (count n) w₁ b b (b + n) (c ∷ piece) [] first
          counted in
      let later =
        send_loop-Sent fuel path content (position + n) (suc want - n) both.world (b + n)
          (omega (arith, less, h)) (both.files_kept path ∙ (kept path ∙ e))
          (omega (arith, fits, less)) (omega (arith, small, less)) in
      let left = suc want - n in
      let sum : n + left ≡ suc want = omega (arith, less) in
      let total : b + n + left ≡ b + suc want = omega (arith, less) in
      let rest = take left (drop (position + n) content) in
      let all =
        then-Sent (send_all inputs send (c ∷ piece) >> count n)
          (send_loop inputs send fuel path (position + n) left) w₁ b (b + n) (b + n + left)
          ((c ∷ piece) ++ []) rest both later in
      let text : ((c ∷ piece) ++ []) ++ rest ≡ take (suc want) (drop position content) =
        ap (λ t. t ++ rest) (append-nil (c ∷ piece) ∙ sym same)
        ∙ (ap (λ t. take n (drop position content) ++ take left t)
              (sym (drop-drop position n content))
            ∙ (take-add n left (drop position content)
                ∙ ap (λ m. take m (drop position content)) sum)) in
      record {
        world = all.world;
        goes_on = rw (send_loop, r) (all.goes_on ∙ ap (λ m. some (ok tt, (all.world, m))) total);
        on_wire =
            all.on_wire
            ∙ (ap (λ t. t ++ (((c ∷ piece) ++ []) ++ rest)) wire_kept
                ∙ ap (◌++◌ (view.wire w)) text);
        files_kept = λ p. all.files_kept p ∙ kept p;
      }

  -- A range within a file: the header, the name, and the bytes of the range.
  pub send_range-Sent :
      (parallel : ℕ) (path content name : Text) (offset size : ℕ) (w : W)
      → view.contents path w ≡ some content
      → offset + size ≤ length content
      → length content < 2 ^ 64
      → Sent
          (send_range inputs send parallel path name (length content) offset size (w, 0))
          size
          (make_header
              (if ltb 1 parallel then file_part else file)
              size
              (length name)
              offset
              (length content)
            ++ name
            ++ take size (drop offset content))
          w
  unfolding send_range
  send_range-Sent parallel path content name offset size w e fits small =
      let header =
        make_header (if ltb 1 parallel then file_part else file) size (length name) offset
          (length content) in
      let first = send_all-Sent header w 0 in
      let named = send_all-Sent name first.world 0 in
      let both =
        then-Sent (send_all inputs send header) (send_all inputs send name) w 0 0 0 header name
          first named in
      let loop =
        send_loop-Sent size path content offset size both.world 0 (omega arith)
          (both.files_kept path ∙ e) fits (omega (arith, fits, small)) in
      let all =
        then-Sent (send_all inputs send header >> send_all inputs send name)
          (send_loop inputs send size path offset size) w 0 0 (0 + size) (header ++ name)
          (take size (drop offset content)) both loop in
      record {
        world = all.world;
        goes_on = all.goes_on ∙ ap (λ m. some (ok tt, (all.world, m))) (omega arith);
        on_wire = all.on_wire;
        files_kept = all.files_kept;
      }
