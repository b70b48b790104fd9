-- ===== src/FileTransfer/Output/Reassembly.antt =====
-- Threads that write their parts of one file in any order put the file together.
use hyper_link.Base.{
  ℕ, zero, suc, ◌+◌, ◌-◌, ◌≤◌, ◌<◌, ◌^◌, ◌%◌, ◌≡◌, ◌≢◌, refl, sym, ap, subst, ◌∙◌, arith, true,
  false, Option, none, some, Text, replicate, length-replicate, length, length-take, length-drop,
  drop-drop, take, drop, ok,
}
use hyper_link.Base.Program.{Program, >>=-ok}
use hyper_link.FileTransfer.Names.{safe_file_name}
use hyper_link.FileTransfer.Receive.{IncomingHeader}
use hyper_link.FileTransfer.Output.{
  Files, ReceiveSharedState, claims, begin_part, part_round, part_cut,
}
use hyper_link.FileTransfer.Output.Overwrite.{
  overwrite, length-overwrite, Agrees, overwrite-Agrees, overwrite-Agrees_piece, cut_piece,
}
use hyper_link.FileTransfer.Output.Turns.{
  View, Works, begin_part-Begins, claim_first, claim_later, part_round_lem,
}
use hyper_link.FileTransfer.Output.Schedule.{Phase, waiting, copying, finished, failed, turn}

module _ (path name payload : Text) where
  -- What a thread has done so far, for the content of the file once it is created.
  abbrev pub Good : IncomingHeader → Phase → ℕ → Text → Option Text → Type 0
  Good h (waiting h') b pend o =
      (h' ≡ h) × (b ≡ 0) × (pend ≡ take h.payload_size (drop h.offset payload))
  Good h (copying p pos want) b pend none = ⊥
  Good h (copying p pos want) b pend (some c) =
      (p ≡ path)
      × (pos ≡ h.offset + b)
      × (b + want ≡ h.payload_size)
      × (pend ≡ take want (drop pos payload))
      × Agrees h.offset pos c payload
  Good h finished b pend none = ⊥
  Good h finished b pend (some c) =
      (b ≡ h.payload_size) × Agrees h.offset (h.offset + h.payload_size) c payload
  Good h (failed error) b pend o = ⊥

  -- What agrees with the payload still does.
  abbrev pub Grows : Option Text → Option Text → Type 0
  Grows none o = Unit {0}
  Grows (some c) none = ⊥
  Grows (some c) (some c') = (lo hi : ℕ) → Agrees lo hi c payload → Agrees lo hi c' payload

  pub Good_grows :
      (h : IncomingHeader) (phase : Phase) (b : ℕ) (pend : Text) (o o' : Option Text)
      → Grows o o'
      → Good h phase b pend o
      → Good h phase b pend o'
  Good_grows h (waiting h') b pend o o' grows good = good
  Good_grows h (copying p pos want) b pend none o' grows good = absurd good
  Good_grows h (copying p pos want) b pend (some c) none grows good = absurd grows
  Good_grows h (copying p pos want) b pend (some c) (some c') grows (e, f, g, k, a) =
      (e, f, g, k, grows h.offset pos a)
  Good_grows h finished b pend none o' grows good = absurd good
  Good_grows h finished b pend (some c) none grows good = absurd grows
  Good_grows h finished b pend (some c) (some c') grows (e, a) =
      (e, grows h.offset (h.offset + h.payload_size) a)
  Good_grows h (failed error) b pend o o' grows good = good

  pub Grows-refl : (o : Option Text) → Grows o o
  Grows-refl none = tt
  Grows-refl (some c) = λ lo hi a. a

  module _ {W : Type 0} (view : View W) where
    abbrev pub SharedOk : ReceiveSharedState → W → Option Text → Type 0
    SharedOk shared w none = shared.initialized ≡ false
    SharedOk shared w (some c) =
        (shared.initialized ≡ true)
        × (shared.output_path ≡ path)
        × (shared.file_name ≡ name)
        × (shared.total_size ≡ length payload)
        × (view.contents path w ≡ some c)
        × (length c ≡ length payload)

-- The part that a header describes lies in the file.
pub record Describes (name payload : Text) (h : IncomingHeader) : Type 0 where
  pub safe : safe_file_name h.file_name ≡ ok name
  pub total : h.total_size ≡ length payload
  pub within : h.offset + h.payload_size ≤ length payload

-- How many turns a thread needs at most.
unfoldable pub measure : Phase → ℕ
measure (waiting h) = h.payload_size + 2
measure (copying path position want) = want + 1
measure finished = 0
measure (failed error) = 0

module _ {W : Type 0} (files : Files W) (receive_into : ℕ → ℕ → Program W Text) (view : View W)
    (works : Works files receive_into view) (output_dir name payload : Text)
    (small : length payload < 2 ^ 64) where
  unfoldable pub target : Text
  target = files.join output_dir name

  pub record Turned (i : ℕ) (h : IncomingHeader) (phase : Phase) (b : ℕ) (w : W)
      (shared : ReceiveSharedState) (o : Option Text) : Type 0 where
    pub next : Phase
    pub bytes : ℕ
    pub world : W
    pub claimed : ReceiveSharedState
    pub content : Option Text
    pub turns :
        turn files output_dir receive_into i phase
          (record { world = w; shared = shared; bytes = b })
        ≡ some (ok next, record { world = world; shared = claimed; bytes = bytes })
    pub agreed : SharedOk target name payload view claimed world content
    pub good : Good target name payload h next bytes (view.pending i world) content
    pub grows : Grows target name payload o content
    pub others : (j : ℕ) → j ≢ i → view.pending j world ≡ view.pending j w
    pub less : measure next ≤ measure phase - 1

  -- A thread that begins finds the output claimed, or claims it.
  begin_turn :
      (i : ℕ) (h : IncomingHeader) (w : W) (shared : ReceiveSharedState) (o : Option Text)
      → Describes name payload h
      → SharedOk target name payload view shared w o
      → view.pending i w ≡ take h.payload_size (drop h.offset payload)
      → Turned i h (waiting h) 0 w shared o
  unfolding target turn measure
  begin_turn i h w shared none d ok_shared pend =
      let named = record h { file_name = name } in
      let (w₁, claimed, zeros, kept) =
        claim_first files receive_into view works output_dir named w shared ok_shared in
      let (w₂, e, same, kept') =
        begin_part-Begins files receive_into view works i output_dir name
          (files.join output_dir name) (replicate h.total_size 0) h w w₁ shared
          (claims files output_dir named) 0 d.safe (omega (arith, d.within, d.total))
          (omega (arith, d.total, small)) claimed zeros kept in
      record {
        next = copying (files.join output_dir name) h.offset h.payload_size;
        bytes = 0;
        world = w₂;
        claimed = claims files output_dir named;
        content = some (replicate h.total_size 0);
        turns = >>=-ok (begin_part files (receive_into i) output_dir h) _ _ e;
        agreed =
            unfold claims in
            (refl, refl, refl, d.total, same, length-replicate h.total_size 0 ∙ d.total);
        good = (refl, omega arith, omega arith, kept' i ∙ pend, λ k l u. absurd (omega arith));
        grows = tt;
        others = λ j e. kept' j;
        less = omega arith;
      }
  begin_turn i h w shared (some c) d (set, at_target, named_so, whole, same, long) pend =
      let named = record h { file_name = name } in
      let claimed =
        claim_later files receive_into view works output_dir named w shared set named_so
          (whole ∙ sym d.total) in
      let here : view.contents shared.output_path w ≡ some c =
        ap (λ p. view.contents p w) at_target ∙ same in
      let (w₂, e, same', kept) =
        begin_part-Begins files receive_into view works i output_dir name shared.output_path c h w w
          shared shared 0 d.safe (omega (arith, d.within, d.total)) (omega (arith, d.total, small))
          claimed here (λ j. refl) in
      record {
        next = copying shared.output_path h.offset h.payload_size;
        bytes = 0;
        world = w₂;
        claimed = shared;
        content = some c;
        turns = >>=-ok (begin_part files (receive_into i) output_dir h) _ _ e;
        agreed = (
          set,
          at_target,
          named_so,
          whole,
          ap (λ p. view.contents p w₂) (sym at_target) ∙ same',
          long,
        );
        good = (at_target, omega arith, omega arith, kept i ∙ pend, λ k l u. absurd (omega arith));
        grows = λ lo hi a. a;
        others = λ j e. kept j;
        less = omega arith;
      }

  -- A thread that has written all its bytes ends.
  last_turn :
      (i : ℕ) (h : IncomingHeader) (pos b : ℕ) (w : W) (shared : ReceiveSharedState) (c : Text)
      → SharedOk target name payload view shared w (some c)
      → Good target name payload h (copying target pos 0) b (view.pending i w) (some c)
      → Turned i h (copying target pos 0) b w shared (some c)
  unfolding turn measure
  last_turn i h pos b w shared c ok_shared (e, f, g, k, a) = record {
    next = finished;
    bytes = b;
    world = w;
    claimed = shared;
    content = some c;
    turns = refl;
    agreed = ok_shared;
    good = (omega (arith, g), λ k l u. a k l (omega (arith, f, g, u)));
    grows = λ lo hi a. a;
    others = λ j e. refl;
    less = omega arith;
  }

  -- A thread that wants bytes writes the next ones where they belong.
  copy_turn :
      (i : ℕ) (h : IncomingHeader) (pos want b : ℕ) (w : W) (shared : ReceiveSharedState) (c : Text)
      → Describes name payload h
      → SharedOk target name payload view shared w (some c)
      → Good target name payload h (copying target pos (suc want)) b (view.pending i w) (some c)
      → Turned i h (copying target pos (suc want)) b w shared (some c)
  unfolding turn measure
  copy_turn i h pos want b w shared c d (set, at_target, named_so, whole, same, long)
        (e, f, g, k, a) =
      let fits : pos + suc want ≤ length payload = omega (arith, f, g, d.within) in
      let enough : length (take (suc want) (drop pos payload)) ≡ suc want =
        omega (arith, length-take (suc want) (drop pos payload), length-drop pos payload, fits) in
      let more : suc want ≤ length (view.pending i w) = omega (arith, ap length k, enough) in
      let (piece, w', turned, some_bytes, short, split, others, over) =
        part_round_lem files receive_into view works i part_cut target c pos (suc want) w shared b
          (omega arith) same (omega (arith, fits, long)) more in
      let (_, front, behind) =
        cut_piece (suc want) (drop pos payload) piece (view.pending i w') (sym k ∙ split) in
      let inside : pos + length piece ≤ length c = omega (arith, fits, long, short) in
      let n = length piece in
      record {
        next = copying target (pos + n) (suc want - n);
        bytes = (b + n) % 2 ^ 64;
        world = w';
        claimed = shared;
        content = some (overwrite pos piece c);
        turns =
            >>=-ok (part_round files (receive_into i) part_cut target pos (suc want)) _ _ turned;
        agreed = (set, at_target, named_so, whole, over, length-overwrite pos piece c ∙ long);
        good = (
          refl,
          omega (arith, f, g, d.within, small, short),
          omega (arith, f, g, d.within, small, short),
          sym behind ∙ ap (take (suc want - n)) (drop-drop pos n payload),
          overwrite-Agrees_piece pos piece c payload h.offset front inside a,
        );
        grows = λ lo hi a'. overwrite-Agrees pos piece c payload lo hi front inside a';
        others = others;
        less = omega (arith, some_bytes, short);
      }

  pub take_turn :
      (i : ℕ) (h : IncomingHeader) (phase : Phase) (b : ℕ) (w : W) (shared : ReceiveSharedState)
      (o : Option Text)
      → Describes name payload h
      → SharedOk target name payload view shared w o
      → Good target name payload h phase b (view.pending i w) o
      → Turned i h phase b w shared o
  unfolding turn measure
  take_turn i h (waiting h') b w shared o d ok_shared (e, f, g) =
      subst (λ x. Turned i h (waiting x) b w shared o) (sym e)
        (subst (λ x. Turned i h (waiting h) x w shared o) (sym f)
          (begin_turn i h w shared o d ok_shared g))
  take_turn i h (copying p pos want) b w shared none d ok_shared good = absurd good
  take_turn i h (copying p pos zero) b w shared (some c) d ok_shared (e, f, g, k, a) =
      subst (λ x. Turned i h (copying x pos 0) b w shared (some c)) (sym e)
        (last_turn i h pos b w shared c ok_shared (refl, f, g, k, a))
  take_turn i h (copying p pos (suc want)) b w shared (some c) d ok_shared (e, f, g, k, a) =
      subst (λ x. Turned i h (copying x pos (suc want)) b w shared (some c)) (sym e)
        (copy_turn i h pos want b w shared c d ok_shared (refl, f, g, k, a))
  take_turn i h finished b w shared o d ok_shared good = record {
    next = finished;
    bytes = b;
    world = w;
    claimed = shared;
    content = o;
    turns = refl;
    agreed = ok_shared;
    good = good;
    grows = Grows-refl target name payload o;
    others = λ j e. refl;
    less = omega arith;
  }
  take_turn i h (failed error) b w shared o d ok_shared good = absurd good
