-- ===== src/FileTransfer/Output/Interleaving.antt =====
-- Whatever the order of their turns, the threads of the streams put one file together.
use hyper_link.Base.{
  ℕ, suc, ◌+◌, ◌-◌, ◌≤◌, ◌<◌, ◌^◌, ◌≡◌, ◌≢◌, refl, sym, ap, subst, ◌∙◌, arith, true, false,
  Bool-cases, Option, none, some, inl, inr, List, [], ◌∷◌, Text, All, length, take, drop, ◌==◌,
  ==_iff, ltb, if◌then◌else◌, ok,
}
use mathlib.Core.Path.{ap₂}
use hyper_link.Base.Program.{Program}
use hyper_link.FileTransfer.{file, file_part}
use hyper_link.FileTransfer.Names.{safe_file_name}
use hyper_link.FileTransfer.Streams.Ranges.{byte_range-within, byte_range-owner}
use hyper_link.FileTransfer.Receive.{IncomingHeader}
use hyper_link.FileTransfer.Streams.{byte_range_for_stream}
use hyper_link.FileTransfer.Output.{Files}
use hyper_link.FileTransfer.Output.Overwrite.{Agrees, Agrees-≡}
use hyper_link.FileTransfer.Output.Turns.{View, Works}
use hyper_link.FileTransfer.Output.Reassembly.{
  Good, Good_grows, SharedOk, Describes, measure, target, take_turn,
}
use hyper_link.FileTransfer.Output.Schedule.{
  Phase, waiting, copying, finished, failed, Worker, Receiver, update, advance, run_turns,
  new_receiver, turns_of,
}

turns_of_own : (i : ℕ) (turns : List ℕ) → turns_of i (i ∷ turns) ≡ suc (turns_of i turns)
unfolding turns_of
turns_of_own i turns = let own : (i == i) ≡ true = (==_iff i i).1 refl in rw own refl

turns_of_other : (i j : ℕ) (turns : List ℕ) → j ≢ i → turns_of j (i ∷ turns) ≡ turns_of j turns
unfolding turns_of
turns_of_other i j turns h = let other : (i == j) ≡ false = ground (arith, h) in rw other refl

module _ {W : Type 0} (files : Files W) (receive_into : ℕ → ℕ → Program W Text) (view : View W)
    (works : Works files receive_into view) (output_dir name payload : Text)
    (small : length payload < 2 ^ 64) (incoming : ℕ → IncomingHeader) (streams : ℕ)
    (describes : (i : ℕ) → i < streams → Describes name payload (incoming i)) where
  path : Text
  path = target files receive_into view works output_dir name payload small

  record Sound (r : Receiver W) (o : Option Text) : Type 0 where
    shared_ok : SharedOk path name payload view r.shared r.world o
    all_good :
        (j : ℕ)
        → j < streams
        → Good path name payload
            (incoming j)
            (r.workers j).phase
            (r.workers j).bytes
            (view.pending j r.world)
            o

  record Advanced (i : ℕ) (r : Receiver W) : Type 0 where
    after : Receiver W
    content : Option Text
    advances : advance files output_dir receive_into i r ≡ some after
    sound : Sound after content
    own_less : measure (after.workers i).phase ≤ measure (r.workers i).phase - 1
    others_same : (j : ℕ) → j ≢ i → (after.workers j).phase ≡ (r.workers j).phase

  advance-Sound :
      (i : ℕ) (r : Receiver W) (o : Option Text) → i < streams → Sound r o → Advanced i r
  unfolding advance path
  advance-Sound i r o in_range s =
      let worker = r.workers i in
      let t =
        take_turn files receive_into view works output_dir name payload small i (incoming i)
          worker.phase worker.bytes r.world r.shared o (describes i in_range) s.shared_ok
          (s.all_good i in_range) in
      let moved : Worker = record { phase = t.next; bytes = t.bytes } in
      let own : (i == i) ≡ true = (==_iff i i).1 refl in
      record {
        after = record { world = t.world; shared = t.claimed; workers = update r.workers i moved };
        content = t.content;
        advances = rw (advance, t.turns) refl;
        sound = record {
          shared_ok = t.agreed;
          all_good = λ j k. elim (Bool-cases (j == i)) [
            | inl same ↦
                let at : j ≡ i = (==_iff j i).0 same in
                subst
                  (λ x.
                    Good path name payload (incoming x) (update r.workers i moved x).phase
                      (update r.workers i moved x).bytes (view.pending x t.world) t.content)
                  (sym at) (rw own t.good)
            | inr other ↦
                let apart : j ≢ i = λ at. absurd (ground (arith, other, at)) in
                rw (other, t.others j apart)
                  (Good_grows path name payload (incoming j) (r.workers j).phase (r.workers j).bytes
                    (view.pending j r.world) o t.content t.grows (s.all_good j k))
          ];
        };
        own_less = rw own t.less;
        others_same = λ j h. let other : (j == i) ≡ false = ground (arith, h) in rw other refl;
      }

  -- Each thread has enough turns left.
  abbrev Enough : List ℕ → Receiver W → Type 0
  Enough turns r = (j : ℕ) → j < streams → measure (r.workers j).phase ≤ turns_of j turns

  record Ended (turns : List ℕ) (r : Receiver W) : Type 0 where
    final : Receiver W
    content : Option Text
    runs : run_turns files output_dir receive_into turns r ≡ some final
    sound : Sound final content
    at_rest : (j : ℕ) → j < streams → measure (final.workers j).phase ≡ 0

  run_turns-Sound :
      (turns : List ℕ) (r : Receiver W) (o : Option Text)
      → All (λ i. i < streams) turns
      → Enough turns r
      → Sound r o
      → Ended turns r
  unfolding run_turns
  run_turns-Sound [] r o _ enough s = record {
    final = r;
    content = o;
    runs = refl;
    sound = s;
    at_rest = λ j k. unfold turns_of in omega (arith, enough j k);
  }
  run_turns-Sound (i ∷ turns) r o (in_range, all_in_range) enough s =
      let a = advance-Sound i r o in_range s in
      let still : Enough turns a.after = λ j k. elim (Bool-cases (j == i)) [
        | inl same ↦
            let at : j ≡ i = (==_iff j i).0 same in
            subst (λ x. measure (a.after.workers x).phase ≤ turns_of x turns) (sym at)
              (omega (arith, a.own_less, enough i in_range, turns_of_own i turns))
        | inr other ↦
            let apart : j ≢ i = λ at. absurd (ground (arith, other, at)) in
            omega (
              arith,
              enough j k,
              turns_of_other i j turns apart,
              ap measure (a.others_same j apart),
            )
      ] in
      let e = run_turns-Sound turns a.after a.content all_in_range still a.sound in
      record {
        final = e.final;
        content = e.content;
        runs = rw (run_turns, a.advances) e.runs;
        sound = e.sound;
        at_rest = e.at_rest;
      }

  abbrev Written : IncomingHeader → Option Text → Type 0
  Written h none = ⊥
  Written h (some c) = Agrees h.offset (h.offset + h.payload_size) c payload

  -- What a thread at rest has done.
  finished_part :
      (h : IncomingHeader) (phase : Phase) (b : ℕ) (pend : Text) (o : Option Text)
      → Good path name payload h phase b pend o
      → measure phase ≡ 0
      → (phase ≡ finished) × (b ≡ h.payload_size) × Written h o
  unfolding measure
  finished_part h (waiting h') b pend o good e = absurd (omega arith)
  finished_part h (copying p pos want) b pend o good e = absurd (omega arith)
  finished_part h finished b pend none good e = absurd good
  finished_part h finished b pend (some c) (done, agrees) e = (refl, done, agrees)
  finished_part h (failed error) b pend o good e = absurd good

  Covers : Type 0
  Covers =
      (k : ℕ)
      → k < length payload
      → (i : ℕ) × (i < streams)
        × ((incoming i).offset ≤ k)
        × (k < (incoming i).offset + (incoming i).payload_size)

  part_at :
      (r : Receiver W) (o : Option Text) (i : ℕ)
      → Sound r o
      → measure (r.workers i).phase ≡ 0
      → i < streams
      → ((r.workers i).phase ≡ finished)
        × ((r.workers i).bytes ≡ (incoming i).payload_size)
        × Written (incoming i) o
  part_at r o i s rest k =
      finished_part (incoming i) (r.workers i).phase (r.workers i).bytes (view.pending i r.world) o
        (s.all_good i k) rest

  contents_whole :
      (r : Receiver W) (o : Option Text)
      → 0 < streams
      → Covers
      → ((i : ℕ) → i < streams → measure (r.workers i).phase ≡ 0)
      → Sound r o
      → view.contents path r.world ≡ some payload
  unfolding Covers
  contents_whole r none pos covers rest s = absurd (part_at r none 0 s (rest 0 pos) pos).2
  contents_whole r (some c) pos covers rest s =
      let (_, _, _, _, same, long) = s.shared_ok in
      same
      ∙ ap some (
          Agrees-≡ c payload long (λ k l u.
            let (i, at, from, to) = covers k u in
            (part_at r (some c) i s (rest i at) at).2 k from to))

  run_turns-contents :
      (turns : List ℕ) (w : W)
      → 0 < streams
      → Covers
      → ((i : ℕ)
          → i < streams
          → view.pending i w ≡ take (incoming i).payload_size (drop (incoming i).offset payload))
      → All (λ i. i < streams) turns
      → ((i : ℕ) → i < streams → (incoming i).payload_size + 2 ≤ turns_of i turns)
      → (final : Receiver W) × (run_turns files output_dir receive_into turns
            (new_receiver incoming w)
          ≡ some final)
        × (view.contents path final.world ≡ some payload)
        × ((i : ℕ)
            → i < streams
            → final.workers i ≡ record { phase = finished; bytes = (incoming i).payload_size })
  run_turns-contents turns w pos covers pending in_range enough =
      let r = new_receiver incoming w in
      let started : Sound r none = record {
        shared_ok = refl;
        all_good = λ j k. (refl, refl, pending j k);
      } in
      let e = run_turns-Sound turns r none in_range (unfold measure in enough) started in
      (
        e.final,
        e.runs,
        contents_whole e.final e.content pos covers e.at_rest e.sound,
        λ i k.
            let (done, counted, _) = part_at e.final e.content i e.sound (e.at_rest i k) k in
            ap₂ (λ phase bytes. record { phase = phase; bytes = bytes }) done counted,
      )

-- What a thread of `run_send` says in its header, for its byte range.
unfoldable pub sent_header : Text → ℕ → ℕ → ℕ → IncomingHeader
sent_header name total streams i = record {
  kind = if ltb 1 streams then file_part else file;
  payload_size = (byte_range_for_stream total i streams).1;
  name_size = length name;
  offset = (byte_range_for_stream total i streams).0;
  total_size = total;
  file_name = name;
}

-- For a file of fewer than 2 ^ 64 bytes with a safe name, at least one stream, headers and bytes as
-- the sender's threads send them, and calls of the system that do not fail: in whatever order the receiver's threads take their turns,
-- if each has as many as its bytes and two more, all of them finish with their bytes counted, and
-- the file that was claimed holds the bytes of the file that was sent.
pub parts_reassemble :
    {W : Type 0} (files : Files W) (receive_into : ℕ → ℕ → Program W Text) (view : View W)
    (output_dir name payload : Text) (streams : ℕ) (turns : List ℕ) (w : W)
    → Works files receive_into view
    → safe_file_name name ≡ ok name
    → length payload < 2 ^ 64
    → 0 < streams
    → ((i : ℕ)
        → i < streams
        → view.pending i w
          ≡ take
              (byte_range_for_stream (length payload) i streams).1
              (drop (byte_range_for_stream (length payload) i streams).0 payload))
    → All (λ i. i < streams) turns
    → ((i : ℕ)
        → i < streams
        → (byte_range_for_stream (length payload) i streams).1 + 2 ≤ turns_of i turns)
    → (final : Receiver W) × (run_turns files output_dir receive_into turns
          (new_receiver (sent_header name (length payload) streams) w)
        ≡ some final)
      × (view.contents (files.join output_dir name) final.world ≡ some payload)
      × ((i : ℕ)
          → i < streams
          → final.workers i ≡ record {
            phase = finished;
            bytes = (byte_range_for_stream (length payload) i streams).1;
          })
unfolding sent_header path target Covers
parts_reassemble files receive_into view output_dir name payload streams turns w works safe small
      pos pending in_range enough =
    let describes : (i : ℕ)
        → i < streams
        → Describes name payload (sent_header name (length payload) streams i) =
      λ i k. record {
        safe = safe;
        total = refl;
        within = byte_range-within (length payload) i streams small k;
      } in
    run_turns-contents files receive_into view works output_dir name payload small
      (sent_header name (length payload) streams) streams describes turns w pos
      (λ k u. byte_range-owner (length payload) streams k small pos u) pending in_range enough
