-- ===== src/Examples/Parts.antt =====
-- An example of threads that put a file together.
use hyper_link.Base.{
  ℕ, zero, suc, ◌+◌, ◌≤◌, ◌<◌, ◌≡◌, refl, ap, ◌∙◌, arith, true, false, ◌==◌, ==_iff, if◌then◌else◌,
  Option, none, some, List, [], ◌∷◌, ◌++◌, Text, codes, text_eq, text_eq_iff, take, drop, length,
  replicate, ok, err, ◌⊎◌,
}
use hyper_link.Base.Program.{Program}
use hyper_link.FileTransfer.Receive.{IncomingHeader}
use hyper_link.FileTransfer.Names.{safe_file_name, filename, filename_from, is_special}
use hyper_link.FileTransfer.Streams.{byte_range_for_stream}
use hyper_link.FileTransfer.Output.{Files, receive_part, initial_shared, bad_range}
use hyper_link.FileTransfer.Output.Part.{Ends, first, receive_part-Ends}
use hyper_link.FileTransfer.Output.Overwrite.{overwrite}
use hyper_link.FileTransfer.Output.Turns.{View, Works}
use hyper_link.FileTransfer.Output.Schedule.{finished, Receiver, run_turns, new_receiver, turns_of}
use hyper_link.FileTransfer.Output.Interleaving.{sent_header, parts_reassemble}

-- The files by their paths, and what the sessions are to deliver.
abbrev Host : Type 0
Host = (Text → Option Text) × (ℕ → Text)

abbrev set_file : Text → Option Text → Host → Host
set_file path content (disk, sessions) = (λ q. if text_eq q path then content else disk q, sessions)

resized : ℕ → Text → Text
resized zero c = []
resized (suc n) [] = 0 ∷ resized n []
resized (suc n) (x ∷ c) = x ∷ resized n c

resized_empty : (n : ℕ) → resized n [] ≡ replicate n 0
unfolding resized
resized_empty zero = refl
resized_empty (suc n) = ap (◌∷◌ 0) (resized_empty n)

abbrev changed : (Text → Text) → Option Text → Option Text
changed f none = none
changed f (some c) = some (f c)

abbrev disk_files : Files Host
disk_files = record {
  join = λ dir name. dir ++ codes "/" ++ name;
  make_directories = λ path w. (none, w);
  create_directories = λ path w. (ok tt, w);
  open_truncated = λ path w. (true, set_file path (some []) w);
  open_update = λ path w. (true, w);
  seek = λ path n w. (true, w);
  write = λ path n piece w. (true, set_file path (changed (overwrite n piece) (w.0 path)) w);
  resize_file = λ path n w. (ok tt, set_file path (changed (resized n) (w.0 path)) w);
  permissions = λ path mode w. w;
  remove = λ path w. set_file path none w;
  create_symlink = λ target path w. (true, w);
}

-- A session delivers one byte at a time.
abbrev deliver : ℕ → ℕ → Program Host Text
deliver i n (disk, sessions) =
    some (ok (take 1 (sessions i)), (disk, λ j. if j == i then drop 1 (sessions j) else sessions j))

abbrev host_view : View Host
host_view = record { contents = λ path w. w.0 path; pending = λ i w. w.1 i }

stored :
    (path : Text) (content : Option Text) (w : Host) → (set_file path content w).0 path ≡ content
stored path content (disk, sessions) = rw ((text_eq_iff path path).1 refl) refl

pub cons_of : (t : Text) → 0 < length t → (b : ℕ) × (rest : Text) × (t ≡ b ∷ rest)
cons_of [] h = absurd (omega arith)
cons_of (b ∷ rest) h = (b, rest, refl)

host_Works : Works disk_files deliver host_view
host_Works = record {
  creates = λ path w. (refl, stored path (some []) w, λ j. refl);
  resizes = λ path n w h. (
    refl,
    stored path (changed (resized n) (w.0 path)) w
        ∙ (ap (changed (resized n)) h ∙ ap some (resized_empty n)),
    λ j. refl,
  );
  opens = λ path content w h. (refl, h, λ j. refl);
  seeks = λ path n w. (refl, refl, λ j. refl);
  writes = λ path content piece n w h fits. (
    refl,
    stored path (changed (overwrite n piece) (w.0 path)) w ∙ ap (changed (overwrite n piece)) h,
    λ j. refl,
  );
  receives = λ i n w pos more.
      let (b, rest, e) = cons_of (w.1 i) more in
      let own : (i == i) ≡ true = (==_iff i i).1 refl in
      (
        b,
        [],
        (w.0, λ j. if j == i then drop 1 (w.1 j) else w.1 j),
        rw e refl,
        omega (arith, pos),
        rw (own, e) refl,
        λ j h. let other : (j == i) ≡ false = ground (arith, h) in rw other refl,
        λ path. refl,
      );
}

abbrev turns : List ℕ
turns = 0 ∷ 1 ∷ 1 ∷ 0 ∷ 0 ∷ 1 ∷ 0 ∷ 1 ∷ 0 ∷ []

abbrev start : Host
start = (λ path. none, λ i. elim i [ zero ↦ codes "abc" | suc j ↦ codes "de" ])

safe_f : safe_file_name (codes "f") ≡ ok (codes "f")
unfolding safe_file_name filename filename_from is_special text_eq
safe_f = refl

pending_start :
    (i : ℕ)
    → i < 2
    → host_view.pending i start
      ≡ take (byte_range_for_stream 5 i 2).1 (drop (byte_range_for_stream 5 i 2).0 (codes "abcde"))
unfolding byte_range_for_stream
pending_start zero h = refl
pending_start (suc zero) h = refl
pending_start (suc (suc i)) h = absurd (omega arith)

enough_turns : (i : ℕ) → i < 2 → (byte_range_for_stream 5 i 2).1 + 2 ≤ turns_of i turns
unfolding byte_range_for_stream turns_of
enough_turns zero h = omega arith
enough_turns (suc zero) h = omega arith
enough_turns (suc (suc i)) h = absurd (omega arith)

parts_reassemble_example :
    (final : Receiver Host) × (run_turns disk_files
        (codes "out")
        deliver
        turns
        (new_receiver (sent_header (codes "f") 5 2) start)
      ≡ some final)
    × (final.world.0 (codes "out/f") ≡ some (codes "abcde"))
    × ((i : ℕ)
        → i < 2
        → final.workers i ≡ record { phase = finished; bytes = (byte_range_for_stream 5 i 2).1 })
parts_reassemble_example =
    parts_reassemble disk_files deliver host_view (codes "out") (codes "f") (codes "abcde") 2 turns
      start host_Works safe_f (omega arith) (omega arith) pending_start (omega arith) enough_turns

abbrev second_part : IncomingHeader
second_part = record (sent_header (codes "f") 5 2 1) {
  offset = 3;
  payload_size = 2;
  total_size = 5;
}

receive_part-Ends_example :
    ((5 < 3 + 2)
      × (receive_part disk_files
            (deliver 1)
            (codes "out")
            second_part
            (record { world = start; shared = initial_shared; bytes = 0 })
          ≡ some (err bad_range, record { world = start; shared = initial_shared; bytes = 0 })))
    ⊎ ((3 + 2 ≤ 5)
        × Ends disk_files deliver host_view host_Works
            (receive_part disk_files
              (deliver 1)
              (codes "out")
              second_part
              (record { world = start; shared = initial_shared; bytes = 0 }))
            1
            (codes "out/f")
            (0 ∷ 0 ∷ 0 ∷ codes "de")
            []
            (record {
              initialized = true;
              output_path = codes "out/f";
              file_name = codes "f";
              total_size = 5;
            })
            2
            start)
unfolding sent_header
receive_part-Ends_example =
    receive_part-Ends disk_files deliver host_view host_Works 1 (codes "out") (codes "f")
      (codes "out/f") (replicate 5 0) (codes "de") [] second_part start initial_shared _ 0 safe_f
      (omega arith) (omega arith) (omega arith) (first refl) refl refl
