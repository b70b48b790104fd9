-- ===== src/Examples/Transfers.antt =====
-- Examples of transfers, over a connection that is a list of bytes.
use hyper_link.Base.{
  ℕ, zero, suc, ◌-◌, ◌%◌, ◌^◌, ◌≡◌, ◌↔◌, ◌≤◌, refl, arith, some, none, [], ◌∷◌, ◌++◌, length, take,
  drop, Text, text_eq, codes, ok, Error, runtime_error, is_empty, if◌then◌else◌, ap,
}
use hyper_link.Base.Program.{Program}
use mathlib.Core.List.{reverse}
use hyper_link.FileTransfer.{file}
use hyper_link.Bench.Run.{server_loop, client_loop}
use hyper_link.Bench.Run.Counts.{Sending, bench_counts_agree}
use hyper_link.FileTransfer.Names.{
  safe_file_name, filename, filename_from, is_special, safe_relative_path, parts_from, is_absolute,
  any_special, parent_path, dot,
}
use hyper_link.FileTransfer.Names.Safety.{IsPlain, EndsIn, safe_file_name-IsPlain}
use hyper_link.FileTransfer.Names.Relative.{resolve, resolve-safe_relative_path}
use hyper_link.FileTransfer.Receive.{receive_header}
use hyper_link.FileTransfer.Receive.Stream.{closed, bytes, IsStream}
use hyper_link.FileTransfer.Receive.Header.{
  announce, announced, IsSendable, receive_header-make_header,
}
use hyper_link.FileTransfer.Streams.{StreamResult}
use hyper_link.FileTransfer.Streams.Ranges.{parts_of, byte_ranges_cover}
use hyper_link.FileTransfer.Quote.{tar_create_command, tar_extract_command}
use hyper_link.FileTransfer.Quote.Words.{tar_command_words}
use hyper_link.Shell.{words_of}

abbrev pub recv : ℕ → Program Text Text
recv n s = some (ok (take n s), drop n s)

abbrev pub to_come : Text → Text
to_come s = s

-- What a cut leaves.
take-drop : (n : ℕ) (s : Text) → s ≡ take n s ++ drop n s
take-drop zero s = refl
take-drop (suc n) [] = refl
take-drop (suc n) (c ∷ s) = ap (c ∷◌) (take-drop n s)

length-take_le : (n : ℕ) (s : Text) → length (take n s) ≤ n
length-take_le zero s = omega arith
length-take_le (suc n) [] = omega arith
length-take_le (suc n) (c ∷ s) = omega (arith, length-take_le n s)

pub recv-IsStream : IsStream recv to_come
recv-IsStream zero s h = absurd (omega arith)
recv-IsStream (suc n) [] h = closed [] refl refl refl
recv-IsStream (suc n) (c ∷ s) h =
    bytes c (take n s) (drop n s) refl (ap (c ∷◌) (take-drop n s))
      (omega (arith, length-take_le n s))

notes-IsSendable : IsSendable file 5 0 5 (codes "notes.txt")
notes-IsSendable = record {
  payload_fits = omega arith;
  offset_fits = omega arith;
  total_fits = omega arith;
  named = omega arith;
  short = omega arith;
}

abbrev sent : Text
sent = announce file 5 0 5 (codes "notes.txt") ++ codes "hello"

safe_notes : safe_file_name (codes "notes.txt") ≡ ok (codes "notes.txt")
unfolding safe_file_name filename filename_from is_special text_eq
safe_notes = refl

receive_header-make_header_example :
    (s' : Text) × (receive_header recv sent
      ≡ some (ok (announced file 5 0 5 (codes "notes.txt") (codes "notes.txt")), s'))
    × (s' ≡ codes "hello")
receive_header-make_header_example =
    receive_header-make_header recv to_come recv-IsStream file 5 0 5 (codes "notes.txt")
      notes-IsSendable sent (codes "hello") refl (codes "notes.txt") safe_notes

safe_file_name-IsPlain_example :
    (safe_file_name (codes "../b.txt") ≡ ok (codes "b.txt"))
    ↔ (IsPlain (codes "b.txt") × EndsIn (codes "../b.txt") (codes "b.txt"))
safe_file_name-IsPlain_example = safe_file_name-IsPlain (codes "../b.txt") (codes "b.txt")

safe_path : safe_relative_path (codes "a/b") ≡ ok (codes "a/b")
unfolding safe_relative_path is_absolute any_special is_special parts_from text_eq
safe_path = refl

resolve-safe_relative_path_example :
    resolve (codes "out" ∷ []) (codes "a/b")
    ≡ reverse (parts_from [] (codes "a/b")) ++ (codes "out" ∷ [])
resolve-safe_relative_path_example =
    resolve-safe_relative_path (codes "a/b") (codes "a/b") (codes "out" ∷ []) safe_path

byte_ranges_cover_example : parts_of (codes "hello") 2 2 0 ≡ codes "hello"
byte_ranges_cover_example = byte_ranges_cover (codes "hello") 2 (omega arith) (omega arith)

abbrev good : StreamResult
good = record { bytes = 10; error = none }

abbrev lost : Error
lost = runtime_error (codes "recv failed")

abbrev bad : StreamResult
bad = record { bytes = 3; error = some lost }

tar_command_words_example :
    (words_of (tar_create_command (codes "/home/it's"))
      ≡ some (
          codes "tar"
          ∷ codes "-cf"
          ∷ codes "-"
          ∷ codes "-C"
          ∷ (if is_empty (parent_path (codes "/home/it's"))
              then dot
              else parent_path (codes "/home/it's"))
          ∷ filename (codes "/home/it's")
          ∷ []))
    × (words_of (tar_extract_command (codes "/home/it's"))
        ≡ some (codes "tar" ∷ codes "-xf" ∷ codes "-" ∷ codes "-C" ∷ codes "/home/it's" ∷ []))
tar_command_words_example = tar_command_words (codes "/home/it's")

-- A benchmark's client, with a clock that every reading advances, and a wire that takes all.
abbrev tick : ℕ × Text → ℕ × (ℕ × Text)
tick (clock, wire) = (clock, (suc clock, wire))

abbrev push : Text → Program (ℕ × Text) ℕ
push payload (clock, wire) = some (ok (length payload), (clock, wire ++ payload))

abbrev quiet_link : Sending (ℕ × Text) tick push
quiet_link = record {
  wire = λ (clock, wire). wire;
  ticks = λ deadline (clock, wire). deadline - clock;
  now_ticks = λ deadline (clock, wire) h. omega (arith, h);
  now_wire = λ (clock, wire). refl;
  sends =
      λ payload (clock, wire). ((clock, wire ++ payload), refl, refl, (λ deadline. omega arith));
}

bench_counts_agree_example :
    (w : ℕ × Text) × (s : Text) × (client_loop tick push 4 3 (codes "abc") ((0, []), 0)
      ≡ some (ok tt, (w, length w.1 % 2 ^ 64)))
    × (server_loop recv (suc (length w.1)) 2 (w.1, 0) ≡ some (ok tt, (s, length w.1 % 2 ^ 64)))
    × (s ≡ [])
bench_counts_agree_example =
    bench_counts_agree tick push quiet_link recv to_come (λ t. t) 3 2 3 (codes "abc") (0, [])
      recv-IsStream (λ t. refl) (omega arith) (omega arith) refl
