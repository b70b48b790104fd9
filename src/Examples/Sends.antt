-- ===== src/Examples/Sends.antt =====
-- An example of a sender's thread and its receiver's.
use hyper_link.Base.{
  ℕ, ◌≡◌, refl, ap, ◌∙◌, true, arith, some, [], ◌++◌, Text, codes, take, drop, length, length-drop,
  ok,
}
use hyper_link.Base.Program.{Program}
use hyper_link.FileTransfer.Streams.{byte_range_for_stream}
use hyper_link.FileTransfer.Receive.{receive_header_optional}
use hyper_link.FileTransfer.Output.Interleaving.{sent_header}
use hyper_link.FileTransfer.Send.{Inputs, send_range}
use hyper_link.FileTransfer.Send.Range.{Outgoing, Transmits}
use hyper_link.FileTransfer.Send.Handover.{range_hands_over}
use hyper_link.Examples.Parts.{cons_of}
use hyper_link.Examples.Transfers.{recv, to_come, recv-IsStream}

abbrev file_bytes : Text
file_bytes = codes "abcde"

-- The world is what stands on the wire; the only file is read byte by byte.
abbrev one_file : Inputs Text
one_file = record {
  open_input = λ path w. (true, w);
  seek = λ path n w. (true, w);
  read = λ path position n w. (take 1 (drop position file_bytes), w);
  read_symlink = λ path w. (ok [], w);
}

abbrev put : Text → Program Text ℕ
put payload w = some (ok (length payload), w ++ payload)

abbrev one_view : Outgoing Text
one_view = record { contents = λ path w. some file_bytes; wire = λ w. w }

some_injective : {a b : Text} → some a ≡ some b → a ≡ b
some_injective e = ground arith

put_Transmits : Transmits one_file put one_view
put_Transmits = record {
  sends = λ payload w. (w ++ payload, refl, refl, λ path. refl);
  reads = λ path content position n w same inside pos.
      let here : file_bytes ≡ content = some_injective same in
      let (b, rest, e) =
        cons_of (drop position content) (omega (arith, inside, length-drop position content)) in
      (
        b,
        [],
        w,
        ap (λ c. (take 1 (drop position c), w)) here ∙ ap (λ t. (take 1 t, w)) e,
        omega (arith, pos),
        ap (take 1) e,
        refl,
        λ p. refl,
      );
}

range_hands_over_example :
    (w' s' : Text) × (send_range one_file put 2 (codes "in") (codes "f") 5 3 2 ([], 0)
      ≡ some (ok tt, (w', 2)))
    × (receive_header_optional recv w' ≡ some (ok (some (sent_header (codes "f") 5 2 1)), s'))
    × (s' ≡ codes "de")
unfolding byte_range_for_stream
range_hands_over_example =
    range_hands_over one_file put one_view recv to_come (λ t. t) (codes "in") file_bytes (codes "f")
      2 1 [] put_Transmits recv-IsStream (λ t. refl) refl refl (omega arith) (omega arith)
      (omega arith) (omega arith)
