-- ===== src/FileTransfer/Send/Handover.antt =====
-- From a sender's thread to a receiver's: the header arrives as it is meant, and the range follows it.
use hyper_link.Base.{
  ℕ, ◌≤◌, ◌<◌, ◌^◌, ◌≡◌, ap, ◌∙◌, arith, some, [], ◌++◌, Text, length, take, drop, ltb,
  if◌then◌else◌, ok,
}
use hyper_link.Base.Program.{Program}
use hyper_link.FileTransfer.{file, file_part}
use hyper_link.FileTransfer.Wire.{make_header}
use hyper_link.FileTransfer.Streams.{byte_range_for_stream}
use hyper_link.FileTransfer.Streams.Ranges.{byte_range-within}
use hyper_link.FileTransfer.Receive.{receive_header_optional}
use hyper_link.FileTransfer.Receive.Stream.{IsStream}
use hyper_link.FileTransfer.Receive.Header.{IsSendable}
use hyper_link.FileTransfer.Receive.Optional.{receive_header_optional-make_header}
use hyper_link.FileTransfer.Output.Interleaving.{sent_header}
use hyper_link.FileTransfer.Send.{Inputs, send_range}
use hyper_link.FileTransfer.Send.Range.{Outgoing, Transmits, send_range-Sent}

-- For a file of fewer than 2 ^ 64 bytes, a name of 1 to 4096 bytes, a stream of the run, calls of the
-- system that do not fail, and a connection that delivers in any pieces what was put on its wire:
-- the sender's thread sends its range, and the receiver's thread gets the header of the range, and has the bytes
-- of the range to come and no others.
pub range_hands_over :
    {W S : Type 0} (inputs : Inputs W) (send : Text → Program W ℕ) (view : Outgoing W)
    (receive_into : ℕ → Program S Text) (pending : S → Text) (link : Text → S)
    (path content name : Text) (streams i : ℕ) (w : W)
    → Transmits inputs send view
    → IsStream receive_into pending
    → ((t : Text) → pending (link t) ≡ t)
    → view.contents path w ≡ some content
    → view.wire w ≡ []
    → length content < 2 ^ 64
    → 0 < length name
    → length name ≤ 4096
    → i < streams
    → let range = byte_range_for_stream (length content) i streams in
      (w' : W) × (s' : S) × (send_range inputs send streams path name
          (length content)
          range.0
          range.1
          (w, 0)
        ≡ some (ok tt, (w', range.1)))
      × (receive_header_optional receive_into (link (view.wire w'))
          ≡ some (ok (some (sent_header name (length content) streams i)), s'))
      × (pending s' ≡ take range.1 (drop range.0 content))
unfolding sent_header
range_hands_over inputs send view receive_into pending link path content name streams i w transmits
      stream carries same empty small named short at =
    let range = byte_range_for_stream (length content) i streams in
    let within = byte_range-within (length content) i streams small at in
    let sent =
      send_range-Sent inputs send view transmits streams path content name range.0 range.1 w same
        within small in
    let kind = if ltb 1 streams then file_part else file in
    let front =
      make_header kind range.1 (length name) range.0 (length content)
      ++ name
      ++ take range.1 (drop range.0 content) in
    let fits : IsSendable kind range.1 range.0 (length content) name = record {
      payload_fits = omega (arith, within, small);
      offset_fits = omega (arith, within, small);
      total_fits = small;
      named = named;
      short = short;
    } in
    let arrived = carries (view.wire sent.world) ∙ (sent.on_wire ∙ ap (λ t. t ++ front) empty) in
    let (s', e, left) =
      receive_header_optional-make_header receive_into pending stream kind range.1 range.0
        (length content) name (link (view.wire sent.world)) (take range.1 (drop range.0 content))
        fits arrived in
    (sent.world, s', sent.goes_on, e, left)
