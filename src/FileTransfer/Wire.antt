-- ===== src/FileTransfer/Wire.antt =====
-- The 48-byte header of a transfer, as bytes: `write_u64_be`, `read_u64_be`, `make_header` and the
-- checks that the receiver makes on the fields.
pub mod Bytes
pub mod RoundTrip
use Prim.Native.Nat.{bit_or}
use hyper_link.Base.{
  ℕ, zero, suc, ◌+◌, ◌-◌, ◌*◌, ◌/◌, ◌%◌, ◌^◌, Bool, true, false, ◌&&◌, ◌||◌, Option, none, some,
  List, [], ◌∷◌, ◌++◌, Text, codes, text_eq, take, drop, replicate, length, ltb, ◌==◌,
  if◌then◌else◌,
}
use hyper_link.FileTransfer.{TransferKind}

-- `static_cast<std::byte>((value >> ((7 - index) * 8)) & 0xFF)`.
unfoldable pub byte_at : ℕ → ℕ → ℕ
byte_at value index = value / 2 ^ ((7 - index) * 8) % 2 ^ 8

-- The loop of `write_u64_be` over the indices that are left; the span is the 8 bytes that result.
unfoldable pub write_from : ℕ → ℕ → ℕ → Text
write_from zero index value = []
write_from (suc rounds) index value = byte_at value index ∷ write_from rounds (index + 1) value

unfoldable pub write_u64_be : ℕ → Text
unfolding write_from byte_at
write_u64_be value = write_from 8 0 value

-- The loop of `read_u64_be`: `value = (value << 8) | byte` on a 64-bit word.
unfoldable pub read_from : ℕ → Text → ℕ
read_from value [] = value
read_from value (byte ∷ rest) = read_from (bit_or (value * 2 ^ 8 % 2 ^ 64) byte) rest

-- Reads `buffer.subspan(0, 8)`.
unfoldable pub read_u64_be : Text → ℕ
read_u64_be buffer = read_from 0 (take 8 buffer)

abbrev pub magic : Text
magic = codes "HLXFER3" ++ 0 ∷ []

abbrev pub header_bytes : ℕ
header_bytes = 48

abbrev pub kind_code : TransferKind → ℕ
kind_code TransferKind.file = 1
kind_code TransferKind.directory_tar = 2
kind_code TransferKind.file_part = 3
kind_code TransferKind.directory_entry = 4
kind_code TransferKind.directory_file = 5
kind_code TransferKind.directory_symlink = 6

-- The header is filled field after field, at the offsets 0, 8, 16, 24, 32 and 40.
unfoldable pub make_header : TransferKind → ℕ → ℕ → ℕ → ℕ → Text
make_header kind payload_size name_size offset total_size =
    magic
    ++ (write_u64_be (kind_code kind)
        ++ (write_u64_be payload_size
            ++ (write_u64_be name_size ++ (write_u64_be offset ++ write_u64_be total_size))))

-- `static_cast<TransferKind>` and the test for the six kinds: `none` is "unsupported".
unfoldable pub kind_of_code : ℕ → Option TransferKind
kind_of_code code =
    if code == 1
    then some TransferKind.file
    else if code == 2
    then some TransferKind.directory_tar
    else if code == 3
    then some TransferKind.file_part
    else if code == 4
    then some TransferKind.directory_entry
    else if code == 5
    then some TransferKind.directory_file
    else if code == 6
    then some TransferKind.directory_symlink
    else none
