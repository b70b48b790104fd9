-- ===== src/FileTransfer/Wire/Bytes.antt =====
-- A 64-bit number and its eight bytes.
use hyper_link.Base.{
  zero, suc, ◌-◌, ℕ, ◌+◌, ◌*◌, ◌/◌, ◌%◌, ◌^◌, ◌<◌, ◌≡◌, refl, ◌∙◌, arith, ◌∷◌, length, Text,
}
use hyper_link.Base.Bits.{bit_or-byte}
use hyper_link.FileTransfer.Wire.{byte_at, write_from, write_u64_be, read_from, read_u64_be}

read_from_step :
    (value next byte : ℕ) (rest : Text)
    → value < 2 ^ 56
    → byte < 256
    → value * 256 + byte ≡ next
    → read_from value (byte ∷ rest) ≡ read_from next rest
unfolding read_from
read_from_step value next byte rest h b e =
    let fits : value * 256 % 2 ^ 64 ≡ value * 256 = omega arith in
    rw (fits, bit_or-byte value byte b, e)

-- After each byte the bits above it have been read.
read_from_next :
    (value place : ℕ) (rest : Text)
    → value < 2 ^ 64
    → place < 8
    → read_from (value / 2 ^ ((8 - place) * 8)) (byte_at value place ∷ rest)
      ≡ read_from (value / 2 ^ ((7 - place) * 8)) rest
unfolding byte_at
read_from_next value zero rest h p =
    read_from_step _ _ _ rest (omega arith) (omega arith) (omega arith)
read_from_next value (suc zero) rest h p =
    read_from_step _ _ _ rest (omega arith) (omega arith) (omega arith)
read_from_next value (suc (suc zero)) rest h p =
    read_from_step _ _ _ rest (omega arith) (omega arith) (omega arith)
read_from_next value (suc (suc (suc zero))) rest h p =
    read_from_step _ _ _ rest (omega arith) (omega arith) (omega arith)
read_from_next value (suc (suc (suc (suc zero)))) rest h p =
    read_from_step _ _ _ rest (omega arith) (omega arith) (omega arith)
read_from_next value (suc (suc (suc (suc (suc zero))))) rest h p =
    read_from_step _ _ _ rest (omega arith) (omega arith) (omega arith)
read_from_next value (suc (suc (suc (suc (suc (suc zero)))))) rest h p =
    read_from_step _ _ _ rest (omega arith) (omega arith) (omega arith)
read_from_next value (suc (suc (suc (suc (suc (suc (suc zero))))))) rest h p =
    read_from_step _ _ _ rest (omega arith) (omega arith) (omega arith)
read_from_next value (suc (suc (suc (suc (suc (suc (suc (suc place)))))))) rest h p =
    absurd (omega arith)

-- The bytes still to be read stand for the low bits.
read_from-write_from :
    (rounds place value : ℕ)
    → value < 2 ^ 64
    → place + rounds ≡ 8
    → read_from (value / 2 ^ ((8 - place) * 8)) (write_from rounds place value) ≡ value
unfolding write_from
read_from-write_from zero place value h e =
    let last : place ≡ 8 = omega arith in rw last (unfold read_from in omega arith)
read_from-write_from (suc rounds) place value h e =
    let shift : 8 - (place + 1) ≡ 7 - place = omega arith in
    read_from_next value place _ h (omega arith)
    ∙ (rw shift at (read_from-write_from rounds (place + 1) value h (omega arith)))

pub length-write_u64_be : (value : ℕ) → length (write_u64_be value) ≡ 8
unfolding write_u64_be
length-write_u64_be value = refl

-- Every 64-bit number is read back from the eight bytes that are written for it.
pub read_u64_be-write_u64_be :
    (value : ℕ) → value < 2 ^ 64 → read_u64_be (write_u64_be value) ≡ value
unfolding read_u64_be write_u64_be
read_u64_be-write_u64_be value h =
    let start : value / 2 ^ 64 ≡ 0 = omega arith in
    (rw start at (read_from-write_from 8 0 value h refl))
