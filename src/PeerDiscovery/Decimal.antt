-- ===== src/PeerDiscovery/Decimal.antt =====
-- `is_decimal` and `parse_decimal`, and the decimal print of a number (`std::to_string`).
pub mod RoundTrip
use hyper_link.Base.{
  ℕ, zero, suc, ◌+◌, ◌-◌, ◌*◌, ◌/◌, ◌%◌, ◌^◌, Bool, true, false, ◌&&◌, not, Option, none, some, [],
  ◌∷◌, Text, is_empty, ltb, leb, if◌then◌else◌,
}

unfoldable pub is_digit : ℕ → Bool
is_digit c = leb b'0' c && leb c b'9'

unfoldable pub all_digits : Text → Bool
unfolding is_digit
all_digits [] = true
all_digits (c ∷ s) = is_digit c && all_digits s

unfoldable pub is_decimal : Text → Bool
is_decimal value = not (is_empty value) && all_digits value

-- The number that digits spell behind `n`.
unfoldable pub digits_value : ℕ → Text → ℕ
digits_value n [] = n
digits_value n (c ∷ s) = digits_value (n * 10 + (c - b'0')) s

abbrev pub max_u32 : ℕ
max_u32 = 2 ^ 32 - 1

-- `parse_decimal<Integer>`, for an unsigned type with the greatest value `max`: `from_chars` reports
-- a number above it as out of range, and stops at the end of the digits.
unfoldable pub parse_decimal : ℕ → Text → Option ℕ
parse_decimal max value =
    if is_decimal value
    then if leb (digits_value 0 value) max then some (digits_value 0 value) else none
    else none

-- The digits of `n` in front of `out`; each round divides by ten, so that the fuel `suc n` is enough.
unfoldable pub print_digits : ℕ → ℕ → Text → Text
print_digits zero n out = out
print_digits (suc fuel) n out =
    let more = print_digits fuel (n / 10) ((b'0' + n % 10) ∷ out) in
    if ltb n 10 then (b'0' + n) ∷ out else more

unfoldable pub to_string : ℕ → Text
to_string n = print_digits (suc n) n []
