-- ===== src/PeerDiscovery/Decimal/RoundTrip.antt =====
-- A printed number parses back, and what parses is a number in range.
use hyper_link.Base.{
  ℕ, zero, suc, ◌+◌, ◌*◌, ◌^◌, ◌/◌, ◌%◌, ◌<◌, ◌≤◌, ◌≡◌, refl, arith, true, false, none, some, [],
  ◌∷◌, Text, is_empty, leb, length, if◌then◌else◌, Lacks,
}
use hyper_link.PeerDiscovery.Decimal.{
  is_digit, all_digits, is_decimal, digits_value, parse_decimal, print_digits, to_string,
}

print_digits_value :
    (fuel n : ℕ) (out : Text)
    → n < fuel
    → digits_value 0 (print_digits fuel n out) ≡ digits_value n out
unfolding print_digits digits_value
print_digits_value zero n out h = absurd (omega arith)
print_digits_value (suc fuel) n out h =
    ground (arith, print_digits_value fuel (n / 10) ((b'0' + n % 10) ∷ out))

print_digits_digits :
    (fuel n : ℕ) (out : Text) → all_digits out ≡ true → all_digits (print_digits fuel n out) ≡ true
unfolding print_digits all_digits
print_digits_digits zero n out h = h
print_digits_digits (suc fuel) n out h =
    ground (arith, print_digits_digits fuel (n / 10) ((b'0' + n % 10) ∷ out))

print_digits-ne-nil :
    (fuel n : ℕ) (out : Text) → is_empty out ≡ false → is_empty (print_digits fuel n out) ≡ false
unfolding print_digits
print_digits-ne-nil zero n out h = h
print_digits-ne-nil (suc fuel) n out h =
    ground (arith, print_digits-ne-nil fuel (n / 10) ((b'0' + n % 10) ∷ out))

to_string-all_digits : (n : ℕ) → all_digits (to_string n) ≡ true
unfolding to_string all_digits
to_string-all_digits n = print_digits_digits (suc n) n [] refl

to_string-ne-nil : (n : ℕ) → is_empty (to_string n) ≡ false
unfolding to_string print_digits
to_string-ne-nil n = ground (arith, print_digits-ne-nil n (n / 10) ((b'0' + n % 10) ∷ []) refl)

to_string-is_decimal : (n : ℕ) → is_decimal (to_string n) ≡ true
unfolding is_decimal
to_string-is_decimal n = rw (to_string-ne-nil n, to_string-all_digits n)

to_string-value : (n : ℕ) → digits_value 0 (to_string n) ≡ n
unfolding to_string digits_value
to_string-value n = print_digits_value (suc n) n [] (omega arith)

length-print_digits :
    (digits fuel n : ℕ) (out : Text)
    → n < 10 ^ suc digits
    → length (print_digits fuel n out) ≤ suc digits + length out
unfolding print_digits
length-print_digits digits zero n out h = omega arith
length-print_digits zero (suc fuel) n out h = ground arith
length-print_digits (suc digits) (suc fuel) n out h =
    let power : 10 ^ suc (suc digits) ≡ 10 * 10 ^ suc digits = omega arith in
    let shorter : n / 10 < 10 ^ suc digits = omega (arith, h, power) in
    ground (arith, length-print_digits digits fuel (n / 10) ((b'0' + n % 10) ∷ out) shorter)

-- A number below a power of ten has no more digits than its exponent.
pub length-to_string : (digits n : ℕ) → n < 10 ^ suc digits → length (to_string n) ≤ suc digits
unfolding to_string
length-to_string digits n h = omega (arith, length-print_digits digits (suc n) n [] h)

-- A decimal print is parsed back exactly if the number is in the type's range.
pub parse_decimal-to_string :
    (max n : ℕ) → parse_decimal max (to_string n) ≡ (if leb n max then some n else none)
unfolding parse_decimal
parse_decimal-to_string max n = rw (to_string-is_decimal n, to_string-value n)

all_digits-Lacks : (b : ℕ) (s : Text) → is_digit b ≡ false → all_digits s ≡ true → Lacks b s
unfolding all_digits
all_digits-Lacks b [] h d = tt
all_digits-Lacks b (c ∷ s) h d = ground (arith, all_digits-Lacks b s h)

-- A decimal print holds digits only.
pub to_string-Lacks : (b n : ℕ) → is_digit b ≡ false → Lacks b (to_string n)
to_string-Lacks b n h = all_digits-Lacks b (to_string n) h (to_string-all_digits n)

-- What parses is within the type's range.
pub parse_decimal-le : (max : ℕ) (s : Text) {n : ℕ} → parse_decimal max s ≡ some n → n ≤ max
unfolding parse_decimal
parse_decimal-le max s h = ground arith
