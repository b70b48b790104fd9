-- ===== src/CommandLine.antt =====
-- What the parsers of examples/file_transfer.cpp, examples/bench.cpp and examples/cli.cpp share: the
-- loop over `argv`, the option that takes the next argument, and the numbers.
pub mod Invariant
pub mod Steps
use hyper_link.Base.{
  ℕ, ◌+◌, ◌-◌, ◌%◌, ◌^◌, Bool, true, false, ◌&&◌, ◌||◌, List, [], ◌∷◌, ◌++◌, Text, codes, ltb, leb,
  ◌==◌, if◌then◌else◌, Error, invalid_argument, out_of_range, Result, ok, err,
}
use hyper_link.PeerDiscovery.Decimal.{is_digit, digits_value}

-- `print_usage(); std::exit(0);`, or the options.
pub data Parsed {ℓ} (O : Type ℓ) : Type ℓ where
  parsed : O → Parsed O
  exit_with_usage : Parsed O

-- What one argument does to the options: it changes them at once, takes the next argument as its
-- value, prints the usage, or is refused.
pub data Effect {ℓ} (O : Type ℓ) : Type ℓ where
  set : O → Effect O
  take_value : (Text → Result O) → Effect O
  help : Effect O
  refuse : Error → Effect O

unfoldable pub requires_value : Text → Error
requires_value name = invalid_argument (name ++ codes " requires a value")

-- The loop over `argv[index]`, from the arguments that are left.
unfoldable pub parse_loop {ℓ} :
    {O : Type ℓ} → (O → Text → Effect O) → O → List Text → Result (Parsed O)
parse_loop effect options [] = ok (parsed options)
parse_loop effect options (arg ∷ []) = elim (effect options arg) [
  | set options' ↦ ok (parsed options')
  | take_value store ↦ err (requires_value arg)
  | help ↦ ok exit_with_usage
  | refuse error ↦ err error
]
parse_loop effect options (arg ∷ value ∷ args) = elim (effect options arg) [
  | set options' ↦ parse_loop effect options' (value ∷ args)
  | take_value store ↦ elim (store value) [
    | ok options' ↦ parse_loop effect options' args
    | err error ↦ err error
  ]
  | help ↦ ok exit_with_usage
  | refuse error ↦ err error
]

-- The checks after the loop.
unfoldable pub and_then {ℓ} :
    {O : Type ℓ} → Result (Parsed O) → (O → Result (Parsed O)) → Result (Parsed O)
and_then (ok (parsed options)) check = check options
and_then (ok exit_with_usage) check = ok exit_with_usage
and_then (err error) check = err error

-- `isspace` of the C locale.
unfoldable pub is_space : ℕ → Bool
is_space c = c == 32 || leb 9 c && leb c 13

unfoldable pub skip_space : Text → Text
skip_space [] = []
skip_space (c ∷ s) = let rest = skip_space s in if is_space c then rest else c ∷ s

-- The digits in front.
unfoldable pub leading_digits : Text → Text
leading_digits [] = []
leading_digits (c ∷ s) = let rest = leading_digits s in if is_digit c then c ∷ rest else []

abbrev pub limit : ℕ
limit = 2 ^ 64

-- The number, which a minus sign turns into its negative among the 64-bit numbers.
unfoldable pub unsigned_value : Text → Bool → Text → Result ℕ
unsigned_value name minus [] = err (invalid_argument name)
unsigned_value name minus (c ∷ s) =
    let n = digits_value 0 (c ∷ s) in
    if leb limit n then err (out_of_range name) else ok (if minus then (limit - n) % limit else n)

unfoldable pub signed_value : Text → Text → Result ℕ
signed_value name [] = err (invalid_argument name)
signed_value name (c ∷ s) =
    if c == b'-'
    then unsigned_value name true (leading_digits s)
    else if c == b'+'
    then unsigned_value name false (leading_digits s)
    else unsigned_value name false (leading_digits (c ∷ s))

-- `std::stoul` and `std::stoull` where `unsigned long` has 64 bits: white space, a sign, digits, and
-- then anything.
unfoldable pub stoul : Text → Result ℕ
stoul value = signed_value (codes "stoul") (skip_space value)

unfoldable pub stoull : Text → Result ℕ
stoull value = signed_value (codes "stoull") (skip_space value)

-- `static_cast<std::uint32_t>`.
abbrev pub to_u32 : ℕ → ℕ
to_u32 n = n % 2 ^ 32

unfoldable pub bad_port : Error
bad_port = invalid_argument (codes "port must be between 1 and 65535")

unfoldable pub checked_port : Result ℕ → Result ℕ
checked_port (err error) = err error
checked_port (ok n) = if n == 0 || ltb 65535 n then err bad_port else ok n

unfoldable pub parse_port : Text → Result ℕ
parse_port value = checked_port (stoul value)
