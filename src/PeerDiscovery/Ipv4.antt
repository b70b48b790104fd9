-- ===== src/PeerDiscovery/Ipv4.antt =====
-- `parse_ipv4`: a dotted IPv4 address as its four octets.
pub mod RoundTrip
use hyper_link.Base.{
  ℕ, zero, suc, Option, none, some, List, [], ◌∷◌, ◌++◌, Text, break_at, leb, if◌then◌else◌,
}
use hyper_link.PeerDiscovery.Decimal.{parse_decimal, max_u32, to_string}

abbrev pub dot : ℕ
dot = b'.'

infixl 5 ◌>>=◌
abbrev pub ◌>>=◌ : {A B : Type 0} → Option A → (A → Option B) → Option B
none >>= f = none
some a >>= f = f a

-- `parsed` and at most 255.
unfoldable pub parse_octet : Text → Option ℕ
parse_octet part = do octet ← parse_decimal max_u32 part; if leb octet 255 then some octet else none

-- The octets that are left, from the text behind `position`. Only the last is without a dot behind it.
unfoldable pub octets_from : ℕ → Text → Option (List ℕ)
octets_from zero rest = some []
octets_from (suc zero) rest = elim (break_at dot rest) [
  | none ↦ do octet ← parse_octet rest; some (octet ∷ [])
  | some _ ↦ none
]
octets_from (suc (suc left)) rest = elim (break_at dot rest) [
  | none ↦ none
  | some (part, behind) ↦ do
    octet ← parse_octet part
    octets ← octets_from (suc left) behind
    some (octet ∷ octets)
]

unfoldable pub parse_ipv4 : Text → Option (List ℕ)
parse_ipv4 address = octets_from 4 address

-- The usual way to write an address.
unfoldable pub format_ipv4 : ℕ → ℕ → ℕ → ℕ → Text
format_ipv4 a b c d =
    to_string a ++ (dot ∷ (to_string b ++ (dot ∷ (to_string c ++ (dot ∷ to_string d)))))
