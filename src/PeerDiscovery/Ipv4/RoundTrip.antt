-- ===== src/PeerDiscovery/Ipv4/RoundTrip.antt =====
-- A written address parses to its octets, and what parses are four octets.
use hyper_link.Base.{
  ℕ, zero, suc, ◌≤◌, ◌≡◌, refl, arith, Option-cases, inl, inr, some, List, [], ◌∷◌, ◌++◌, Text,
  Lacks, break_at, break_at-append, break_at-Lacks, All, length,
}
use hyper_link.PeerDiscovery.Decimal.{max_u32, to_string, is_digit}
use hyper_link.PeerDiscovery.Decimal.RoundTrip.{parse_decimal-to_string, to_string-Lacks}
use hyper_link.PeerDiscovery.Ipv4.{dot, ◌>>=◌, parse_octet, octets_from, parse_ipv4, format_ipv4}

parse_octet-to_string : (n : ℕ) → n ≤ 255 → parse_octet (to_string n) ≡ some n
unfolding parse_octet
parse_octet-to_string n h = ground (arith, parse_decimal-to_string max_u32 n)

octet-Lacks : (octet : ℕ) → Lacks dot (to_string octet)
unfolding is_digit
octet-Lacks octet = to_string-Lacks dot octet refl

octets_from-cons :
    (left octet : ℕ) (behind : Text)
    → octet ≤ 255
    → octets_from (suc (suc left)) (to_string octet ++ dot ∷ behind)
      ≡ (octets_from (suc left) behind >>= λ octets. some (octet ∷ octets))
unfolding octets_from
octets_from-cons left octet behind h = rw (
  break_at-append dot (to_string octet) behind (octet-Lacks octet),
  parse_octet-to_string octet h,
  octets_from,
)

octets_from_last : (octet : ℕ) → octet ≤ 255 → octets_from 1 (to_string octet) ≡ some (octet ∷ [])
unfolding octets_from
octets_from_last octet h =
    rw (break_at-Lacks dot _ (octet-Lacks octet), parse_octet-to_string octet h, octets_from)

-- The usual way of writing four octets is read back.
pub parse_ipv4-format_ipv4 :
    (a b c d : ℕ)
    → a ≤ 255
    → b ≤ 255
    → c ≤ 255
    → d ≤ 255
    → parse_ipv4 (format_ipv4 a b c d) ≡ some (a ∷ b ∷ c ∷ d ∷ [])
unfolding parse_ipv4 format_ipv4
parse_ipv4-format_ipv4 a b c d ha hb hc hd = rw (
  octets_from-cons 2 a _ ha,
  octets_from-cons 1 b _ hb,
  octets_from-cons 0 c _ hc,
  octets_from_last d hd,
)

parse_octet-le : (part : Text) {octet : ℕ} → parse_octet part ≡ some octet → octet ≤ 255
unfolding parse_octet
parse_octet-le part h = ground (arith)

-- Four octets, each a byte.
abbrev pub AreOctets : ℕ → List ℕ → Type 0
AreOctets left octets = (length octets ≡ left) × All (λ octet. octet ≤ 255) octets

octets_from-AreOctets :
    (left : ℕ) (rest : Text) {octets : List ℕ}
    → octets_from left rest ≡ some octets
    → AreOctets left octets
unfolding octets_from
octets_from-AreOctets zero rest h = ground arith
octets_from-AreOctets (suc zero) rest {octets} h = elim (Option-cases (break_at dot rest)) [
  | inr (x, e) ↦ absurd (ground arith)
  | inl e ↦ elim (Option-cases (parse_octet rest)) [
    | inl f ↦ absurd (ground arith)
    | inr (o, f) ↦
        let same : octets ≡ o ∷ [] = ground arith in rw same (refl, (parse_octet-le rest f, tt))
  ]
]
octets_from-AreOctets (suc (suc left)) rest {octets} h = elim (Option-cases (break_at dot rest)) [
  | inl e ↦ absurd (ground arith)
  | inr ((part, behind), e) ↦ elim (Option-cases (parse_octet part)) [
    | inl f ↦ absurd (ground arith)
    | inr (o, f) ↦ elim (Option-cases (octets_from (suc left) behind)) [
      | inl g ↦ absurd (ground arith)
      | inr (os, g) ↦
          let (l, all) = octets_from-AreOctets (suc left) behind g in
          let same : octets ≡ o ∷ os = ground arith in
          rw same (omega (arith, l), (parse_octet-le part f, all))
    ]
  ]
]

-- What parses as an address are four octets.
pub parse_ipv4-AreOctets :
    (address : Text) {octets : List ℕ} → parse_ipv4 address ≡ some octets → AreOctets 4 octets
unfolding parse_ipv4
parse_ipv4-AreOctets address h = octets_from-AreOctets 4 address h
