-- ===== src/PeerDiscovery/Ranking/Precedence.antt =====
-- The order of peers by their source: a strict order where the sources are IPv4 addresses.
use hyper_link.Base.{
  ℕ, ◌≡◌, arith, Bool, true, false, none, some, List, [], Text, text_eq, text_lt, ltb, ◌==◌,
}
use hyper_link.Base.Order.{IsStrict, pair_eq, pair_lt, pair_order, number_order, text_order}
use hyper_link.PeerDiscovery.{DiscoveredPeer}
use hyper_link.PeerDiscovery.Ipv4.{parse_ipv4}
use hyper_link.PeerDiscovery.Ranking.{text_precedes, octets_precede, source_address_precedes}

-- Octets, address, transfer port and probe port, in the order of their weight.
abbrev pub SourceKey : Type 0
SourceKey = List ℕ × (Text × (ℕ × ℕ))

abbrev pub ports_lt : ℕ × ℕ → ℕ × ℕ → Bool
ports_lt = pair_lt ◌==◌ ltb ◌==◌ ltb

abbrev pub ports_eq : ℕ × ℕ → ℕ × ℕ → Bool
ports_eq = pair_eq ◌==◌ ltb ◌==◌ ltb

abbrev pub text_key_lt : Text × (ℕ × ℕ) → Text × (ℕ × ℕ) → Bool
text_key_lt = pair_lt text_eq text_lt ports_eq ports_lt

abbrev pub text_key_eq : Text × (ℕ × ℕ) → Text × (ℕ × ℕ) → Bool
text_key_eq = pair_eq text_eq text_lt ports_eq ports_lt

abbrev pub source_key_lt : SourceKey → SourceKey → Bool
source_key_lt = pair_lt text_eq text_lt text_key_eq text_key_lt

abbrev pub source_key_eq : SourceKey → SourceKey → Bool
source_key_eq = pair_eq text_eq text_lt text_key_eq text_key_lt

pub source_key_order : IsStrict source_key_eq source_key_lt
source_key_order =
    pair_order _ _ _ _ text_order
      (pair_order _ _ _ _ text_order (pair_order _ _ _ _ number_order number_order))

module _ {R : Type 0} where
  abbrev pub octets_of : DiscoveredPeer R → List ℕ
  octets_of peer = elim (parse_ipv4 peer.source_address) [ none ↦ [] | some octets ↦ octets ]

  abbrev pub source_key : DiscoveredPeer R → SourceKey
  source_key peer = (
    octets_of peer,
    (peer.source_address, (peer.endpoint.transfer_port, peer.endpoint.probe_port)),
  )

  -- The source is an IPv4 address, as it is of every peer that an advertisement was read from.
  abbrev pub IsAddressed : DiscoveredPeer R → Type 0
  IsAddressed peer = (octets : List ℕ) × (parse_ipv4 peer.source_address ≡ some octets)

  text_precedes-key :
      (left right : DiscoveredPeer R)
      → text_precedes left right ≡ text_key_lt (source_key left).1 (source_key right).1
  unfolding text_precedes
  text_precedes-key left right = ground arith

  pub source_address_precedes-key :
      (left right : DiscoveredPeer R)
      → IsAddressed left
      → IsAddressed right
      → source_address_precedes left right ≡ source_key_lt (source_key left) (source_key right)
  unfolding source_address_precedes octets_precede
  source_address_precedes-key left right (l, el) (r, er) =
      ground (arith, text_precedes-key left right)

-- Between peers with IPv4 addresses the comparison is a strict order: numerically by address, where
-- that is the same by its spelling, then by transfer port and by probe port.
module _ {R : Type 0} where
  pub source_address_precedes-IsStrict :
      (a b c : DiscoveredPeer R)
      → IsAddressed a
      → IsAddressed b
      → IsAddressed c
      → (source_address_precedes a a ≡ false)
        × (source_address_precedes a b ≡ true
            → source_address_precedes b c ≡ true
            → source_address_precedes a c ≡ true)
        × (source_address_precedes a b ≡ false
            → source_address_precedes b a ≡ false
            → source_key a ≡ source_key b)
  source_address_precedes-IsStrict a b c ha hb hc =
      rw
        (
          source_address_precedes-key a a ha ha,
          source_address_precedes-key a b ha hb,
          source_address_precedes-key b c hb hc,
          source_address_precedes-key a c ha hc,
          source_address_precedes-key b a hb ha,
        )
        (
          source_key_order.irrefl (source_key a),
          source_key_order.trans (source_key a) (source_key b) (source_key c),
          source_key_order.total (source_key a) (source_key b),
        )
