-- ===== src/PeerDiscovery/Ranking/Candidates.antt =====
-- The candidates that are left of the replies, and the choice among those that could be measured.
use hyper_link.Base.{
  ℕ, ◌<◌, ◌≤◌, ◌≡◌, ◌↔◌, arith, true, false, Bool-cases, inl, inr, Option-cases, none, some, Option,
  List, [], ◌∷◌, Text, All, text_eq_iff, ◌⊎◌, sym, or_false,
}
use hyper_link.PeerDiscovery.{DiscoveredPeer}
use hyper_link.PeerDiscovery.Decimal.{max_u32, parse_decimal}
use hyper_link.PeerDiscovery.Decimal.RoundTrip.{parse_decimal-le}
use hyper_link.PeerDiscovery.Ipv4.{parse_ipv4}
use hyper_link.PeerDiscovery.Advertisement.{
  advertisement_prefix, after_prefix, split_fields, parse_port, parse_streams, parse_fields,
  parse_peer_advertisement,
}
use hyper_link.PeerDiscovery.Ranking.{
  Rates, Key, key_of, key_eq, has_key, deduplicate_from, deduplicate_candidates,
}
use hyper_link.PeerDiscovery.Ranking.Precedence.{IsAddressed}

-- What holds of every peer that an advertisement is accepted for.
pub record IsAccepted {R : Type 0} (source : Text) (peer : DiscoveredPeer R) : Type 0 where
  pub addressed : IsAddressed peer
  pub from_source : (peer.source_address ≡ source) × (peer.endpoint.host ≡ source)
  pub transfer_in_range : (0 < peer.endpoint.transfer_port) × (peer.endpoint.transfer_port ≤ 65535)
  pub probe_in_range : (0 < peer.endpoint.probe_port) × (peer.endpoint.probe_port ≤ 65535)
  pub streams_in_range :
      (0 < peer.endpoint.parallel_streams) × (peer.endpoint.parallel_streams ≤ max_u32)

parse_port_bounds : (field : Text) {n : ℕ} → parse_port field ≡ some n → (0 < n) × (n ≤ 65535)
unfolding parse_port
parse_port_bounds field h = ground arith

parse_streams_bounds :
    (field : Text) {n : ℕ} → parse_streams field ≡ some n → (0 < n) × (n ≤ max_u32)
unfolding parse_streams
parse_streams_bounds field h = elim (Option-cases (parse_decimal max_u32 field)) [
  | inl e ↦ absurd (ground arith)
  | inr (m, e) ↦ let le = parse_decimal-le max_u32 field e in ground arith
]

parse_fields-IsAccepted :
    {R : Type 0} (zero_rate : R) (source : Text) (parts : Text × Text × Text × Text)
    (peer : DiscoveredPeer R) (octets : List ℕ)
    → parse_ipv4 source ≡ some octets
    → parse_fields zero_rate source parts ≡ some peer
    → IsAccepted source peer
unfolding parse_fields
parse_fields-IsAccepted zero_rate source (a, b, c, name) peer octets address h =
    elim (Option-cases (parse_port a)) [
      | inl e ↦ absurd (ground arith)
      | inr (t, e) ↦ elim (Option-cases (parse_port b)) [
        | inl f ↦ absurd (ground arith)
        | inr (p, f) ↦ elim (Option-cases (parse_streams c)) [
          | inl g ↦ absurd (ground arith)
          | inr (n, g) ↦ record {
            addressed = (octets, ground arith);
            from_source = ground arith;
            transfer_in_range = ground (arith, parse_port_bounds a e);
            probe_in_range = ground (arith, parse_port_bounds b f);
            streams_in_range = ground (arith, parse_streams_bounds c g);
          }
        ]
      ]
    ]

-- An advertisement is accepted only from an IPv4 source, which becomes the peer's host and address, and
-- only with two ports from 1 to 65535 and at least one stream.
pub parse_peer_advertisement-IsAccepted :
    {R : Type 0} (zero_rate : R) (message source : Text) (peer : DiscoveredPeer R)
    → parse_peer_advertisement zero_rate message source ≡ some peer
    → IsAccepted source peer
unfolding parse_peer_advertisement
parse_peer_advertisement-IsAccepted zero_rate message source peer h =
    elim (Option-cases (after_prefix advertisement_prefix message)) [
      | inl e ↦ absurd (ground arith)
      | inr (fields, e) ↦ elim (Option-cases (parse_ipv4 source)) [
        | inl f ↦ absurd (ground arith)
        | inr (octets, f) ↦ elim (Option-cases (split_fields fields)) [
          | inl g ↦ absurd (ground arith)
          | inr (parts, g) ↦
              parse_fields-IsAccepted zero_rate source parts peer octets f (ground arith)
        ]
      ]
    ]

key_eq_iff : (j k : Key) → (key_eq j k ≡ true) ↔ (j ≡ k)
unfolding key_eq
key_eq_iff (h, t, p) (h', t', p') = ground (arith, text_eq_iff h h')

-- The fields that tell two candidates apart.
abbrev pub SameEndpoint : {R : Type 0} → DiscoveredPeer R → DiscoveredPeer R → Type 0
SameEndpoint a b =
    (a.endpoint.host ≡ b.endpoint.host)
    × (a.endpoint.transfer_port ≡ b.endpoint.transfer_port)
    × (a.endpoint.probe_port ≡ b.endpoint.probe_port)

-- No two peers have the same host, transfer port and probe port.
abbrev pub AreDistinct : {R : Type 0} → List (DiscoveredPeer R) → Type 0
AreDistinct [] = Unit {0}
AreDistinct (peer ∷ peers) = All (λ other. ¬ SameEndpoint peer other) peers × AreDistinct peers

key_eq-SameEndpoint :
    {R : Type 0} (a b : DiscoveredPeer R) → (key_eq (key_of a) (key_of b) ≡ true) ↔ SameEndpoint a b
unfolding key_eq key_of
key_eq-SameEndpoint a b = ground (arith, text_eq_iff a.endpoint.host b.endpoint.host)

flip_endpoint : {R : Type 0} (a b : DiscoveredPeer R) → SameEndpoint a b → SameEndpoint b a
flip_endpoint a b (h, t, p) = (sym h, sym t, sym p)

-- What was announced twice by one reply is one peer.
announced_key :
    {R : Type 0} {parsed : Option (DiscoveredPeer R)} {a b : DiscoveredPeer R} (keys : List Key)
    → parsed ≡ some a
    → parsed ≡ some b
    → has_key (key_of a) keys ≡ true
    → has_key (key_of b) keys ≡ true
announced_key keys e f k = ground arith

announced_endpoint :
    {R : Type 0} {parsed : Option (DiscoveredPeer R)} {a b : DiscoveredPeer R}
    → parsed ≡ some a
    → parsed ≡ some b
    → SameEndpoint b a
announced_endpoint e f = ground arith

-- Some element has the property.
abbrev pub Any : {A : Type 0} → (A → Type 0) → List A → Type 0
Any P [] = ⊥
Any P (x ∷ xs) = P x ⊎ Any P xs

module _ (R : Type 0) ⦃rates : Rates R⦄ where
  -- One reply is dropped for its message or for an endpoint that was seen, or adds its peer.
  data Deduplicates (keys : List Key) (message source : Text) (replies : List (Text × Text))
      : List (DiscoveredPeer R) → Type 0 where
    unread :
        parse_peer_advertisement rates.zero_rate message source ≡ none
        → Deduplicates keys message source replies (deduplicate_from keys replies)
    seen :
        (peer : DiscoveredPeer R)
        → parse_peer_advertisement rates.zero_rate message source ≡ some peer
        → has_key (key_of peer) keys ≡ true
        → Deduplicates keys message source replies (deduplicate_from keys replies)
    fresh :
        (peer : DiscoveredPeer R)
        → parse_peer_advertisement rates.zero_rate message source ≡ some peer
        → has_key (key_of peer) keys ≡ false
        → Deduplicates keys message source replies
            (peer ∷ deduplicate_from (key_of peer ∷ keys) replies)

  deduplicate_from-Deduplicates :
      (keys : List Key) (message source : Text) (replies : List (Text × Text))
      → Deduplicates keys message source replies
          (deduplicate_from keys ((message, source) ∷ replies))
  unfolding deduplicate_from
  deduplicate_from-Deduplicates keys message source replies =
      elim (Option-cases (parse_peer_advertisement rates.zero_rate message source)) [
        | inl e ↦ rw (e, deduplicate_from) (unread e)
        | inr (peer, e) ↦ elim (Bool-cases (has_key (key_of peer) keys)) [
          | inl k ↦ rw (e, k, deduplicate_from) (seen peer e k)
          | inr k ↦ rw (e, k, deduplicate_from) (fresh peer e k)
        ]
      ]

  -- A reply is an advertisement of a peer.
  abbrev pub Announces : DiscoveredPeer R → Text × Text → Type 0
  Announces peer (message, source) =
      parse_peer_advertisement rates.zero_rate message source ≡ some peer

  -- What a result is for its replies: no endpoint comes twice or is among those seen before, every peer
  -- is one that a reply announced, and every reply that announces one has its endpoint seen or returned.
  record IsDeduplicated (keys : List Key) (replies : List (Text × Text))
      (peers : List (DiscoveredPeer R)) : Type 0 where
    distinct : AreDistinct peers
    absent : All (λ peer. has_key (key_of peer) keys ≡ false) peers
    announced : All (λ peer. Any (Announces peer) replies) peers
    covered :
        All
          (λ reply.
            (peer : DiscoveredPeer R)
            → Announces peer reply
            → (has_key (key_of peer) keys ≡ true) ⊎ Any (SameEndpoint peer) peers)
          replies

  announced_later :
      (reply : Text × Text) (replies : List (Text × Text)) (peers : List (DiscoveredPeer R))
      → All (λ peer. Any (Announces peer) replies) peers
      → All (λ peer. Any (Announces peer) (reply ∷ replies)) peers
  announced_later reply replies [] h = tt
  announced_later reply replies (peer ∷ peers) (h, hs) =
      (inr h, announced_later reply replies peers hs)

  -- The others are no candidates of a key that was seen.
  absent_distinct :
      (peer : DiscoveredPeer R) (keys : List Key) (peers : List (DiscoveredPeer R))
      → All (λ other. has_key (key_of other) (key_of peer ∷ keys) ≡ false) peers
      → All (λ other. ¬ SameEndpoint peer other) peers
        × All (λ other. has_key (key_of other) keys ≡ false) peers
  unfolding has_key
  absent_distinct peer keys [] h = (tt, tt)
  absent_distinct peer keys (other ∷ peers) (h, hs) =
      let (apart, new) = absent_distinct peer keys peers hs in
      let (left, right) = (or_false _ _).0 h in
      (
        (λ same. absurd (ground (arith, (key_eq-SameEndpoint peer other).1 same)), apart),
        (right, new),
      )

  covered_fresh :
      (peer : DiscoveredPeer R) (keys : List Key) (replies : List (Text × Text))
      (peers : List (DiscoveredPeer R))
      → All
          (λ reply.
            (other : DiscoveredPeer R)
            → Announces other reply
            → (has_key (key_of other) (key_of peer ∷ keys) ≡ true) ⊎ Any (SameEndpoint other) peers)
          replies
      → All
          (λ reply.
            (other : DiscoveredPeer R)
            → Announces other reply
            → (has_key (key_of other) keys ≡ true) ⊎ Any (SameEndpoint other) (peer ∷ peers))
          replies
  unfolding has_key
  covered_fresh peer keys [] peers h = tt
  covered_fresh peer keys (reply ∷ replies) peers (h, hs) = (
    λ other announces. elim (h other announces) [
      | inr later ↦ inr (inr later)
      | inl known ↦ elim (Bool-cases (key_eq (key_of peer) (key_of other))) [
        | inl same ↦ inr (inl (flip_endpoint peer other ((key_eq-SameEndpoint peer other).0 same)))
        | inr apart ↦ inl (ground arith)
      ]
    ],
    covered_fresh peer keys replies peers hs,
  )

  Deduplicates-IsDeduplicated :
      (keys : List Key) (message source : Text) (replies : List (Text × Text))
      {peers : List (DiscoveredPeer R)}
      → Deduplicates keys message source replies peers
      → IsDeduplicated keys replies (deduplicate_from keys replies)
      → ((peer : DiscoveredPeer R)
          → IsDeduplicated
              (key_of peer ∷ keys)
              replies
              (deduplicate_from (key_of peer ∷ keys) replies))
      → IsDeduplicated keys ((message, source) ∷ replies) peers
  Deduplicates-IsDeduplicated keys message source replies (unread e) same more = record {
    distinct = same.distinct;
    absent = same.absent;
    announced = announced_later _ replies _ same.announced;
    covered = (λ peer announces. absurd (ground arith), same.covered);
  }
  Deduplicates-IsDeduplicated keys message source replies (seen peer e k) same more = record {
    distinct = same.distinct;
    absent = same.absent;
    announced = announced_later _ replies _ same.announced;
    covered = (λ other announces. inl (announced_key keys e announces k), same.covered);
  }
  Deduplicates-IsDeduplicated keys message source replies (fresh peer e new) same more =
      let later = more peer in
      let (apart, absent) = absent_distinct peer keys _ later.absent in
      record {
        distinct = (apart, later.distinct);
        absent = (new, absent);
        announced = (inl e, announced_later _ replies _ later.announced);
        covered = (
          λ other announces. inr (inl (announced_endpoint e announces)),
          covered_fresh peer keys replies _ later.covered,
        );
      }

  deduplicate_from-IsDeduplicated :
      (keys : List Key) (replies : List (Text × Text))
      → IsDeduplicated keys replies (deduplicate_from keys replies)
  unfolding deduplicate_from
  deduplicate_from-IsDeduplicated keys [] = record {
    distinct = tt;
    absent = tt;
    announced = tt;
    covered = tt;
  }
  deduplicate_from-IsDeduplicated keys ((message, source) ∷ replies) =
      Deduplicates-IsDeduplicated keys message source replies
        (deduplicate_from-Deduplicates keys message source replies)
        (deduplicate_from-IsDeduplicated keys replies)
        (λ peer. deduplicate_from-IsDeduplicated (key_of peer ∷ keys) replies)

  -- Every candidate that is left is one that a reply announced, no two of them have the same host,
  -- transfer port and probe port, and for every reply that announces a peer there is one with the same
  -- three.
  pub deduplicate_candidates-AreDistinct :
      (replies : List (Text × Text))
      → let candidates = deduplicate_candidates {R = R} replies in
        AreDistinct candidates
        × All (λ peer. Any (Announces peer) replies) candidates
        × All
            (λ reply.
              (peer : DiscoveredPeer R) → Announces peer reply → Any (SameEndpoint peer) candidates)
            replies
  unfolding deduplicate_candidates has_key
  deduplicate_candidates-AreDistinct replies =
      let h = deduplicate_from-IsDeduplicated [] replies in
      (h.distinct, h.announced, none_seen replies _ h.covered)
    where
      none_seen :
          (rs : List (Text × Text)) (peers : List (DiscoveredPeer R))
          → All
              (λ reply.
                (peer : DiscoveredPeer R)
                → Announces peer reply
                → (has_key (key_of peer) [] ≡ true) ⊎ Any (SameEndpoint peer) peers)
              rs
          → All
              (λ reply.
                (peer : DiscoveredPeer R) → Announces peer reply → Any (SameEndpoint peer) peers)
              rs
      none_seen [] peers h = tt
      none_seen (reply ∷ rs) peers (h, hs) = (
        λ peer announces. elim (h peer announces) [ inl e ↦ absurd (ground arith) | inr a ↦ a ],
        none_seen rs peers hs,
      )
