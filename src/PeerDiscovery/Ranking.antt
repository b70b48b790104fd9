-- ===== src/PeerDiscovery/Ranking.antt =====
-- From replies to the peer that is chosen: `source_address_precedes`, `deduplicate_candidates`,
-- `rank_candidates` and `select_fastest_peer_for_testing`.
pub mod Precedence
pub mod Fastest
pub mod Candidates
pub mod Cycle
use hyper_link.Base.{
  ℕ, Bool, true, false, ◌&&◌, ◌||◌, not, Option, none, some, List, [], ◌∷◌, ◌++◌, Text, codes,
  text_eq, text_lt, is_empty, ltb, ◌==◌, if◌then◌else◌, Error, invalid_argument,
  peer_discovery_error, Result, ok, err, what,
}
use hyper_link.Base.Order.{IsStrict}
use hyper_link.Base.Sort.{sorted_front}
use hyper_link.PeerDiscovery.{PeerEndpoint, DiscoveredPeer}
use hyper_link.PeerDiscovery.Ipv4.{parse_ipv4}
use hyper_link.PeerDiscovery.Advertisement.{parse_peer_advertisement}

-- The rates, of type `double` in the program: a linear order by `==` and `<`. A measured rate is a
-- positive number, so that NaN, which would break the laws, does not arise.
pub record Rates (R : Type 0) : Type 0 where
  pub zero_rate : R
  pub rate_eq : R → R → Bool
  pub rate_lt : R → R → Bool
  pub ordered : IsStrict rate_eq rate_lt

-- The tests behind the comparison of the parsed addresses.
unfoldable pub text_precedes : {R : Type 0} → DiscoveredPeer R → DiscoveredPeer R → Bool
text_precedes left right =
    if not (text_eq left.source_address right.source_address)
    then text_lt left.source_address right.source_address
    else if not (left.endpoint.transfer_port == right.endpoint.transfer_port)
    then ltb left.endpoint.transfer_port right.endpoint.transfer_port
    else ltb left.endpoint.probe_port right.endpoint.probe_port

-- Two addresses that both parse and differ decide; arrays compare like texts.
unfoldable pub octets_precede : Option (List ℕ) → Option (List ℕ) → Bool → Bool
octets_precede none r otherwise = otherwise
octets_precede (some l) none otherwise = otherwise
octets_precede (some l) (some r) otherwise = if not (text_eq l r) then text_lt l r else otherwise

unfoldable pub source_address_precedes : {R : Type 0} → DiscoveredPeer R → DiscoveredPeer R → Bool
source_address_precedes left right =
    octets_precede (parse_ipv4 left.source_address) (parse_ipv4 right.source_address)
      (text_precedes left right)

unfoldable pub empty_candidates : Error
empty_candidates = invalid_argument (codes "peer candidates must not be empty")

unfoldable pub no_peer : Error
no_peer = peer_discovery_error (codes "no Hyperlink peer discovered")

unfoldable pub all_failed : Text
all_failed = codes "all Hyperlink peer probes failed"

-- `std::set` of the endpoints seen so far.
abbrev pub Key : Type 0
Key = Text × ℕ × ℕ

unfoldable pub key_of : {R : Type 0} → DiscoveredPeer R → Key
key_of peer = (peer.endpoint.host, peer.endpoint.transfer_port, peer.endpoint.probe_port)

unfoldable pub key_eq : Key → Key → Bool
key_eq (h, t, p) (h', t', p') = text_eq h h' && (t == t' && p == p')

unfoldable pub has_key : Key → List Key → Bool
has_key k [] = false
has_key k (j ∷ keys) = key_eq j k || has_key k keys

unfoldable pub join_failures : Text → List Text → Text
join_failures message [] = message
join_failures message (failure ∷ failures) =
    join_failures (message ++ (codes "; " ++ failure)) failures

module _ {R : Type 0} ⦃rates : Rates R⦄ where
  -- The comparison of the sort: the faster first, then by the source address.
  unfoldable pub faster : DiscoveredPeer R → DiscoveredPeer R → Bool
  faster left right =
      if not (rates.rate_eq left.measured_bytes_per_second right.measured_bytes_per_second)
      then rates.rate_lt right.measured_bytes_per_second left.measured_bytes_per_second
      else source_address_precedes left right

  unfoldable pub select_fastest_peer : List (DiscoveredPeer R) → Result (DiscoveredPeer R)
  select_fastest_peer candidates = elim (sorted_front faster candidates) [
    | none ↦ err empty_candidates
    | some peer ↦ ok peer
  ]

  -- The loop of `deduplicate_candidates`, with the keys so far.
  unfoldable pub deduplicate_from : List Key → List (Text × Text) → List (DiscoveredPeer R)
  deduplicate_from keys [] = []
  deduplicate_from keys ((message, source) ∷ replies) =
      elim (parse_peer_advertisement rates.zero_rate message source) [
        | none ↦ deduplicate_from keys replies
        | some peer ↦ elim (has_key (key_of peer) keys) [
          | true ↦ deduplicate_from keys replies
          | false ↦ peer ∷ deduplicate_from (key_of peer ∷ keys) replies
        ]
      ]

  unfoldable pub deduplicate_candidates : List (Text × Text) → List (DiscoveredPeer R)
  deduplicate_candidates replies = deduplicate_from [] replies

  -- The loop of `rank_candidates`: the probe runs on every candidate, in a state `W` of the network. It
  -- returns the measured candidates and the messages of the probes that failed.
  unfoldable pub probe_all :
      {W : Type 0}
      → (DiscoveredPeer R → W → Result R × W)
      → List (DiscoveredPeer R)
      → W
      → List (DiscoveredPeer R) × List Text × W
  probe_all probe [] w = ([], [], w)
  probe_all probe (candidate ∷ candidates) w =
      let (outcome, w') = probe candidate w in
      let (successful, failures, w'') = probe_all probe candidates w' in
      elim outcome [
        | ok rate ↦
            (record candidate { measured_bytes_per_second = rate } ∷ successful, failures, w'')
        | err error ↦
            (successful, (candidate.endpoint.host ++ (codes ": " ++ what error)) ∷ failures, w'')
      ]

  unfoldable pub choose : List (DiscoveredPeer R) → List Text → Result (DiscoveredPeer R)
  choose [] failures = err (peer_discovery_error (join_failures all_failed failures))
  choose (peer ∷ peers) failures = select_fastest_peer (peer ∷ peers)

  unfoldable pub rank_from :
      {W : Type 0}
      → (DiscoveredPeer R → W → Result R × W)
      → List (DiscoveredPeer R)
      → W
      → Result (DiscoveredPeer R) × W
  rank_from probe [] w = (err no_peer, w)
  rank_from probe (candidate ∷ candidates) w =
      let (successful, failures, w') = probe_all probe (candidate ∷ candidates) w in
      (choose successful failures, w')

  unfoldable pub rank_candidates :
      {W : Type 0}
      → (DiscoveredPeer R → W → Result R × W)
      → List (Text × Text)
      → W
      → Result (DiscoveredPeer R) × W
  rank_candidates probe replies w = rank_from probe (deduplicate_candidates replies) w
