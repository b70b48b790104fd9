-- ===== src/PeerDiscovery/Advertisement/Configuration.antt =====
-- What a started responder has chosen.
use hyper_link.Base.{
  ℕ, ◌+◌, ◌^◌, ◌<◌, ◌≤◌, ◌≡◌, refl, ◌≢◌, ◌↔◌, ◌⊎◌, inl, inr, arith, true, false, Bool-cases, [],
  ◌∷◌, ◌++◌, Text, length, length-append, suc, ltb, ok, err, Error, Result,
}
use hyper_link.PeerDiscovery.{maximum_advertisement_bytes}
use hyper_link.PeerDiscovery.Decimal.{max_u32, to_string}
use hyper_link.PeerDiscovery.Decimal.RoundTrip.{length-to_string}
use hyper_link.PeerDiscovery.Advertisement.{
  PeerDiscoveryResponderOptions, Configured, advertisement_prefix, space, has_gap,
  last_transfer_port, select_probe_port, write_advertisement, with_advertisement, configure,
  invalid_options, range_too_long, no_probe_port, too_long,
}

-- The options' fields are 16-bit ports and a 32-bit number of streams.
pub record IsTyped (o : PeerDiscoveryResponderOptions) : Type 0 where
  pub transfer_fits : o.transfer_port ≤ 65535
  pub probe_fits : o.probe_port ≤ 65535
  pub discovery_fits : o.discovery_port ≤ 65535
  pub streams_fit : o.parallel_streams ≤ max_u32

-- What the configuration of a responder guarantees.
pub record IsConfigured (o : PeerDiscoveryResponderOptions) (c : Configured) : Type 0 where
  pub transfer_pos : 0 < o.transfer_port
  pub streams_pos : 0 < o.parallel_streams
  pub in_range : o.transfer_port + o.parallel_streams ≤ 65536
  pub named : o.display_name ≢ []
  pub probe_port : (0 < c.selected_probe_port) × (c.selected_probe_port ≤ 65535)
  pub outside :
      (c.selected_probe_port < o.transfer_port)
      ⊎ (o.transfer_port + o.parallel_streams ≤ c.selected_probe_port)
  pub kept :
      ((o.transfer_port ≤ o.probe_port) × (o.probe_port < o.transfer_port + o.parallel_streams))
      ⊎ (c.selected_probe_port ≡ o.probe_port)
  pub written : c.advertisement ≡ write_advertisement o c.selected_probe_port
  pub short : length c.advertisement ≤ maximum_advertisement_bytes

has_gap-false :
    (o : PeerDiscoveryResponderOptions)
    → (has_gap o ≡ false) ↔ (
        (0 < o.transfer_port)
        × (0 < o.probe_port)
        × (0 < o.discovery_port)
        × (0 < o.parallel_streams)
        × (o.display_name ≢ []))
unfolding has_gap
has_gap-false o = ground arith

configure_inverts :
    (o : PeerDiscoveryResponderOptions) {c : Configured}
    → configure o ≡ ok c
    → (has_gap o ≡ false)
      × (last_transfer_port o ≤ 65535)
      × (select_probe_port o ≡ ok c.selected_probe_port)
      × (with_advertisement o c.selected_probe_port ≡ ok c)
unfolding configure with_advertisement
configure_inverts o h = ground arith

select_probe_port_outside :
    (o : PeerDiscoveryResponderOptions) {probe : ℕ}
    → IsTyped o
    → 0 < o.transfer_port
    → 0 < o.probe_port
    → 0 < o.parallel_streams
    → last_transfer_port o ≤ 65535
    → select_probe_port o ≡ ok probe
    → (0 < probe)
      × (probe ≤ 65535)
      × ((probe < o.transfer_port) ⊎ (o.transfer_port + o.parallel_streams ≤ probe))
      × ((o.probe_port < o.transfer_port) ⊎ (o.transfer_port + o.parallel_streams ≤ o.probe_port)
          → probe ≡ o.probe_port)
unfolding select_probe_port
select_probe_port_outside o t a b c l h = ground arith

with_advertisement_inverts :
    (o : PeerDiscoveryResponderOptions) (probe : ℕ) {c : Configured}
    → with_advertisement o probe ≡ ok c
    → (c.advertisement ≡ write_advertisement o probe)
      × (length c.advertisement ≤ maximum_advertisement_bytes)
unfolding with_advertisement
with_advertisement_inverts o probe h = ground arith

-- A responder that gets past its checks announces valid options: a transfer range within the 16-bit
-- ports, at least one stream, a name, and a message of at most 512 bytes. Its probe port is a valid
-- port outside the range of the transfer streams, and the wanted one if that was outside already.
pub configure-IsConfigured :
    (o : PeerDiscoveryResponderOptions) (c : Configured)
    → IsTyped o
    → configure o ≡ ok c
    → IsConfigured o c
configure-IsConfigured o c typed h =
    let (gap, fits, selected, written) = configure_inverts o h in
    let (transfer, probe, discovery, streams, named) = (has_gap-false o).0 gap in
    let (pos, le, out, same) =
      select_probe_port_outside o typed transfer probe streams fits selected in
    let (text, short) = with_advertisement_inverts o c.selected_probe_port written in
    record {
      transfer_pos = transfer;
      streams_pos = streams;
      in_range = omega arith;
      named = named;
      probe_port = (pos, le);
      outside = out;
      kept = ground (arith, same);
      written = text;
      short = short;
    }

select_probe_port_refuses :
    (o : PeerDiscoveryResponderOptions) {e : Error}
    → has_gap o ≡ false
    → last_transfer_port o ≤ 65535
    → select_probe_port o ≡ err e
    → (e ≡ no_probe_port) × (o.transfer_port ≡ 1) × (o.parallel_streams ≡ 65535)
unfolding select_probe_port
select_probe_port_refuses o g l h = ground (arith, has_gap-false o)

-- A number and a space in front of a text.
length-field :
    (digits n : ℕ) (s : Text)
    → n < 10 ^ suc digits
    → length (to_string n ++ (space ∷ s)) ≤ suc digits + suc (length s)
length-field digits n s h =
    omega (arith, length-append (to_string n) (space ∷ s), length-to_string digits n h)

-- The prefix, three spaces, two ports of at most five digits and a number of streams of at most ten.
write_advertisement_le :
    (o : PeerDiscoveryResponderOptions) (probe : ℕ)
    → o.transfer_port ≤ 65535
    → probe ≤ 65535
    → o.parallel_streams ≤ max_u32
    → length (write_advertisement o probe) ≤ 37 + length o.display_name
unfolding write_advertisement advertisement_prefix
write_advertisement_le o probe t p s =
    let last = to_string o.parallel_streams ++ (space ∷ o.display_name) in
    let later = to_string probe ++ (space ∷ last) in
    let fields = to_string o.transfer_port ++ (space ∷ later) in
    let streams = length-field 9 o.parallel_streams o.display_name (omega arith) in
    let probes = length-field 4 probe last (omega arith) in
    let ports = length-field 4 o.transfer_port later (omega arith) in
    omega (arith, length-append advertisement_prefix fields, ports, probes, streams)

with_advertisement_refuses :
    (o : PeerDiscoveryResponderOptions) (probe : ℕ) {e : Error}
    → with_advertisement o probe ≡ err e
    → (e ≡ too_long) × (maximum_advertisement_bytes < length (write_advertisement o probe))
unfolding with_advertisement
with_advertisement_refuses o probe h = ground arith

-- The reasons to refuse a responder's options, each with its own error.
pub data Refusal (o : PeerDiscoveryResponderOptions) (e : Error) : Type 0 where
  missing :
      e ≡ invalid_options
      → (o.transfer_port ≡ 0)
        ⊎ ((o.probe_port ≡ 0)
            ⊎ ((o.discovery_port ≡ 0) ⊎ ((o.parallel_streams ≡ 0) ⊎ (o.display_name ≡ []))))
      → Refusal o e
  beyond : e ≡ range_too_long → 65536 < o.transfer_port + o.parallel_streams → Refusal o e
  crowded : e ≡ no_probe_port → o.transfer_port ≡ 1 → o.parallel_streams ≡ 65535 → Refusal o e
  oversized : e ≡ too_long → 475 < length o.display_name → Refusal o e

has_gap-true :
    (o : PeerDiscoveryResponderOptions)
    → has_gap o ≡ true
    → (o.transfer_port ≡ 0)
      ⊎ ((o.probe_port ≡ 0)
          ⊎ ((o.discovery_port ≡ 0) ⊎ ((o.parallel_streams ≡ 0) ⊎ (o.display_name ≡ []))))
unfolding has_gap
has_gap-true o h = ground arith

-- A responder whose options are 16-bit ports and a 32-bit number of streams refuses them only for a port or
-- a number of streams that is zero or an empty name, for a transfer range beyond port 65535, for a range of
-- all ports, which leaves none to probe, or for a name of more than 475 bytes, each with its own error.
pub configure-Refusal :
    (o : PeerDiscoveryResponderOptions) (e : Error) → IsTyped o → configure o ≡ err e → Refusal o e
unfolding configure
configure-Refusal o e typed h = elim (Bool-cases (has_gap o)) [
  | inl g ↦ missing (ground arith) (has_gap-true o g)
  | inr g ↦ elim (Bool-cases (ltb 65535 (last_transfer_port o))) [
    | inl l ↦ beyond (ground arith) (ground arith)
    | inr l ↦ selected (select_probe_port o) refl g (ground arith)
  ]
]
  where
    selected :
        (r : Result ℕ)
        → select_probe_port o ≡ r
        → has_gap o ≡ false
        → last_transfer_port o ≤ 65535
        → Refusal o e
    selected (err x) s g l =
        let (f, t, p) = select_probe_port_refuses o g l s in crowded (ground arith) t p
    selected (ok probe) s g l =
        let (transfer, wanted, discovery, streams, named) = (has_gap-false o).0 g in
        let (pos, le, out, same) = select_probe_port_outside o typed transfer wanted streams l s in
        let (f, t) = with_advertisement_refuses o probe {e = e} (ground arith) in
        let short = write_advertisement_le o probe typed.transfer_fits le typed.streams_fit in
        oversized f (omega (arith, t, short))
