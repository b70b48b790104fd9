-- ===== src/PeerDiscovery/Advertisement/RoundTrip.antt =====
-- What a discovering peer reads in an advertisement.
use hyper_link.Base.{
  ℕ, ◌<◌, ◌≤◌, ◌≡◌, refl, ◌≢◌, arith, false, some, [], ◌∷◌, ◌++◌, Text, Lacks, text_eq_refl,
  is_empty, break_at-append, take-append, drop-append, length, ltb, le→ltb_false, List, ok,
}
use hyper_link.PeerDiscovery.{maximum_advertisement_bytes}
use hyper_link.PeerDiscovery.Decimal.{max_u32, to_string, is_digit}
use hyper_link.PeerDiscovery.Decimal.RoundTrip.{parse_decimal-to_string, to_string-Lacks}
use hyper_link.PeerDiscovery.Ipv4.{parse_ipv4}
use hyper_link.PeerDiscovery.Advertisement.{
  space, advertisement_prefix, after_prefix, PeerDiscoveryResponderOptions, Configured,
  write_advertisement, configure, split_fields, parse_port, parse_streams, parse_fields,
  parse_peer_advertisement,
}
use hyper_link.PeerDiscovery.Advertisement.Configuration.{
  IsTyped, IsConfigured, configure-IsConfigured,
}

after_prefix-append : (prefix rest : Text) → after_prefix prefix (prefix ++ rest) ≡ some rest
unfolding after_prefix
after_prefix-append prefix rest =
    rw (take-append prefix rest refl, text_eq_refl prefix, drop-append prefix rest refl)

number-Lacks : (n : ℕ) → Lacks space (to_string n)
unfolding is_digit
number-Lacks n = to_string-Lacks space n refl

split_fields_three :
    (a b c name : Text)
    → Lacks space a
    → Lacks space b
    → Lacks space c
    → is_empty name ≡ false
    → split_fields (a ++ (space ∷ (b ++ (space ∷ (c ++ (space ∷ name)))))) ≡ some (a, b, c, name)
unfolding split_fields
split_fields_three a b c name ha hb hc h =
    rw (break_at-append space a _ ha, break_at-append space b _ hb, break_at-append space c _ hc, h)

parse_port-to_string : (n : ℕ) → 0 < n → n ≤ 65535 → parse_port (to_string n) ≡ some n
unfolding parse_port
parse_port-to_string n h k = ground (arith, parse_decimal-to_string max_u32 n)

parse_streams-to_string : (n : ℕ) → 0 < n → n ≤ max_u32 → parse_streams (to_string n) ≡ some n
unfolding parse_streams
parse_streams-to_string n h k = ground (arith, parse_decimal-to_string max_u32 n)

nonempty : (s : Text) → s ≢ [] → is_empty s ≡ false
nonempty [] h = absurd (h refl)
nonempty (c ∷ s) h = refl

parse_fields-to_string :
    {R : Type 0} (zero_rate : R) (source : Text) (o : PeerDiscoveryResponderOptions)
    (c : Configured)
    → IsTyped o
    → IsConfigured o c
    → parse_fields zero_rate source (
      to_string o.transfer_port,
      to_string c.selected_probe_port,
      to_string o.parallel_streams,
      o.display_name,
    )
      ≡ some (record {
        endpoint = record {
          host = source;
          transfer_port = o.transfer_port;
          probe_port = c.selected_probe_port;
          parallel_streams = o.parallel_streams;
        };
        display_name = o.display_name;
        source_address = source;
        measured_bytes_per_second = zero_rate;
      })
unfolding parse_fields
parse_fields-to_string zero_rate source o c t v = rw (
  parse_port-to_string o.transfer_port v.transfer_pos t.transfer_fits,
  parse_port-to_string c.selected_probe_port v.probe_port.0 v.probe_port.1,
  parse_streams-to_string o.parallel_streams v.streams_pos t.streams_fit,
)

-- A peer that receives the advertisement of a started responder from an IPv4 address reads exactly what
-- the responder was set to: that address as host, its transfer port, the probe port it selected, its
-- number of streams and its name.
pub parse_peer_advertisement-configure :
    {R : Type 0} (zero_rate : R) (o : PeerDiscoveryResponderOptions) (c : Configured)
    (source : Text) (octets : List ℕ)
    → IsTyped o
    → configure o ≡ ok c
    → parse_ipv4 source ≡ some octets
    → parse_peer_advertisement zero_rate c.advertisement source
      ≡ some (record {
        endpoint = record {
          host = source;
          transfer_port = o.transfer_port;
          probe_port = c.selected_probe_port;
          parallel_streams = o.parallel_streams;
        };
        display_name = o.display_name;
        source_address = source;
        measured_bytes_per_second = zero_rate;
      })
unfolding parse_peer_advertisement write_advertisement
parse_peer_advertisement-configure zero_rate o c source octets t h address =
    let v = configure-IsConfigured o c t h in
    let short : ltb maximum_advertisement_bytes (length c.advertisement) ≡ false =
      le→ltb_false _ _ v.short in
    rw
      (
        short,
        v.written,
        after_prefix-append advertisement_prefix _,
        address,
        split_fields_three (to_string o.transfer_port) (to_string c.selected_probe_port)
            (to_string o.parallel_streams) o.display_name (number-Lacks _) (number-Lacks _)
            (number-Lacks _) (nonempty _ v.named),
      )
      (parse_fields-to_string zero_rate source o c t v)
