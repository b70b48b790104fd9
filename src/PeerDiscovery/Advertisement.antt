-- ===== src/PeerDiscovery/Advertisement.antt =====
-- The advertisement of a responder: how `PeerDiscoveryResponder::Impl::start` checks its options and
-- writes the message, and how `parse_peer_advertisement_for_testing` reads one.
pub mod Configuration
pub mod RoundTrip
use hyper_link.Base.{
  ℕ, ◌+◌, ◌-◌, ◌%◌, ◌^◌, Bool, true, false, ◌&&◌, ◌||◌, Option, none, some, [], ◌∷◌, ◌++◌, Text,
  codes, text_eq, is_empty, break_at, take, drop, length, ltb, leb, ◌==◌, if◌then◌else◌, Error,
  peer_discovery_error, Result, ok, err,
}
use hyper_link.PeerDiscovery.{PeerEndpoint, DiscoveredPeer, maximum_advertisement_bytes}
use hyper_link.PeerDiscovery.Decimal.{parse_decimal, max_u32, to_string}
use hyper_link.PeerDiscovery.Ipv4.{parse_ipv4, ◌>>=◌}

abbrev pub space : ℕ
space = b' '

unfoldable pub advertisement_prefix : Text
advertisement_prefix = codes "HLINK_PEER_V2 "

-- `message.starts_with(prefix)` and `message.substr(prefix.size())`.
unfoldable pub after_prefix : Text → Text → Option Text
after_prefix prefix message =
    if text_eq (take (length prefix) message) prefix
    then some (drop (length prefix) message)
    else none

pub record PeerDiscoveryResponderOptions : Type 0 where
  pub bind_host : Text
  pub transfer_port : ℕ
  pub probe_port : ℕ
  pub discovery_port : ℕ
  pub parallel_streams : ℕ
  pub display_name : Text

-- What `start` derives from the options before it opens a socket.
pub record Configured : Type 0 where
  pub selected_probe_port : ℕ
  pub advertisement : Text

unfoldable pub invalid_options : Error
invalid_options = peer_discovery_error (codes "invalid peer discovery responder options")

unfoldable pub range_too_long : Error
range_too_long =
    peer_discovery_error (codes "transfer port plus parallel stream count exceeds 65535")

unfoldable pub no_probe_port : Error
no_probe_port =
    peer_discovery_error (codes "no probe port is available outside the transfer stream range")

unfoldable pub too_long : Error
too_long = peer_discovery_error (codes "peer discovery advertisement exceeds 512 bytes")

unfoldable pub has_gap : PeerDiscoveryResponderOptions → Bool
has_gap options =
    options.transfer_port == 0
    || (options.probe_port == 0
        || (options.discovery_port == 0
            || (options.parallel_streams == 0 || is_empty options.display_name)))

-- The last port of the transfer streams, a 64-bit number; `parallel_streams` is positive here.
abbrev pub last_transfer_port : PeerDiscoveryResponderOptions → ℕ
last_transfer_port options = options.transfer_port + options.parallel_streams - 1

-- The wanted probe port, or the nearest one outside the range of the transfer streams.
unfoldable pub select_probe_port : PeerDiscoveryResponderOptions → Result ℕ
select_probe_port options =
    let last = last_transfer_port options in
    if leb options.transfer_port options.probe_port && leb options.probe_port last
    then if ltb last 65535
      then ok ((last + 1) % 2 ^ 16)
      else if ltb 1 options.transfer_port
      then ok ((options.transfer_port - 1) % 2 ^ 16)
      else err no_probe_port
    else ok options.probe_port

unfoldable pub write_advertisement : PeerDiscoveryResponderOptions → ℕ → Text
write_advertisement options probe_port =
    advertisement_prefix
    ++ (to_string options.transfer_port
        ++ (space
            ∷ (to_string probe_port
                ++ (space
                    ∷ (to_string options.parallel_streams ++ (space ∷ options.display_name))))))

-- The checks of `start` on the length of the message.
unfoldable pub with_advertisement : PeerDiscoveryResponderOptions → ℕ → Result Configured
with_advertisement options probe_port =
    let advertisement = write_advertisement options probe_port in
    if ltb maximum_advertisement_bytes (length advertisement)
    then err too_long
    else ok (record { selected_probe_port = probe_port; advertisement = advertisement })

unfoldable pub configure : PeerDiscoveryResponderOptions → Result Configured
configure options =
    if has_gap options
    then err invalid_options
    else if ltb 65535 (last_transfer_port options)
    then err range_too_long
    else elim (select_probe_port options) [
      | err error ↦ err error
      | ok probe_port ↦ with_advertisement options probe_port
    ]

-- The four fields behind the prefix: three numbers, each with a space behind it, and a name.
unfoldable pub split_fields : Text → Option (Text × Text × Text × Text)
split_fields fields = do
  first ← break_at space fields
  second ← break_at space first.1
  third ← break_at space second.1
  if is_empty third.1 then none else some (first.0, second.0, third.0, third.1)

-- The port of a 16-bit field: 1 to 65535.
unfoldable pub parse_port : Text → Option ℕ
parse_port field = do
  port ← parse_decimal max_u32 field
  if port == 0 || ltb 65535 port then none else some port

unfoldable pub parse_streams : Text → Option ℕ
parse_streams field = do
  streams ← parse_decimal max_u32 field
  if streams == 0 then none else some streams

unfoldable pub parse_fields :
    {R : Type 0} → R → Text → (Text × Text × Text × Text) → Option (DiscoveredPeer R)
parse_fields zero_rate source (transfer, probe, streams, name) = do
  transfer_port ← parse_port transfer
  probe_port ← parse_port probe
  parallel_streams ← parse_streams streams
  some (record {
    endpoint = record {
      host = source;
      transfer_port = transfer_port;
      probe_port = probe_port;
      parallel_streams = parallel_streams;
    };
    display_name = name;
    source_address = source;
    measured_bytes_per_second = zero_rate;
  })

-- `zero_rate` is the rate 0.0 of a peer that was not measured yet.
unfoldable pub parse_peer_advertisement : {R : Type 0} → R → Text → Text → Option (DiscoveredPeer R)
parse_peer_advertisement zero_rate message source =
    if ltb maximum_advertisement_bytes (length message) then none else do
      fields ← after_prefix advertisement_prefix message
      octets ← parse_ipv4 source
      parts ← split_fields fields
      parse_fields zero_rate source parts
