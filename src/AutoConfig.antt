-- ===== src/AutoConfig.antt =====
-- include/hyperlink/auto_config.hpp and src/auto_config.cpp: the settings of a link, their validation
-- and the negotiation of two ends. An enum holds one of its named values.
pub mod Negotiation
use hyper_link.Base.{
  ℕ, ◌<◌, ◌*◌, Bool, true, false, ◌||◌, Option, none, some, ◌++◌, min, ltb, ◌==◌, if◌then◌else◌,
  Text, codes, Error, invalid_argument, Result, ok, err, ◌>>=◌, ◌>>◌,
}
use hyper_link.Base.Int.{ℤ, pos, is_positive}

pub data LinkMode : Type 0 where
  host device auto : LinkMode

pub data TransferProfile : Type 0 where
  low_latency balanced throughput : TransferProfile

pub record AutoConfigOptions : Type 0 where
  pub mode : LinkMode
  pub profile : TransferProfile
  pub preferred_packet_bytes : ℕ
  pub discovery_timeout : ℤ
  pub require_encryption : Bool

-- `AutoConfigOptions{}`.
abbrev pub default_options : AutoConfigOptions
default_options = record {
  mode = auto;
  profile = balanced;
  preferred_packet_bytes = 64 * 1024;
  discovery_timeout = pos 1500;
  require_encryption = true;
}

pub record NegotiatedConfig : Type 0 where
  pub local_mode : LinkMode
  pub profile : TransferProfile
  pub packet_bytes : ℕ
  pub encryption_enabled : Bool
  pub session_name : Text

abbrev pub min_packet_bytes : ℕ
min_packet_bytes = 1024

abbrev pub max_packet_bytes : ℕ
max_packet_bytes = 1024 * 1024

abbrev pub profile_rank : TransferProfile → ℕ
profile_rank low_latency = 0
profile_rank balanced = 1
profile_rank throughput = 2

unfoldable pub profile_from_rank : ℕ → TransferProfile
profile_from_rank rank =
    if rank == 0 then low_latency else if rank == 2 then throughput else balanced

unfoldable pub too_small : Text
too_small = codes "preferred_packet_bytes must be at least 1024 bytes"

unfoldable pub too_large : Text
too_large = codes "preferred_packet_bytes must be no larger than 1048576 bytes"

unfoldable pub not_positive : Text
not_positive = codes "discovery_timeout must be positive"

-- The first complaint, `none` for valid options.
unfoldable pub validate : AutoConfigOptions → Option Text
validate options =
    if ltb options.preferred_packet_bytes min_packet_bytes
    then some too_small
    else if ltb max_packet_bytes options.preferred_packet_bytes
    then some too_large
    else if is_positive options.discovery_timeout
    then none
    else some not_positive

unfoldable pub local_invalid : Text
local_invalid = codes "local auto config is invalid: "

unfoldable pub peer_invalid : Text
peer_invalid = codes "peer auto config is invalid: "

-- `if (const auto error = validate(options)) throw std::invalid_argument(prefix + *error);`
unfoldable pub require_valid : Text → AutoConfigOptions → Result (Unit {0})
require_valid prefix options = elim (validate options) [
  | none ↦ ok tt
  | some error ↦ err (invalid_argument (prefix ++ error))
]

-- The mode that an end takes, from its own setting and the setting of the other end.
unfoldable pub resolve_mode : LinkMode → LinkMode → LinkMode
resolve_mode auto host = device
resolve_mode auto device = host
resolve_mode auto auto = host
resolve_mode host peer = host
resolve_mode device peer = device

-- The `NegotiatedConfig{...}` that `negotiate` returns.
unfoldable pub shared_config : AutoConfigOptions → AutoConfigOptions → Text → NegotiatedConfig
shared_config local peer session_name = record {
  local_mode = resolve_mode local.mode peer.mode;
  profile = profile_from_rank (min (profile_rank local.profile) (profile_rank peer.profile));
  packet_bytes = min local.preferred_packet_bytes peer.preferred_packet_bytes;
  encryption_enabled = local.require_encryption || peer.require_encryption;
  session_name = session_name;
}

unfoldable pub negotiate : AutoConfigOptions → AutoConfigOptions → Text → Result NegotiatedConfig
negotiate local peer session_name = do
  require_valid local_invalid local
  require_valid peer_invalid peer
  ok (shared_config local peer session_name)

unfoldable pub mode_to_string : LinkMode → Text
mode_to_string host = codes "host"
mode_to_string device = codes "device"
mode_to_string auto = codes "auto"

unfoldable pub profile_to_string : TransferProfile → Text
profile_to_string low_latency = codes "low-latency"
profile_to_string balanced = codes "balanced"
profile_to_string throughput = codes "throughput"
