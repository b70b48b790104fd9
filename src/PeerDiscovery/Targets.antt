-- ===== src/PeerDiscovery/Targets.antt =====
-- `enumerate_discovery_targets` (the POSIX variant): from which address to which a discovery message
-- is sent.
pub mod Order
use hyper_link.Base.{
  ℕ, ◌+◌, ◌-◌, ◌^◌, Bool, true, false, ◌&&◌, ◌||◌, not, Option, none, some, List, [], ◌∷◌, ◌++◌,
  Text, codes, text_eq, text_lt, is_empty, if◌then◌else◌,
}
use Prim.Native.Nat.{bit_or}
use hyper_link.Base.Order.{pair_eq, pair_lt}
use hyper_link.Base.Sort.{sort}
use hyper_link.Base.Distinct.{unique}

pub record DiscoveryTarget : Type 0 where
  pub bind_address : Text
  pub destination : Text

-- What the code reads of an `ifaddrs`: whether it has an IPv4 address, the flag `IFF_UP`, and the
-- addresses as 32-bit numbers.
pub record Interface : Type 0 where
  pub is_ipv4 : Bool
  pub is_up : Bool
  pub address : ℕ
  pub broadaddr : Option ℕ
  pub netmask : Option ℕ

unfoldable pub add_target : List DiscoveryTarget → Text → Text → List DiscoveryTarget
add_target targets bind_address destination =
    if not (is_empty bind_address) && not (is_empty destination)
    then targets ++ (record { bind_address = bind_address; destination = destination } ∷ [])
    else targets

-- `~mask` on 32 bits.
abbrev pub complement : ℕ → ℕ
complement mask = 2 ^ 32 - 1 - mask

unfoldable pub broadcast_of : Interface → ℕ
broadcast_of item = elim item.broadaddr [
  | some broadcast ↦ broadcast
  | none ↦ elim item.netmask [ some mask ↦ bit_or item.address (complement mask) | none ↦ 0 ]
]

abbrev pub everyone : Text
everyone = codes "255.255.255.255"

abbrev pub loopback : Text
loopback = codes "127.0.0.1"

abbrev pub loopback_target : DiscoveryTarget
loopback_target = record { bind_address = loopback; destination = loopback }

-- The key of `std::tie`, its order, and the test of `std::unique`.
abbrev pub tie : DiscoveryTarget → Text × Text
tie target = (target.bind_address, target.destination)

abbrev pub target_lt : DiscoveryTarget → DiscoveryTarget → Bool
target_lt left right = pair_lt text_eq text_lt text_eq text_lt (tie left) (tie right)

abbrev pub target_eq : DiscoveryTarget → DiscoveryTarget → Bool
target_eq left right = pair_eq text_eq text_lt text_eq text_lt (tie left) (tie right)

-- `ipv4_string` is a parameter here.
module _ (ipv4_string : ℕ → Text) where
  unfoldable pub add_interface : List DiscoveryTarget → Interface → List DiscoveryTarget
  add_interface targets item =
      if not item.is_ipv4 || not item.is_up
      then targets
      else let host = ipv4_string item.address in
        add_target (add_target targets host (ipv4_string (broadcast_of item))) host everyone

  unfoldable pub add_interfaces : List DiscoveryTarget → List Interface → List DiscoveryTarget
  add_interfaces targets [] = targets
  add_interfaces targets (item ∷ items) = add_interfaces (add_interface targets item) items

  -- `none` is a `getifaddrs` that fails.
  unfoldable pub all_targets : Option (List Interface) → List DiscoveryTarget
  all_targets none = add_target [] loopback loopback
  all_targets (some interfaces) = add_target (add_interfaces [] interfaces) loopback loopback

  unfoldable pub enumerate_discovery_targets : Option (List Interface) → List DiscoveryTarget
  enumerate_discovery_targets interfaces =
      unique target_eq (sort target_lt (all_targets interfaces))
