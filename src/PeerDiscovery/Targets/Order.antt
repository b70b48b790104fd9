-- ===== src/PeerDiscovery/Targets/Order.antt =====
-- The targets of a discovery message come in order, none twice, and the loopback is one of them.
use hyper_link.Base.{
  ℕ, ◌≡◌, refl, ap, sym, subst, false, not, ◌||◌, ◌↔◌, Option, none, some, List, [], ◌∷◌, ◌++◌,
  Text, is_empty, text_eq, text_lt, All, All-append, Bool-cases, inl, inr,
}
use mathlib.Core.List.{Memᴰ}
use mathlib.Core.List.Memᴰ
use hyper_link.Base.Order.{IsStrict, text_order, pair_eq, pair_lt, pair_order}
use hyper_link.Base.Distinct.{Ascending, unique-sort-Ascending, unique-sort-mem}
use hyper_link.PeerDiscovery.Targets.{
  DiscoveryTarget, Interface, add_target, add_interface, add_interfaces, all_targets, broadcast_of,
  enumerate_discovery_targets, target_eq, target_lt, tie, loopback, loopback_target, everyone,
}

tie_order :
    IsStrict (pair_eq text_eq text_lt text_eq text_lt) (pair_lt text_eq text_lt text_eq text_lt)
tie_order = pair_order text_eq text_lt text_eq text_lt text_order text_order

tie_injective : (a b : DiscoveryTarget) → tie a ≡ tie b → a ≡ b
tie_injective a b e = ap (λ p. record { bind_address = p.0; destination = p.1 }) e

target_order : IsStrict target_eq target_lt
target_order = record {
  eq_iff = λ a b. (
    λ h. tie_injective a b ((tie_order.eq_iff (tie a) (tie b)).0 h),
    λ e. (tie_order.eq_iff (tie a) (tie b)).1 (ap tie e),
  );
  irrefl = λ a. tie_order.irrefl (tie a);
  trans = λ a b c h k. tie_order.trans (tie a) (tie b) (tie c) h k;
  total = λ a b h k. tie_injective a b (tie_order.total (tie a) (tie b) h k);
}

mem-append : {A : Type 0} (a : A) (xs : List A) → Memᴰ a (xs ++ (a ∷ []))
mem-append a [] = Memᴰ.head refl
mem-append a (x ∷ xs) = Memᴰ.tail (mem-append a xs)

loopback_added :
    (targets : List DiscoveryTarget) → Memᴰ loopback_target (add_target targets loopback loopback)
unfolding add_target
loopback_added targets = mem-append loopback_target targets

-- Each target has two addresses.
abbrev pub Complete : DiscoveryTarget → Type 0
Complete target = (is_empty target.bind_address ≡ false) × (is_empty target.destination ≡ false)

add_target-All :
    (targets : List DiscoveryTarget) (a b : Text)
    → All Complete targets
    → All Complete (add_target targets a b)
unfolding add_target
add_target-All targets [] b h = h
add_target-All targets (c ∷ a) [] h = h
add_target-All targets (c ∷ a) (d ∷ b) h = All-append Complete targets _ h ((refl, refl), tt)

All-mem : {A : Type 0} (P : A → Type 0) (xs : List A) (a : A) → All P xs → Memᴰ a xs → P a
All-mem P [] a all m = absurd (Memᴰ.not-nil m)
All-mem P (x ∷ xs) a (p, all) (Memᴰ.head e) = subst P (sym e) p
All-mem P (x ∷ xs) a (p, all) (Memᴰ.tail m) = All-mem P xs a all m

module _ (ipv4_string : ℕ → Text) where
  add_interface-All :
      (targets : List DiscoveryTarget) (item : Interface)
      → All Complete targets
      → All Complete (add_interface ipv4_string targets item)
  unfolding add_interface
  add_interface-All targets item h = elim (Bool-cases (not item.is_ipv4 || not item.is_up)) [
    | inl unused ↦ rw unused h
    | inr used ↦ rw used (
        add_target-All _ (ipv4_string item.address) everyone
          (add_target-All targets (ipv4_string item.address) (ipv4_string (broadcast_of item)) h))
  ]

  add_interfaces-All :
      (targets : List DiscoveryTarget) (items : List Interface)
      → All Complete targets
      → All Complete (add_interfaces ipv4_string targets items)
  unfolding add_interfaces
  add_interfaces-All targets [] h = h
  add_interfaces-All targets (item ∷ items) h =
      add_interfaces-All (add_interface ipv4_string targets item) items
        (add_interface-All targets item h)

  all_targets-All :
      (interfaces : Option (List Interface)) → All Complete (all_targets ipv4_string interfaces)
  unfolding all_targets
  all_targets-All none = add_target-All [] loopback loopback tt
  all_targets-All (some interfaces) =
      add_target-All _ loopback loopback (add_interfaces-All [] interfaces tt)

  all_targets-loopback :
      (interfaces : Option (List Interface))
      → Memᴰ loopback_target (all_targets ipv4_string interfaces)
  unfolding all_targets
  all_targets-loopback none = loopback_added []
  all_targets-loopback (some interfaces) = loopback_added _

  -- For any answer of `getifaddrs`: each target that a discovery message is sent to comes before all
  -- behind it in the order of the two addresses, so that none occurs twice; none lacks an address; the
  -- loopback is one of them; and they are exactly the targets that the loop over the interfaces adds.
  pub enumerate_discovery_targets-Ascending :
      (interfaces : Option (List Interface))
      → Ascending target_lt (enumerate_discovery_targets ipv4_string interfaces)
        × Memᴰ loopback_target (enumerate_discovery_targets ipv4_string interfaces)
        × ((target : DiscoveryTarget)
            → Memᴰ target (enumerate_discovery_targets ipv4_string interfaces)
            → Complete target)
        × ((target : DiscoveryTarget)
            → Memᴰ target (all_targets ipv4_string interfaces)
              ↔ Memᴰ target (enumerate_discovery_targets ipv4_string interfaces))
  unfolding enumerate_discovery_targets
  enumerate_discovery_targets-Ascending interfaces =
      let raw = all_targets ipv4_string interfaces in
      (
        unique-sort-Ascending target_order raw,
        (unique-sort-mem target_order loopback_target raw).0 (all_targets-loopback interfaces),
        (λ target m.
            All-mem Complete raw target (all_targets-All interfaces)
              ((unique-sort-mem target_order target raw).1 m)),
        (λ target. unique-sort-mem target_order target raw),
      )
