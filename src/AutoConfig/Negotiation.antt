-- ===== src/AutoConfig/Negotiation.antt =====
-- What `negotiate` promises to the two ends of a link.
use hyper_link.Base.{
  ◌≤◌, min, ◌≡◌, refl, ◌≢◌, ◌↔◌, ◌⊎◌, inl, inr, true, Option-cases, none, some, ◌++◌, arith, Text,
  invalid_argument, ok, err,
}
use hyper_link.Base.Int.{is_positive}
use hyper_link.AutoConfig.{
  LinkMode, host, device, auto, TransferProfile, AutoConfigOptions, NegotiatedConfig,
  min_packet_bytes, max_packet_bytes, profile_rank, profile_from_rank, shared_config, validate,
  require_valid, resolve_mode, negotiate, local_invalid, peer_invalid,
}

-- The options that the library accepts.
pub record IsValid (o : AutoConfigOptions) : Type 0 where
  pub large_enough : min_packet_bytes ≤ o.preferred_packet_bytes
  pub small_enough : o.preferred_packet_bytes ≤ max_packet_bytes
  pub timed : is_positive o.discovery_timeout ≡ true

validate-IsValid : (o : AutoConfigOptions) → (validate o ≡ none) ↔ IsValid o
unfolding validate
validate-IsValid o = ground arith

-- What a valid pair of options must be given: the smaller packet, the more conservative profile,
-- encryption if either end asks for it, and a definite role.
pub record IsShared (l p : AutoConfigOptions) (name : Text) (c : NegotiatedConfig) : Type 0 where
  pub packet_le :
      (c.packet_bytes ≤ l.preferred_packet_bytes) × (c.packet_bytes ≤ p.preferred_packet_bytes)
  pub packet_within : (min_packet_bytes ≤ c.packet_bytes) × (c.packet_bytes ≤ max_packet_bytes)
  pub packet_chosen :
      (c.packet_bytes ≡ l.preferred_packet_bytes) ⊎ (c.packet_bytes ≡ p.preferred_packet_bytes)
  pub profile_le :
      (profile_rank c.profile ≤ profile_rank l.profile)
      × (profile_rank c.profile ≤ profile_rank p.profile)
  pub profile_chosen : (c.profile ≡ l.profile) ⊎ (c.profile ≡ p.profile)
  pub encrypted :
      (c.encryption_enabled ≡ true)
      ↔ ((l.require_encryption ≡ true) ⊎ (p.require_encryption ≡ true))
  pub definite : c.local_mode ≢ auto
  pub own_mode : (l.mode ≡ auto) ⊎ (c.local_mode ≡ l.mode)
  pub named : c.session_name ≡ name

profile_from_rank-min :
    (a b : TransferProfile)
    → let c = profile_from_rank (min (profile_rank a) (profile_rank b)) in
      (profile_rank c ≤ profile_rank a) × (profile_rank c ≤ profile_rank b) × ((c ≡ a) ⊎ (c ≡ b))
unfolding profile_from_rank
profile_from_rank-min a b = ground arith

resolve_mode_definite :
    (l p : LinkMode) → (resolve_mode l p ≢ auto) × ((l ≡ auto) ⊎ (resolve_mode l p ≡ l))
unfolding resolve_mode
resolve_mode_definite l p = ground arith

shared_config-IsShared :
    (l p : AutoConfigOptions) (name : Text)
    → IsValid l
    → IsValid p
    → IsShared l p name (shared_config l p name)
unfolding shared_config
shared_config-IsShared l p name vl vp = record {
  packet_le = omega arith;
  packet_within = omega arith;
  packet_chosen = ground arith;
  profile_le = ground (arith, profile_from_rank-min l.profile p.profile);
  profile_chosen = ground (arith, profile_from_rank-min l.profile p.profile);
  encrypted = ground arith;
  definite = (resolve_mode_definite l.mode p.mode).0;
  own_mode = (resolve_mode_definite l.mode p.mode).1;
  named = refl;
}

-- The guard on one end's options passes or throws the complaint.
abbrev Guards : Text → AutoConfigOptions → Type 0
Guards prefix o =
    (IsValid o × (validate o ≡ none) × (require_valid prefix o ≡ ok tt))
    ⊎ ((m : Text) × (validate o ≡ some m)
        × (require_valid prefix o ≡ err (invalid_argument (prefix ++ m))))

require_valid-Guards : (prefix : Text) (o : AutoConfigOptions) → Guards prefix o
unfolding require_valid
require_valid-Guards prefix o = elim (Option-cases (validate o)) [
  | inl e ↦ inl ((validate-IsValid o).0 e, e, rw (e, require_valid))
  | inr (m, e) ↦ inr (m, e, rw (e, require_valid))
]

negotiate-eq-ok :
    (l p : AutoConfigOptions) (name : Text)
    → IsValid l
    → IsValid p
    → negotiate l p name ≡ ok (shared_config l p name)
unfolding negotiate
negotiate-eq-ok l p name vl vp = ground (
  arith,
  require_valid-Guards local_invalid l,
  require_valid-Guards peer_invalid p,
  (validate-IsValid l).1 vl,
  (validate-IsValid p).1 vp,
)

negotiate_inverts :
    (l p : AutoConfigOptions) (name : Text) {c : NegotiatedConfig}
    → negotiate l p name ≡ ok c
    → IsValid l × IsValid p × (c ≡ shared_config l p name)
unfolding negotiate
negotiate_inverts l p name h = elim (require_valid-Guards local_invalid l) [
  | inl (vl, _, e) ↦ elim (require_valid-Guards peer_invalid p) [
    | inl (vp, _, f) ↦ (vl, vp, ground arith)
    | inr (m, _, f) ↦ absurd (ground arith)
  ]
  | inr (m, _, e) ↦ absurd (ground arith)
]

-- Valid options of both ends are negotiated: the result takes the smaller packet size, which lies
-- between 1024 and 1048576 bytes, the lower-ranked profile, encryption exactly if an end requires it,
-- the local role as set or, for `auto`, a definite one, and the given name.
pub negotiate-IsShared :
    (l p : AutoConfigOptions) (name : Text)
    → IsValid l
    → IsValid p
    → (c : NegotiatedConfig) × (negotiate l p name ≡ ok c) × IsShared l p name c
negotiate-IsShared l p name vl vp =
    (shared_config l p name, negotiate-eq-ok l p name vl vp, shared_config-IsShared l p name vl vp)

-- Negotiation succeeds exactly if both ends' options are valid; otherwise it throws
-- `invalid_argument`, with the complaint about the local options if these are invalid, and else with
-- the complaint about the peer's.
pub negotiate_fails :
    (l p : AutoConfigOptions) (name complaint : Text)
    → (validate l ≡ some complaint
        → negotiate l p name ≡ err (invalid_argument (local_invalid ++ complaint)))
      × ((validate l ≡ none)
          → (validate p ≡ some complaint)
          → negotiate l p name ≡ err (invalid_argument (peer_invalid ++ complaint)))
      × (((c : NegotiatedConfig) × (negotiate l p name ≡ ok c)) ↔ (IsValid l × IsValid p))
unfolding negotiate
negotiate_fails l p name complaint = (
  ground (arith, require_valid-Guards local_invalid l),
  ground (arith, require_valid-Guards local_invalid l, require_valid-Guards peer_invalid p),
  (
    λ h. let (vl, vp, _) = negotiate_inverts l p name h.1 in (vl, vp),
    λ v. (shared_config l p name, negotiate-eq-ok l p name v.0 v.1),
  ),
)

-- Both ends of a link, each negotiating with its own options first, agree on everything but the role.
pub negotiate_agree :
    (l p : AutoConfigOptions) (name : Text) (c d : NegotiatedConfig)
    → negotiate l p name ≡ ok c
    → negotiate p l name ≡ ok d
    → (c.packet_bytes ≡ d.packet_bytes)
      × (c.profile ≡ d.profile)
      × (c.encryption_enabled ≡ d.encryption_enabled)
      × (c.session_name ≡ d.session_name)
unfolding shared_config
negotiate_agree l p name c d h k =
    let (_, _, e) = negotiate_inverts l p name h in
    let (_, _, f) = negotiate_inverts p l name k in ground arith

-- One end is host and the other is device.
abbrev pub AreOpposite : LinkMode → LinkMode → Type 0
AreOpposite a b = ((a ≡ host) × (b ≡ device)) ⊎ ((a ≡ device) × (b ≡ host))

-- The two ends take opposite roles exactly if their settings differ: two hosts, two devices and also
-- two ends left on `auto` end up in one and the same role.
pub negotiate_roles :
    (l p : AutoConfigOptions) (name : Text) (c d : NegotiatedConfig)
    → negotiate l p name ≡ ok c
    → negotiate p l name ≡ ok d
    → AreOpposite c.local_mode d.local_mode ↔ (l.mode ≢ p.mode)
unfolding shared_config resolve_mode
negotiate_roles l p name c d h k =
    let (_, _, e) = negotiate_inverts l p name h in
    let (_, _, f) = negotiate_inverts p l name k in ground arith
