-- ===== src/Cli/Checked.antt =====
-- What the parsers of `hyperlink` guarantee about the options that they return.
use hyper_link.Base.{
  ◌≡◌, ◌≢◌, ◌⊎◌, refl, arith, Bool, true, false, ◌&&◌, not, List, [], ◌∷◌, Text, is_empty, ok,
  Bool-cases, inl, inr,
}
use hyper_link.CommandLine.{parsed, parse_loop, and_then}
use hyper_link.CommandLine.Invariant.{
  Keeps, sets, takes, helps, refuses, parse_loop-Yields, checked_after,
}
use hyper_link.Cli.{
  SendOptions, TestOptions, Flag, name_flag, host_flag, port_flag, parallel_flag,
  discovery_port_flag, seconds_flag, chunk_bytes_flag, socket_buffer_bytes_flag, help_flag, Mode,
  receive_mode, send_mode, help_mode, other_mode, flag_of, mode_of, default_send, default_test,
  starts_with_dash, send_path, send_effect_of, send_effect, require_path, parse_send, test_peer,
  test_effect_of, test_effect, require_peer, parse_mode, parse_test,
}

-- The path that is sent is no option.
abbrev NoDash : SendOptions → Type 0
NoDash options = starts_with_dash options.file ≡ false

send_path-Keeps :
    (options : SendOptions) (arg : Text) → NoDash options → Keeps NoDash (send_path options arg)
unfolding send_path
send_path-Keeps options arg h = elim (Bool-cases (starts_with_dash arg)) [
  | inl e ↦ rw e refuses
  | inr e ↦ elim (Bool-cases (is_empty options.file)) [
    | inl f ↦ rw (e, f) (sets e)
    | inr f ↦ rw (e, f) refuses
  ]
]

stored :
    (options options' : SendOptions) → NoDash options → ok options ≡ ok options' → NoDash options'
stored options options' h e = ground arith

send_effect-Keeps :
    (options : SendOptions) (arg : Text) (flag : Flag)
    → NoDash options
    → Keeps NoDash (send_effect_of options arg flag)
unfolding send_effect_of
send_effect-Keeps options arg name_flag h = takes (λ value options'. stored _ options' h)
send_effect-Keeps options arg host_flag h = takes (λ value options'. stored _ options' h)
send_effect-Keeps options arg port_flag h = takes (λ value options'. stored _ options' h)
send_effect-Keeps options arg parallel_flag h = takes (λ value options'. stored _ options' h)
send_effect-Keeps options arg discovery_port_flag h = takes (λ value options'. stored _ options' h)
send_effect-Keeps options arg help_flag h = helps
send_effect-Keeps options arg flag h = send_path-Keeps options arg h

-- If `parse_send` returns options, they name a path, and the path does not start with a dash.
pub parse_send-path :
    (args : List Text) (options : SendOptions)
    → parse_send args ≡ ok (parsed options)
    → (options.file ≢ []) × (starts_with_dash options.file ≡ false)
unfolding parse_send send_effect require_path
parse_send-path args options e =
    let (before, h, checked) =
      checked_after NoDash (parse_loop send_effect default_send args) require_path e (
        parse_loop-Yields NoDash send_effect (λ o arg. send_effect-Keeps o arg (flag_of arg))
          default_send args (unfold default_send starts_with_dash in refl)) in
    ground arith

-- The mode of a test is settled before the loop.
abbrev HasMode : Bool → TestOptions → Type 0
HasMode sending options = (options.send ≡ sending) × (options.receive ≡ not sending)

test_peer-Keeps :
    (sending : Bool) (options : TestOptions) (arg : Text)
    → HasMode sending options
    → Keeps (HasMode sending) (test_peer options arg)
unfolding test_peer
test_peer-Keeps sending options arg h = elim (Bool-cases (starts_with_dash arg)) [
  | inl e ↦ rw e refuses
  | inr e ↦ elim (Bool-cases (options.send && is_empty options.host)) [
    | inl f ↦ rw (e, f) (sets h)
    | inr f ↦ rw (e, f) refuses
  ]
]

settled :
    (sending : Bool) (options options' : TestOptions)
    → HasMode sending options
    → ok options ≡ ok options'
    → HasMode sending options'
settled sending options options' h e = ground arith

test_effect-Keeps :
    (sending : Bool) (options : TestOptions) (arg : Text) (flag : Flag)
    → HasMode sending options
    → Keeps (HasMode sending) (test_effect_of options arg flag)
unfolding test_effect_of
test_effect-Keeps sending options arg port_flag h =
    takes (λ value options'. settled sending _ options' h)
test_effect-Keeps sending options arg parallel_flag h =
    takes (λ value options'. settled sending _ options' h)
test_effect-Keeps sending options arg seconds_flag h =
    takes (λ value options'. settled sending _ options' h)
test_effect-Keeps sending options arg chunk_bytes_flag h =
    takes (λ value options'. settled sending _ options' h)
test_effect-Keeps sending options arg socket_buffer_bytes_flag h =
    takes (λ value options'. settled sending _ options' h)
test_effect-Keeps sending options arg host_flag h =
    takes (λ value options'. settled sending _ options' h)
test_effect-Keeps sending options arg help_flag h = helps
test_effect-Keeps sending options arg flag h = test_peer-Keeps sending options arg h

-- A test sends to a named host, or it receives.
abbrev pub IsTest : TestOptions → Type 0
IsTest options =
    ((options.send ≡ true) × (options.receive ≡ false) × (options.host ≢ []))
    ⊎ ((options.send ≡ false) × (options.receive ≡ true))

parse_loop-IsTest :
    (sending : Bool) (start : TestOptions) (args : List Text) (options : TestOptions)
    → HasMode sending start
    → and_then (parse_loop test_effect start args) require_peer ≡ ok (parsed options)
    → IsTest options
unfolding test_effect require_peer
parse_loop-IsTest sending start args options begun e =
    let (before, h, checked) =
      checked_after (HasMode sending) (parse_loop test_effect start args) require_peer e (
        parse_loop-Yields (HasMode sending) test_effect
          (λ o arg. test_effect-Keeps sending o arg (flag_of arg)) start args begun) in
    elim (Bool-cases before.send) [ inl s ↦ inl (ground arith) | inr s ↦ inr (ground arith) ]

parse_mode-IsTest :
    (mode : Text) (kind : Mode) (args : List Text) (options : TestOptions)
    → parse_mode mode kind args ≡ ok (parsed options)
    → IsTest options
unfolding parse_mode default_test
parse_mode-IsTest mode receive_mode args options e =
    parse_loop-IsTest false _ args options (refl, refl) e
parse_mode-IsTest mode send_mode args options e =
    parse_loop-IsTest true _ args options (refl, refl) e
parse_mode-IsTest mode help_mode args options e = absurd (ground arith)
parse_mode-IsTest mode other_mode args options e = absurd (ground arith)

-- If `parse_test` returns options, then either they send, do not receive and name a host, or they receive
-- and do not send.
pub parse_test-IsTest :
    (args : List Text) (options : TestOptions)
    → parse_test args ≡ ok (parsed options)
    → IsTest options
unfolding parse_test
parse_test-IsTest [] options e = absurd (ground arith)
parse_test-IsTest (mode ∷ args) options e = parse_mode-IsTest mode (mode_of mode) args options e
