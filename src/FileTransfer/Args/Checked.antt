-- ===== src/FileTransfer/Args/Checked.antt =====
-- What `parse_args` of `hyperlink_file` guarantees about the options that it returns.
use hyper_link.Base.{
  ℕ, ◌+◌, ◌^◌, ◌<◌, ◌≤◌, ◌≡◌, ◌≢◌, arith, true, false, List, [], Text, Result, ok, err, Bool-cases,
  inl, inr, ◌⊎◌, Result-cases,
}
use hyper_link.CommandLine.{parsed, parse_loop, stoul, parse_port}
use hyper_link.CommandLine.Invariant.{
  Keeps, sets, takes, helps, refuses, parse_loop-Yields, parse_port_range, checked_after,
}
use hyper_link.FileTransfer.Args.{
  Options, default_options, option_effect, option_effect_of, Flag, flag_of, send_flag, receive_flag,
  auto_flag, no_advertise_flag, host_flag, port_flag, discovery_port_flag, parallel_flag, file_flag,
  output_dir_flag, name_flag, help_flag, other_flag, check_options, parse_args, set_port,
  set_discovery_port, set_parallel, same_mode,
}

-- What the loop keeps: the ports and the number of streams are in the range of their types and positive.
abbrev pub HasNumbers : Options → Type 0
HasNumbers options =
    ((0 < options.port) × (options.port ≤ 65535))
    × ((0 < options.discovery_port) × (options.discovery_port ≤ 65535))
    × ((0 < options.parallel) × (options.parallel < 2 ^ 32))

default_options-HasNumbers : HasNumbers default_options
unfolding default_options
default_options-HasNumbers = ground arith

set_port-HasNumbers :
    (options options' : Options) (value : Text)
    → HasNumbers options
    → set_port options (parse_port value) ≡ ok options'
    → HasNumbers options'
unfolding set_port
set_port-HasNumbers options options' value h e = elim (Result-cases (parse_port value)) [
  | inl (n, f) ↦ let r = parse_port_range value f in ground arith
  | inr (x, f) ↦ absurd (ground arith)
]

set_discovery_port-HasNumbers :
    (options options' : Options) (value : Text)
    → HasNumbers options
    → set_discovery_port options (parse_port value) ≡ ok options'
    → HasNumbers options'
unfolding set_discovery_port
set_discovery_port-HasNumbers options options' value h e = elim (Result-cases (parse_port value)) [
  | inl (n, f) ↦ let r = parse_port_range value f in ground arith
  | inr (x, f) ↦ absurd (ground arith)
]

set_parallel-HasNumbers :
    (options options' : Options) (parsed : Result ℕ)
    → HasNumbers options
    → set_parallel options parsed ≡ ok options'
    → HasNumbers options'
unfolding set_parallel
set_parallel-HasNumbers options options' (err x) h e = absurd (ground arith)
set_parallel-HasNumbers options options' (ok n) h e = ground arith

-- Options that are stored as they are.
stored :
    (options options' : Options)
    → HasNumbers options
    → ok options ≡ ok options'
    → HasNumbers options'
stored options options' h e = ground arith

option_effect-Keeps :
    (options : Options) (arg : Text) (flag : Flag)
    → HasNumbers options
    → Keeps HasNumbers (option_effect_of options arg flag)
unfolding option_effect_of
option_effect-Keeps options arg send_flag h = sets h
option_effect-Keeps options arg receive_flag h = sets h
option_effect-Keeps options arg auto_flag h = sets h
option_effect-Keeps options arg no_advertise_flag h = sets h
option_effect-Keeps options arg host_flag h = takes (λ value options'. stored _ options' h)
option_effect-Keeps options arg port_flag h =
    takes (λ value options'. set_port-HasNumbers options options' value h)
option_effect-Keeps options arg discovery_port_flag h =
    takes (λ value options'. set_discovery_port-HasNumbers options options' value h)
option_effect-Keeps options arg parallel_flag h =
    takes (λ value options'. set_parallel-HasNumbers options options' (stoul value) h)
option_effect-Keeps options arg file_flag h = takes (λ value options'. stored _ options' h)
option_effect-Keeps options arg output_dir_flag h = takes (λ value options'. stored _ options' h)
option_effect-Keeps options arg name_flag h = takes (λ value options'. stored _ options' h)
option_effect-Keeps options arg help_flag h = helps
option_effect-Keeps options arg other_flag h = refuses

-- What `parse_args` promises about the options that it returns.
pub record IsRunnable (options : Options) : Type 0 where
  pub one_mode :
      ((options.send ≡ true) × (options.receive ≡ false) × (options.file ≢ []))
      ⊎ ((options.send ≡ false) × (options.receive ≡ true) × (options.auto_discover ≡ false))
  pub port_positive : 0 < options.port
  pub discovery_range : (0 < options.discovery_port) × (options.discovery_port ≤ 65535)
  pub parallel_positive : 0 < options.parallel
  pub streams_fit : options.port + options.parallel ≤ 65536

check_options-IsRunnable :
    (options options' : Options)
    → HasNumbers options
    → check_options options ≡ ok (parsed options')
    → IsRunnable options'
unfolding check_options same_mode
check_options-IsRunnable options options' h e = record {
  one_mode = elim (Bool-cases options.send) [
    | inl s ↦ inl (ground arith)
    | inr s ↦ inr (ground arith)
  ];
  port_positive = ground arith;
  discovery_range = ground arith;
  parallel_positive = ground arith;
  streams_fit = ground arith;
}

-- If `parse_args` returns options, exactly one of sending and receiving is chosen, a sender names a file,
-- a receiver does not ask for discovery, the ports and the number of streams are positive, and the last
-- stream's port is at most 65535.
pub parse_args-IsRunnable :
    (args : List Text) (options : Options)
    → parse_args args ≡ ok (parsed options)
    → IsRunnable options
unfolding parse_args option_effect
parse_args-IsRunnable args options e =
    let (before, h, checked) =
      checked_after HasNumbers (parse_loop option_effect default_options args) check_options e (
        parse_loop-Yields HasNumbers option_effect
          (λ o arg. option_effect-Keeps o arg (flag_of arg)) default_options args
          default_options-HasNumbers) in
    check_options-IsRunnable before options h checked
