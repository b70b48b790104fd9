-- ===== src/Bench/Checked.antt =====
-- What `parse_args` of `hyperlink_bench` guarantees about the options that it returns.
use hyper_link.Base.{
  ℕ, ◌+◌, ◌^◌, ◌<◌, ◌≤◌, ◌≡◌, arith, List, Text, Result, ok, err, Result-cases, inl, inr,
}
use hyper_link.CommandLine.{parsed, parse_loop, stoul, stoull, parse_port}
use hyper_link.CommandLine.Invariant.{
  Keeps, sets, takes, helps, refuses, parse_loop-Yields, parse_port_range, checked_after,
}
use hyper_link.Bench.{
  BenchOptions, default_options, Flag, flag_of, server_flag, client_flag, host_flag, port_flag,
  seconds_flag, parallel_flag, chunk_bytes_flag, socket_buffer_bytes_flag, help_flag, other_flag,
  option_effect, option_effect_of, check_options, parse_args, set_port, set_seconds, set_parallel,
  set_chunk_bytes, set_socket_buffer_bytes, last_port, endpoint_for_stream,
}

-- The numbers are positive, and the port and the number of streams are in the range of their types.
abbrev pub HasNumbers : BenchOptions → Type 0
HasNumbers options =
    ((0 < options.port) × (options.port ≤ 65535))
    × ((0 < options.parallel) × (options.parallel < 2 ^ 32))
    × (0 < options.seconds)
    × (0 < options.chunk_bytes)

default_options-HasNumbers : HasNumbers default_options
unfolding default_options
default_options-HasNumbers = ground arith

set_port-HasNumbers :
    (options options' : BenchOptions) (value : Text)
    → HasNumbers options
    → set_port options (parse_port value) ≡ ok options'
    → HasNumbers options'
unfolding set_port
set_port-HasNumbers options options' value h e = elim (Result-cases (parse_port value)) [
  | inl (n, f) ↦ let r = parse_port_range value f in ground arith
  | inr (x, f) ↦ absurd (ground arith)
]

set_seconds-HasNumbers :
    (options options' : BenchOptions) (parsed : Result ℕ)
    → HasNumbers options
    → set_seconds options parsed ≡ ok options'
    → HasNumbers options'
unfolding set_seconds
set_seconds-HasNumbers options options' (err x) h e = absurd (ground arith)
set_seconds-HasNumbers options options' (ok n) h e = ground arith

set_parallel-HasNumbers :
    (options options' : BenchOptions) (parsed : Result ℕ)
    → HasNumbers options
    → set_parallel options parsed ≡ ok options'
    → HasNumbers options'
unfolding set_parallel
set_parallel-HasNumbers options options' (err x) h e = absurd (ground arith)
set_parallel-HasNumbers options options' (ok n) h e = ground arith

set_chunk_bytes-HasNumbers :
    (options options' : BenchOptions) (parsed : Result ℕ)
    → HasNumbers options
    → set_chunk_bytes options parsed ≡ ok options'
    → HasNumbers options'
unfolding set_chunk_bytes
set_chunk_bytes-HasNumbers options options' (err x) h e = absurd (ground arith)
set_chunk_bytes-HasNumbers options options' (ok n) h e = ground arith

set_socket_buffer_bytes-HasNumbers :
    (options options' : BenchOptions) (parsed : Result ℕ)
    → HasNumbers options
    → set_socket_buffer_bytes options parsed ≡ ok options'
    → HasNumbers options'
unfolding set_socket_buffer_bytes
set_socket_buffer_bytes-HasNumbers options options' (err x) h e = absurd (ground arith)
set_socket_buffer_bytes-HasNumbers options options' (ok n) h e = ground arith

stored :
    (options options' : BenchOptions)
    → HasNumbers options
    → ok options ≡ ok options'
    → HasNumbers options'
stored options options' h e = ground arith

option_effect-Keeps :
    (options : BenchOptions) (arg : Text) (flag : Flag)
    → HasNumbers options
    → Keeps HasNumbers (option_effect_of options arg flag)
unfolding option_effect_of
option_effect-Keeps options arg server_flag h = sets h
option_effect-Keeps options arg client_flag h = sets h
option_effect-Keeps options arg host_flag h = takes (λ value options'. stored _ options' h)
option_effect-Keeps options arg port_flag h =
    takes (λ value options'. set_port-HasNumbers options options' value h)
option_effect-Keeps options arg seconds_flag h =
    takes (λ value options'. set_seconds-HasNumbers options options' (stoul value) h)
option_effect-Keeps options arg parallel_flag h =
    takes (λ value options'. set_parallel-HasNumbers options options' (stoul value) h)
option_effect-Keeps options arg chunk_bytes_flag h =
    takes (λ value options'. set_chunk_bytes-HasNumbers options options' (stoull value) h)
option_effect-Keeps options arg socket_buffer_bytes_flag h =
    takes (λ value options'. set_socket_buffer_bytes-HasNumbers options options' (stoul value) h)
option_effect-Keeps options arg help_flag h = helps
option_effect-Keeps options arg other_flag h = refuses

-- What a run of the benchmark relies on.
pub record IsRunnable (options : BenchOptions) : Type 0 where
  pub port_positive : 0 < options.port
  pub parallel_positive : 0 < options.parallel
  pub seconds_positive : 0 < options.seconds
  pub chunk_positive : 0 < options.chunk_bytes
  pub own_ports :
      (stream : ℕ)
      → stream < options.parallel
      → (endpoint_for_stream options stream).port ≡ options.port + stream

check_options-IsRunnable :
    (options options' : BenchOptions)
    → options'.port + options'.parallel ≤ 2 ^ 32
    → HasNumbers options
    → check_options options ≡ ok (parsed options')
    → IsRunnable options'
unfolding check_options last_port endpoint_for_stream
check_options-IsRunnable options options' fits h e = record {
  port_positive = ground arith;
  parallel_positive = ground arith;
  seconds_positive = ground arith;
  chunk_positive = ground arith;
  own_ports = λ stream below. ground arith;
}

-- If `parse_args` returns options in which the port plus the number of streams is at most 2 ^ 32, the port,
-- the streams, the seconds and the chunk size are positive, and every stream's endpoint has as its
-- port the port plus the stream's index, so that no two streams share one.
pub bench_options-IsRunnable :
    (args : List Text) (options : BenchOptions)
    → options.port + options.parallel ≤ 2 ^ 32
    → parse_args args ≡ ok (parsed options)
    → IsRunnable options
unfolding parse_args option_effect
bench_options-IsRunnable args options fits e =
    let (before, h, checked) =
      checked_after HasNumbers (parse_loop option_effect default_options args) check_options e (
        parse_loop-Yields HasNumbers option_effect
          (λ o arg. option_effect-Keeps o arg (flag_of arg)) default_options args
          default_options-HasNumbers) in
    check_options-IsRunnable before options fits h checked
