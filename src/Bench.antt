-- ===== src/Bench.antt =====
-- examples/bench.cpp, the tool `hyperlink_bench`: its options and the endpoints of its streams.
pub mod Checked
pub mod Run
use hyper_link.Base.{
  ℕ, ◌+◌, ◌*◌, ◌-◌, ◌%◌, ◌^◌, ◌<◌, ◌≤◌, ◌≡◌, refl, arith, Bool, true, false, ◌&&◌, ◌||◌, not,
  Option, none, some, List, [], ◌∷◌, ◌++◌, Text, codes, text_eq, is_empty, ltb, leb, ◌==◌,
  if◌then◌else◌, Error, invalid_argument, Result, ok, err, Bool-cases, inl, inr, Result-cases,
  append_assoc, sym, ap, ◌∙◌,
}
use hyper_link.Tcp.{TcpEndpoint}
use hyper_link.CommandLine.{
  Parsed, parsed, exit_with_usage, Effect, set, take_value, help, refuse, parse_loop, and_then,
  stoul, stoull, to_u32, parse_port, requires_value,
}

pub record BenchOptions : Type 0 where
  pub server : Bool
  pub host : Text
  pub port : ℕ
  pub seconds : ℕ
  pub parallel : ℕ
  pub socket_buffer_bytes : ℕ
  pub chunk_bytes : ℕ

unfoldable pub default_options : BenchOptions
default_options = record {
  server = false;
  host = codes "127.0.0.1";
  port = 47777;
  seconds = 10;
  parallel = 1;
  socket_buffer_bytes = 0;
  chunk_bytes = 1024 * 1024;
}

unfoldable pub set_port : BenchOptions → Result ℕ → Result BenchOptions
set_port options (ok n) = ok (record options { port = n })
set_port options (err error) = err error

unfoldable pub set_seconds : BenchOptions → Result ℕ → Result BenchOptions
set_seconds options (err error) = err error
set_seconds options (ok n) =
    if to_u32 n == 0
    then err (invalid_argument (codes "seconds must be positive"))
    else ok (record options { seconds = to_u32 n })

unfoldable pub set_parallel : BenchOptions → Result ℕ → Result BenchOptions
set_parallel options (err error) = err error
set_parallel options (ok n) =
    if to_u32 n == 0
    then err (invalid_argument (codes "parallel must be positive"))
    else ok (record options { parallel = to_u32 n })

unfoldable pub set_chunk_bytes : BenchOptions → Result ℕ → Result BenchOptions
set_chunk_bytes options (err error) = err error
set_chunk_bytes options (ok n) =
    if n == 0
    then err (invalid_argument (codes "chunk-bytes must be positive"))
    else ok (record options { chunk_bytes = n })

unfoldable pub set_socket_buffer_bytes : BenchOptions → Result ℕ → Result BenchOptions
set_socket_buffer_bytes options (err error) = err error
set_socket_buffer_bytes options (ok n) = ok (record options { socket_buffer_bytes = to_u32 n })

-- The strings that the loop compares an argument with.
pub data Flag : Type 0 where
  server_flag client_flag host_flag port_flag seconds_flag parallel_flag chunk_bytes_flag
        socket_buffer_bytes_flag help_flag other_flag :
      Flag

unfoldable pub flag_of : Text → Flag
flag_of arg =
    if text_eq arg (codes "--server")
    then server_flag
    else if text_eq arg (codes "--client")
    then client_flag
    else if text_eq arg (codes "--host")
    then host_flag
    else if text_eq arg (codes "--port")
    then port_flag
    else if text_eq arg (codes "--seconds")
    then seconds_flag
    else if text_eq arg (codes "--parallel")
    then parallel_flag
    else if text_eq arg (codes "--chunk-bytes")
    then chunk_bytes_flag
    else if text_eq arg (codes "--socket-buffer-bytes")
    then socket_buffer_bytes_flag
    else if text_eq arg (codes "--help") || text_eq arg (codes "-h")
    then help_flag
    else other_flag

-- The branches of the loop's body.
unfoldable pub option_effect_of : BenchOptions → Text → Flag → Effect BenchOptions
option_effect_of options arg server_flag =
    set (record options { server = true; host = codes "0.0.0.0" })
option_effect_of options arg client_flag = set (record options { server = false })
option_effect_of options arg host_flag = take_value (λ value. ok (record options { host = value }))
option_effect_of options arg port_flag = take_value (λ value. set_port options (parse_port value))
option_effect_of options arg seconds_flag = take_value (λ value. set_seconds options (stoul value))
option_effect_of options arg parallel_flag =
    take_value (λ value. set_parallel options (stoul value))
option_effect_of options arg chunk_bytes_flag =
    take_value (λ value. set_chunk_bytes options (stoull value))
option_effect_of options arg socket_buffer_bytes_flag =
    take_value (λ value. set_socket_buffer_bytes options (stoul value))
option_effect_of options arg help_flag = help
option_effect_of options arg other_flag =
    refuse (invalid_argument (codes "unknown argument: " ++ arg))

-- The body of the loop, for one argument.
unfoldable pub option_effect : BenchOptions → Text → Effect BenchOptions
option_effect options arg = option_effect_of options arg (flag_of arg)

-- `static_cast<std::uint32_t>(options.port) + options.parallel - 1U`, in 32 bits.
unfoldable pub last_port : BenchOptions → ℕ
last_port options = to_u32 (to_u32 (options.port + options.parallel) + (2 ^ 32 - 1))

unfoldable pub check_options : BenchOptions → Result (Parsed BenchOptions)
check_options options =
    if ltb 65535 (last_port options)
    then err (invalid_argument (codes "port plus parallel stream count exceeds 65535"))
    else ok (parsed options)

unfoldable pub parse_args : List Text → Result (Parsed BenchOptions)
parse_args args = and_then (parse_loop option_effect default_options args) check_options

-- The port is the low 16 bits of the sum.
unfoldable pub endpoint_for_stream : BenchOptions → ℕ → TcpEndpoint
endpoint_for_stream options stream = record {
  host = options.host;
  port = (options.port + stream) % 2 ^ 16;
  send_buffer_bytes = options.socket_buffer_bytes;
  receive_buffer_bytes = options.socket_buffer_bytes;
}

-- A stream's bytes, time and error; a duration is a number of clock ticks.
pub record StreamResult : Type 0 where
  pub bytes : ℕ
  pub elapsed : ℕ
  pub error : Option Error

unfoldable pub rethrow_first_error : List StreamResult → Result (Unit {0})
rethrow_first_error [] = ok tt
rethrow_first_error (result ∷ results) = elim result.error [
  | none ↦ rethrow_first_error results
  | some error ↦ err error
]

-- The loop of `max_elapsed`, with the longest time so far.
unfoldable pub longer_elapsed : ℕ → List StreamResult → ℕ
longer_elapsed elapsed [] = elapsed
longer_elapsed elapsed (result ∷ results) =
    longer_elapsed (if ltb elapsed result.elapsed then result.elapsed else elapsed) results

unfoldable pub max_elapsed : List StreamResult → ℕ
max_elapsed results = longer_elapsed 0 results

-- The loop of `total_bytes`, with the 64-bit sum so far.
unfoldable pub add_bytes : ℕ → List StreamResult → ℕ
add_bytes bytes [] = bytes
add_bytes bytes (result ∷ results) = add_bytes ((bytes + result.bytes) % 2 ^ 64) results

unfoldable pub total_bytes : List StreamResult → ℕ
total_bytes results = add_bytes 0 results
