-- ===== src/Cli.antt =====
-- examples/cli.cpp, the tool `hyperlink`: what it reads from its arguments. The commands that it runs are
-- in `Run`.
pub mod Run
pub mod Checked
pub mod Dispatch
use hyper_link.Base.{
  ℕ, ◌≡◌, ◌≢◌, ◌⊎◌, refl, arith, Bool, true, false, ◌&&◌, ◌||◌, not, Option, none, some, List, [],
  ◌∷◌, ◌++◌, Text, codes, text_eq, is_empty, ltb, leb, ◌==◌, if◌then◌else◌, Error, invalid_argument,
  Result, ok, err, Bool-cases, inl, inr, Result-cases, append_assoc, append-nil, sym, ap, ◌∙◌, map,
}
use hyper_link.CommandLine.{
  Parsed, parsed, exit_with_usage, Effect, set, take_value, help, refuse, parse_loop, and_then,
}

pub record ReceiveOptions : Type 0 where
  pub host : Text
  pub port : Text
  pub output_dir : Text
  pub parallel : Text
  pub discovery_port : Text
  pub advertise : Bool

-- The default of the directory is the environment's (`default_download_dir`).
unfoldable pub default_receive : Text → ReceiveOptions
default_receive download_dir = record {
  host = codes "0.0.0.0";
  port = codes "47790";
  output_dir = download_dir;
  parallel = codes "8";
  discovery_port = codes "47789";
  advertise = true;
}

pub record SendOptions : Type 0 where
  pub file : Text
  pub host : Text
  pub port : Text
  pub parallel : Text
  pub discovery_port : Text
  pub remote_name : Text

unfoldable pub default_send : SendOptions
default_send = record {
  file = [];
  host = [];
  port = codes "47790";
  parallel = codes "8";
  discovery_port = codes "47789";
  remote_name = [];
}

pub record TestOptions : Type 0 where
  pub receive : Bool
  pub send : Bool
  pub host : Text
  pub port : Text
  pub parallel : Text
  pub seconds : Text
  pub chunk_bytes : Text
  pub socket_buffer_bytes : Text

unfoldable pub default_test : TestOptions
default_test = record {
  receive = false;
  send = false;
  host = [];
  port = codes "47777";
  parallel = codes "8";
  seconds = codes "10";
  chunk_bytes = codes "4194304";
  socket_buffer_bytes = codes "8388608";
}

-- `arg.empty() || arg.front() != '-'` fails.
unfoldable pub starts_with_dash : Text → Bool
starts_with_dash [] = false
starts_with_dash (c ∷ s) = c == b'-'

-- The strings that `parse_receive`, `parse_send` and `parse_test` compare an argument with.
pub data Flag : Type 0 where
  out_flag name_flag host_flag port_flag parallel_flag discovery_port_flag seconds_flag
        chunk_bytes_flag socket_buffer_bytes_flag no_advertise_flag help_flag other_flag :
      Flag

unfoldable pub flag_of : Text → Flag
flag_of arg =
    if text_eq arg (codes "--out") || text_eq arg (codes "--output-dir")
    then out_flag
    else if text_eq arg (codes "--name")
    then name_flag
    else if text_eq arg (codes "--host")
    then host_flag
    else if text_eq arg (codes "--port")
    then port_flag
    else if text_eq arg (codes "--parallel")
    then parallel_flag
    else if text_eq arg (codes "--discovery-port")
    then discovery_port_flag
    else if text_eq arg (codes "--seconds")
    then seconds_flag
    else if text_eq arg (codes "--chunk-bytes")
    then chunk_bytes_flag
    else if text_eq arg (codes "--socket-buffer-bytes")
    then socket_buffer_bytes_flag
    else if text_eq arg (codes "--no-advertise")
    then no_advertise_flag
    else if text_eq arg (codes "--help") || text_eq arg (codes "-h")
    then help_flag
    else other_flag

unfoldable pub receive_effect_of : ReceiveOptions → Text → Flag → Effect ReceiveOptions
receive_effect_of options arg out_flag =
    take_value (λ value. ok (record options { output_dir = value }))
receive_effect_of options arg host_flag = take_value (λ value. ok (record options { host = value }))
receive_effect_of options arg port_flag = take_value (λ value. ok (record options { port = value }))
receive_effect_of options arg parallel_flag =
    take_value (λ value. ok (record options { parallel = value }))
receive_effect_of options arg discovery_port_flag =
    take_value (λ value. ok (record options { discovery_port = value }))
receive_effect_of options arg no_advertise_flag = set (record options { advertise = false })
receive_effect_of options arg help_flag = help
receive_effect_of options arg flag =
    refuse (invalid_argument (codes "unknown receive option: " ++ arg))

unfoldable pub receive_effect : ReceiveOptions → Text → Effect ReceiveOptions
receive_effect options arg = receive_effect_of options arg (flag_of arg)

unfoldable pub parse_receive : Text → List Text → Result (Parsed ReceiveOptions)
parse_receive download_dir args = parse_loop receive_effect (default_receive download_dir) args

-- An argument that is no option of `parse_send`.
unfoldable pub send_path : SendOptions → Text → Effect SendOptions
send_path options arg =
    if starts_with_dash arg
    then refuse (invalid_argument (codes "unknown send option: " ++ arg))
    else if is_empty options.file
    then set (record options { file = arg })
    else refuse (invalid_argument (codes "send accepts exactly one file or folder path"))

unfoldable pub send_effect_of : SendOptions → Text → Flag → Effect SendOptions
send_effect_of options arg name_flag =
    take_value (λ value. ok (record options { remote_name = value }))
send_effect_of options arg host_flag = take_value (λ value. ok (record options { host = value }))
send_effect_of options arg port_flag = take_value (λ value. ok (record options { port = value }))
send_effect_of options arg parallel_flag =
    take_value (λ value. ok (record options { parallel = value }))
send_effect_of options arg discovery_port_flag =
    take_value (λ value. ok (record options { discovery_port = value }))
send_effect_of options arg help_flag = help
send_effect_of options arg flag = send_path options arg

unfoldable pub send_effect : SendOptions → Text → Effect SendOptions
send_effect options arg = send_effect_of options arg (flag_of arg)

unfoldable pub require_path : SendOptions → Result (Parsed SendOptions)
require_path options =
    if is_empty options.file
    then err (invalid_argument (codes "send requires a file or folder path"))
    else ok (parsed options)

unfoldable pub parse_send : List Text → Result (Parsed SendOptions)
parse_send args = and_then (parse_loop send_effect default_send args) require_path

-- The first argument of `test`.
pub data Mode : Type 0 where
  receive_mode send_mode help_mode other_mode : Mode

unfoldable pub mode_of : Text → Mode
mode_of arg =
    if text_eq arg (codes "receive") || text_eq arg (codes "recv") || text_eq arg (codes "server")
    then receive_mode
    else if text_eq arg (codes "send") || text_eq arg (codes "client")
    then send_mode
    else if text_eq arg (codes "--help") || text_eq arg (codes "-h")
    then help_mode
    else other_mode

-- An argument that is no option of `parse_test`.
unfoldable pub test_peer : TestOptions → Text → Effect TestOptions
test_peer options arg =
    if starts_with_dash arg
    then refuse (invalid_argument (codes "unknown test option: " ++ arg))
    else if options.send && is_empty options.host
    then set (record options { host = arg })
    else refuse (invalid_argument (codes "test send accepts exactly one peer IP"))

unfoldable pub test_effect_of : TestOptions → Text → Flag → Effect TestOptions
test_effect_of options arg port_flag = take_value (λ value. ok (record options { port = value }))
test_effect_of options arg parallel_flag =
    take_value (λ value. ok (record options { parallel = value }))
test_effect_of options arg seconds_flag =
    take_value (λ value. ok (record options { seconds = value }))
test_effect_of options arg chunk_bytes_flag =
    take_value (λ value. ok (record options { chunk_bytes = value }))
test_effect_of options arg socket_buffer_bytes_flag =
    take_value (λ value. ok (record options { socket_buffer_bytes = value }))
test_effect_of options arg host_flag = take_value (λ value. ok (record options { host = value }))
test_effect_of options arg help_flag = help
test_effect_of options arg flag = test_peer options arg

unfoldable pub test_effect : TestOptions → Text → Effect TestOptions
test_effect options arg = test_effect_of options arg (flag_of arg)

unfoldable pub require_peer : TestOptions → Result (Parsed TestOptions)
require_peer options =
    if options.send && is_empty options.host
    then err
        (invalid_argument (codes "test send requires a peer IP, usually the 169.254.x.x cable IP"))
    else ok (parsed options)

unfoldable pub parse_mode : Text → Mode → List Text → Result (Parsed TestOptions)
parse_mode mode receive_mode args =
    and_then (parse_loop test_effect (record default_test { receive = true }) args) require_peer
parse_mode mode send_mode args =
    and_then (parse_loop test_effect (record default_test { send = true }) args) require_peer
parse_mode mode help_mode args = ok exit_with_usage
parse_mode mode other_mode args = err (invalid_argument (codes "unknown test mode: " ++ mode))

unfoldable pub parse_test : List Text → Result (Parsed TestOptions)
parse_test [] = err (invalid_argument (codes "test requires receive or send"))
parse_test (mode ∷ args) = parse_mode mode (mode_of mode) args
