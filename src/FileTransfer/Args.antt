-- ===== src/FileTransfer/Args.antt =====
-- `parse_args` of `hyperlink_file`.
pub mod Checked
pub mod Steps
use hyper_link.Base.{
  ℕ, ◌+◌, ◌-◌, ◌%◌, ◌^◌, ◌<◌, ◌≤◌, ◌≡◌, refl, arith, Bool, true, false, ◌&&◌, ◌||◌, not, Option,
  none, some, List, [], ◌∷◌, ◌++◌, Text, codes, text_eq, is_empty, ltb, leb, ◌==◌, if◌then◌else◌,
  Error, invalid_argument, Result, ok, err, Bool-cases, inl, inr, Result-cases, append_assoc, sym,
  ap, ◌∙◌,
}
use hyper_link.CommandLine.{
  Parsed, parsed, exit_with_usage, Effect, set, take_value, help, refuse, parse_loop, and_then,
  stoul, stoull, to_u32, parse_port, requires_value,
}

pub record Options : Type 0 where
  pub send : Bool
  pub receive : Bool
  pub auto_discover : Bool
  pub advertise : Bool
  pub host : Text
  pub port : ℕ
  pub discovery_port : ℕ
  pub parallel : ℕ
  pub file : Text
  pub output_dir : Text
  pub remote_name : Text

unfoldable pub default_options : Options
default_options = record {
  send = false;
  receive = false;
  auto_discover = false;
  advertise = true;
  host = codes "0.0.0.0";
  port = 47790;
  discovery_port = 47789;
  parallel = 1;
  file = [];
  output_dir = codes ".";
  remote_name = [];
}

-- `options.port = parse_port(...)`, and the discovery port and the streams in the same way.
unfoldable pub set_port : Options → Result ℕ → Result Options
set_port options (ok n) = ok (record options { port = n })
set_port options (err error) = err error

unfoldable pub set_discovery_port : Options → Result ℕ → Result Options
set_discovery_port options (ok n) = ok (record options { discovery_port = n })
set_discovery_port options (err error) = err error

unfoldable pub no_streams : Error
no_streams = invalid_argument (codes "parallel must be positive")

unfoldable pub set_parallel : Options → Result ℕ → Result Options
set_parallel options (err error) = err error
set_parallel options (ok n) =
    if to_u32 n == 0 then err no_streams else ok (record options { parallel = to_u32 n })

-- The strings that the loop compares an argument with.
pub data Flag : Type 0 where
  send_flag receive_flag auto_flag no_advertise_flag host_flag port_flag discovery_port_flag
        parallel_flag file_flag output_dir_flag name_flag help_flag other_flag :
      Flag

unfoldable pub flag_of : Text → Flag
flag_of arg =
    if text_eq arg (codes "--send")
    then send_flag
    else if text_eq arg (codes "--receive")
    then receive_flag
    else if text_eq arg (codes "--auto")
    then auto_flag
    else if text_eq arg (codes "--no-advertise")
    then no_advertise_flag
    else if text_eq arg (codes "--host")
    then host_flag
    else if text_eq arg (codes "--port")
    then port_flag
    else if text_eq arg (codes "--discovery-port")
    then discovery_port_flag
    else if text_eq arg (codes "--parallel")
    then parallel_flag
    else if text_eq arg (codes "--file")
    then file_flag
    else if text_eq arg (codes "--output-dir") || text_eq arg (codes "--out")
    then output_dir_flag
    else if text_eq arg (codes "--name")
    then name_flag
    else if text_eq arg (codes "--help") || text_eq arg (codes "-h")
    then help_flag
    else other_flag

-- The branches of the loop's body.
unfoldable pub option_effect_of : Options → Text → Flag → Effect Options
option_effect_of options arg send_flag =
    set (record options { send = true; host = codes "127.0.0.1" })
option_effect_of options arg receive_flag =
    set (record options { receive = true; host = codes "0.0.0.0" })
option_effect_of options arg auto_flag = set (record options { auto_discover = true; host = [] })
option_effect_of options arg no_advertise_flag = set (record options { advertise = false })
option_effect_of options arg host_flag = take_value (λ value. ok (record options { host = value }))
option_effect_of options arg port_flag = take_value (λ value. set_port options (parse_port value))
option_effect_of options arg discovery_port_flag =
    take_value (λ value. set_discovery_port options (parse_port value))
option_effect_of options arg parallel_flag =
    take_value (λ value. set_parallel options (stoul value))
option_effect_of options arg file_flag = take_value (λ value. ok (record options { file = value }))
option_effect_of options arg output_dir_flag =
    take_value (λ value. ok (record options { output_dir = value }))
option_effect_of options arg name_flag =
    take_value (λ value. ok (record options { remote_name = value }))
option_effect_of options arg help_flag = help
option_effect_of options arg other_flag =
    refuse (invalid_argument (codes "unknown argument: " ++ arg))

-- The body of the loop, for one argument.
unfoldable pub option_effect : Options → Text → Effect Options
option_effect options arg = option_effect_of options arg (flag_of arg)

-- `options.send == options.receive`.
unfoldable pub same_mode : Bool → Bool → Bool
same_mode true receive = receive
same_mode false receive = not receive

-- The checks after the loop; the sum is one of 64-bit numbers, and the port and the number of streams
-- are positive.
unfoldable pub check_options : Options → Result (Parsed Options)
check_options options =
    if same_mode options.send options.receive
    then err (invalid_argument (codes "choose exactly one of --send or --receive"))
    else if options.send && is_empty options.file
    then err (invalid_argument (codes "--send requires --file"))
    else if options.receive && options.auto_discover
    then err (invalid_argument (codes "--auto is only valid with --send"))
    else if ltb 65535 (options.port + options.parallel - 1)
    then err (invalid_argument (codes "port plus parallel stream count exceeds 65535"))
    else ok (parsed options)

unfoldable pub parse_args : List Text → Result (Parsed Options)
parse_args args = and_then (parse_loop option_effect default_options args) check_options
