-- ===== src/Examples/Tools.antt =====
-- Examples of command lines.
use hyper_link.Base.{◌≡◌, refl, arith, true, false, some, List, [], ◌∷◌, Text, text_eq, codes, ok}
use hyper_link.PeerDiscovery.Decimal.{is_digit, digits_value}
use hyper_link.CommandLine.{
  parsed, parse_loop, and_then, stoul, parse_port, checked_port, skip_space, is_space, signed_value,
  unsigned_value, leading_digits,
}
use hyper_link.FileTransfer.Args
use hyper_link.FileTransfer.Args.Checked.{parse_args-IsRunnable}
use hyper_link.Shell.{words_of}
use hyper_link.Bench
use hyper_link.Bench.Checked.{bench_options-IsRunnable}
use hyper_link.Cli.{
  ReceiveOptions, SendOptions, TestOptions, default_send, default_test, parse_send, parse_test,
  parse_mode, mode_of, starts_with_dash, flag_of, send_effect, send_effect_of, send_path,
  require_path, test_effect, test_effect_of, test_peer, require_peer,
}
use hyper_link.Cli.Run.{command_of, receive_arguments, send_arguments}
use hyper_link.Cli.Run.Words.{words_of-command_of}
use hyper_link.Cli.Run.Helper.{parse_args-receive_arguments, parse_args-send_arguments}

words_of-command_of_example :
    words_of (command_of (codes "/opt/it's here/tool") (codes "--file" ∷ codes "a b; rm *" ∷ []))
    ≡ some (codes "/opt/it's here/tool" ∷ codes "--file" ∷ codes "a b; rm *" ∷ [])
words_of-command_of_example =
    words_of-command_of (codes "/opt/it's here/tool") (codes "--file" ∷ codes "a b; rm *" ∷ [])

transfer_port : parse_port (codes "47790") ≡ ok 47790
unfolding parse_port checked_port stoul skip_space is_space signed_value unsigned_value
    leading_digits is_digit digits_value
transfer_port = refl

discovery_port : parse_port (codes "47789") ≡ ok 47789
unfolding parse_port checked_port stoul skip_space is_space signed_value unsigned_value
    leading_digits is_digit digits_value
discovery_port = refl

streams : stoul (codes "8") ≡ ok 8
unfolding stoul skip_space is_space signed_value unsigned_value leading_digits is_digit digits_value
streams = refl

abbrev receiving : ReceiveOptions
receiving = record {
  host = codes "0.0.0.0";
  port = codes "47790";
  output_dir = codes "/tmp/in";
  parallel = codes "8";
  discovery_port = codes "47789";
  advertise = false;
}

abbrev sending : SendOptions
sending = record {
  file = codes "photos";
  host = codes "10.0.0.2";
  port = codes "47790";
  parallel = codes "8";
  discovery_port = codes "47789";
  remote_name = codes "album";
}

parse_args-receive_arguments_example :
    Args.parse_args (receive_arguments receiving)
    ≡ ok (
        parsed (record Args.default_options {
          receive = true;
          advertise = false;
          host = codes "0.0.0.0";
          port = 47790;
          discovery_port = 47789;
          parallel = 8;
          output_dir = codes "/tmp/in";
        }))
parse_args-receive_arguments_example =
    parse_args-receive_arguments receiving 47790 47789 8 transfer_port discovery_port streams
      (omega arith) (omega arith)

parse_args-send_arguments_example :
    Args.parse_args (send_arguments sending)
    ≡ ok (
        parsed (record Args.default_options {
          send = true;
          host = codes "10.0.0.2";
          port = 47790;
          discovery_port = 47789;
          parallel = 8;
          file = codes "photos";
          remote_name = codes "album";
        }))
parse_args-send_arguments_example =
    parse_args-send_arguments sending 47790 47789 8 (ground arith) (ground arith) transfer_port
      discovery_port streams (omega arith) (omega arith)

abbrev searching : SendOptions
searching = record sending { host = [] }

abbrev transfer_options : Args.Options
transfer_options = record {
  send = true;
  receive = false;
  auto_discover = false;
  advertise = true;
  host = codes "10.0.0.2";
  port = 47790;
  discovery_port = 47789;
  parallel = 8;
  file = codes "photos";
  output_dir = codes ".";
  remote_name = codes "album";
}

transfer_options_parsed : Args.parse_args (send_arguments sending) ≡ ok (parsed transfer_options)
unfolding Args.default_options
transfer_options_parsed = parse_args-send_arguments_example

parse_args-IsRunnable_example : Args.Checked.IsRunnable transfer_options
parse_args-IsRunnable_example =
    parse_args-IsRunnable (send_arguments sending) transfer_options transfer_options_parsed

abbrev bench_args : List Text
bench_args = codes "--client" ∷ codes "--parallel" ∷ codes "8" ∷ []

abbrev bench_options : Bench.BenchOptions
bench_options = record {
  server = false;
  host = codes "127.0.0.1";
  port = 47777;
  seconds = 10;
  parallel = 8;
  socket_buffer_bytes = 0;
  chunk_bytes = 1048576;
}

bench_options_parsed : Bench.parse_args bench_args ≡ ok (parsed bench_options)
unfolding Bench.parse_args and_then parse_loop Bench.option_effect Bench.option_effect_of
    Bench.flag_of Bench.default_options Bench.check_options Bench.last_port Bench.set_parallel
    text_eq stoul skip_space is_space signed_value unsigned_value leading_digits is_digit
    digits_value
bench_options_parsed = refl

bench_options-IsRunnable_example : Bench.Checked.IsRunnable bench_options
bench_options-IsRunnable_example =
    bench_options-IsRunnable bench_args bench_options (omega arith) bench_options_parsed

abbrev send_options : SendOptions
send_options = record {
  file = codes "photos";
  host = [];
  port = codes "47790";
  parallel = codes "8";
  discovery_port = codes "47789";
  remote_name = codes "album";
}

abbrev send_args : List Text
send_args = codes "photos" ∷ codes "--name" ∷ codes "album" ∷ []

send_options_parsed : parse_send send_args ≡ ok (parsed send_options)
unfolding parse_send and_then parse_loop send_effect send_effect_of flag_of send_path
    starts_with_dash require_path default_send text_eq
send_options_parsed = refl

abbrev test_options : TestOptions
test_options = record {
  receive = false;
  send = true;
  host = codes "169.254.1.1";
  port = codes "47777";
  parallel = codes "8";
  seconds = codes "10";
  chunk_bytes = codes "4194304";
  socket_buffer_bytes = codes "8388608";
}

abbrev test_args : List Text
test_args = codes "client" ∷ codes "169.254.1.1" ∷ []

test_options_parsed : parse_test test_args ≡ ok (parsed test_options)
unfolding parse_test parse_mode mode_of and_then parse_loop test_effect test_effect_of flag_of
    test_peer starts_with_dash require_peer default_test text_eq
test_options_parsed = refl
