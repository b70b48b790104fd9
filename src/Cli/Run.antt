-- ===== src/Cli/Run.antt =====
-- The commands that `hyperlink` runs (`run_receive`, `run_send`, `run_test`, and the POSIX variants of
-- `shell_quote` and `run_command`).
pub mod Words
pub mod Helper
use hyper_link.Base.{
  ℕ, ◌≡◌, ◌≢◌, ◌⊎◌, refl, arith, Bool, true, false, ◌&&◌, ◌||◌, not, Option, none, some, List, [],
  ◌∷◌, ◌++◌, Text, codes, text_eq, is_empty, ltb, leb, ◌==◌, if◌then◌else◌, Error, invalid_argument,
  Result, ok, err, Bool-cases, inl, inr, Result-cases, append_assoc, append-nil, sym, ap, ◌∙◌, map,
}
use hyper_link.CommandLine.{
  Parsed, parsed, exit_with_usage, Effect, set, take_value, help, refuse, parse_loop, and_then,
}
use hyper_link.FileTransfer.Quote.{shell_quote}
use hyper_link.Cli.{ReceiveOptions, SendOptions, TestOptions}

unfoldable pub receive_arguments : ReceiveOptions → List Text
receive_arguments options =
    (codes "--receive"
      ∷ codes "--host"
      ∷ options.host
      ∷ codes "--port"
      ∷ options.port
      ∷ codes "--output-dir"
      ∷ options.output_dir
      ∷ codes "--parallel"
      ∷ options.parallel
      ∷ codes "--discovery-port"
      ∷ options.discovery_port
      ∷ [])
    ++ (if options.advertise then [] else codes "--no-advertise" ∷ [])

unfoldable pub peer_arguments : SendOptions → List Text
peer_arguments options =
    if is_empty options.host
    then codes "--auto" ∷ []
    else codes "--host"
      ∷ options.host
      ∷ codes "--port"
      ∷ options.port
      ∷ codes "--parallel"
      ∷ options.parallel
      ∷ []

unfoldable pub name_arguments : SendOptions → List Text
name_arguments options =
    if is_empty options.remote_name then [] else codes "--name" ∷ options.remote_name ∷ []

unfoldable pub send_arguments : SendOptions → List Text
send_arguments options =
    (codes "--send"
      ∷ codes "--file"
      ∷ options.file
      ∷ codes "--discovery-port"
      ∷ options.discovery_port
      ∷ [])
    ++ (peer_arguments options ++ name_arguments options)

unfoldable pub test_arguments : TestOptions → List Text
test_arguments options =
    if options.receive
    then codes "--server"
      ∷ codes "--host"
      ∷ codes "0.0.0.0"
      ∷ codes "--port"
      ∷ options.port
      ∷ codes "--parallel"
      ∷ options.parallel
      ∷ codes "--socket-buffer-bytes"
      ∷ options.socket_buffer_bytes
      ∷ []
    else codes "--client"
      ∷ codes "--host"
      ∷ options.host
      ∷ codes "--port"
      ∷ options.port
      ∷ codes "--seconds"
      ∷ options.seconds
      ∷ codes "--chunk-bytes"
      ∷ options.chunk_bytes
      ∷ codes "--parallel"
      ∷ options.parallel
      ∷ codes "--socket-buffer-bytes"
      ∷ options.socket_buffer_bytes
      ∷ []

-- The loop of `run_command` over the arguments, with the command so far.
unfoldable pub command_from : Text → List Text → Text
command_from command [] = command
command_from command (arg ∷ args) = command_from (command ++ (codes " " ++ shell_quote arg)) args

unfoldable pub command_of : Text → List Text → Text
command_of executable args = command_from (shell_quote executable) args
