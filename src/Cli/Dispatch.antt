-- ===== src/Cli/Dispatch.antt =====
-- `main` of `hyperlink`: the choice of the command, and the search for a helper tool on the `PATH`.
use hyper_link.Base.{
  ℕ, zero, suc, Bool, ◌||◌, Option, none, some, List, [], ◌∷◌, ◌++◌, Text, codes, text_eq, is_empty,
  break_at, length, ◌==◌, if◌then◌else◌, invalid_argument, Result, ok, err,
}
use hyper_link.CommandLine.{Parsed, parsed, exit_with_usage}
use hyper_link.Cli.{parse_receive, parse_send, parse_test}
use hyper_link.Cli.Run.{receive_arguments, send_arguments, test_arguments}

-- What `main` does: it prints the usage and returns a status, or runs a helper tool with arguments. An
-- error prints its message and the usage, and the status is 1.
pub data Action : Type 0 where
  print_usage : ℕ → Action
  run_tool : Text → List Text → Action

unfoldable pub run_parsed :
    {O : Type 0} → Text → (O → List Text) → Result (Parsed O) → Result Action
run_parsed tool arguments (ok (parsed options)) = ok (run_tool tool (arguments options))
run_parsed tool arguments (ok exit_with_usage) = ok (print_usage 0)
run_parsed tool arguments (err error) = err error

unfoldable pub dispatch_command : Text → Text → List Text → Result Action
dispatch_command download_dir command args =
    if text_eq command (codes "receive") || text_eq command (codes "recv")
    then run_parsed (codes "hyperlink_file") receive_arguments (parse_receive download_dir args)
    else if text_eq command (codes "send")
    then run_parsed (codes "hyperlink_file") send_arguments (parse_send args)
    else if text_eq command (codes "test") || text_eq command (codes "speedtest")
    then run_parsed (codes "hyperlink_bench") test_arguments (parse_test args)
    else if text_eq command (codes "bench")
    then ok (run_tool (codes "hyperlink_bench") args)
    else if text_eq command (codes "probe")
    then ok (run_tool (codes "hyperlink_probe") args)
    else if text_eq command (codes "--help")
        || (text_eq command (codes "-h") || text_eq command (codes "help"))
    then ok (print_usage 0)
    else err (invalid_argument (codes "unknown command: " ++ command))

-- `main`, from the arguments behind the program's name.
unfoldable pub dispatch : Text → List Text → Result Action
dispatch download_dir [] = ok (print_usage 1)
dispatch download_dir (command ∷ args) = dispatch_command download_dir command args

-- `path / executable` for a relative name: the separator is not repeated.
unfoldable pub join_path : Text → Text → Text
join_path [] executable = executable
join_path (c ∷ []) executable = if c == b'/' then c ∷ executable else c ∷ b'/' ∷ executable
join_path (c ∷ d ∷ entry) executable = c ∷ join_path (d ∷ entry) executable

-- The candidate in one entry of the `PATH`, where `exists` is the file system's answer.
unfoldable pub try_entry : (Text → Bool) → Text → Text → Option Text
try_entry exists executable entry =
    if is_empty entry
    then none
    else if exists (join_path entry executable)
    then some (join_path entry executable)
    else none

unfoldable pub or_else : Option Text → Option Text → Option Text
or_else (some found) later = some found
or_else none later = later

-- The loop of `find_on_path`; each round takes a separator away, so that the length of the path is enough
-- fuel.
unfoldable pub search_path : (Text → Bool) → Text → ℕ → Text → Option Text
search_path exists executable zero path = try_entry exists executable path
search_path exists executable (suc fuel) path = elim (break_at b':' path) [
  | none ↦ try_entry exists executable path
  | some (entry, rest) ↦
      or_else (try_entry exists executable entry) (search_path exists executable fuel rest)
]

-- `find_on_path`, with the value of `PATH` if it is set.
unfoldable pub find_on_path : (Text → Bool) → Text → Option Text → Option Text
find_on_path exists executable none = none
find_on_path exists executable (some path) = search_path exists executable (length path) path
