-- ===== src/Cli/Run/Helper.antt =====
-- `hyperlink_file` reads back what `hyperlink` was told.
use hyper_link.Base.{
  ℕ, ◌+◌, ◌-◌, ◌<◌, ◌≤◌, ◌≡◌, ◌≢◌, refl, arith, true, false, [], ◌∷◌, ◌++◌, codes, text_eq,
  is_empty, ltb, ok, ap, ◌∙◌,
}
use hyper_link.CommandLine.{parsed, parse_loop, and_then, stoul, to_u32, parse_port}
use hyper_link.CommandLine.Steps.{set_step}
use hyper_link.FileTransfer.Args.{
  Options, default_options, option_effect, option_effect_of, flag_of, same_mode, check_options,
  parse_args,
}
use hyper_link.FileTransfer.Args.Steps.{
  port_step, discovery_step, parallel_step, host_step, output_dir_step, file_step, is_empty-false,
  advertise_steps, name_steps,
}
use hyper_link.Cli.{ReceiveOptions, SendOptions}
use hyper_link.Cli.Run.{receive_arguments, send_arguments, peer_arguments, name_arguments}

-- `hyperlink_file` receives with the options of `hyperlink receive`, if their numbers are read as `p`, `d`
-- and `n`, the latter's low 32 bits are not zero, and the streams' ports end at 65535.
pub parse_args-receive_arguments :
    (options : ReceiveOptions) (p d n : ℕ)
    → parse_port options.port ≡ ok p
    → parse_port options.discovery_port ≡ ok d
    → stoul options.parallel ≡ ok n
    → 0 < to_u32 n
    → p + to_u32 n ≤ 65536
    → parse_args (receive_arguments options)
      ≡ ok (
          parsed (record default_options {
            receive = true;
            advertise = options.advertise;
            host = options.host;
            port = p;
            discovery_port = d;
            parallel = to_u32 n;
            output_dir = options.output_dir;
          }))
unfolding parse_args receive_arguments and_then check_options same_mode default_options
    option_effect option_effect_of flag_of text_eq
parse_args-receive_arguments options p d n hp hd hn positive fits =
    let in_range : ltb 65535 (p + to_u32 n - 1) ≡ false = ground arith in
    ap (λ r. and_then r check_options)
      (set_step option_effect default_options (codes "--receive") _ refl
        ∙ host_step _ _ _
        ∙ port_step _ _ _ hp
        ∙ output_dir_step _ _ _
        ∙ parallel_step _ _ _ hn positive
        ∙ discovery_step _ _ _ hd
        ∙ advertise_steps _ options.advertise refl)
    ∙ rw in_range refl

peer_named :
    (options : SendOptions)
    → is_empty options.host ≡ false
    → peer_arguments options
      ≡ codes "--host"
        ∷ options.host
        ∷ codes "--port"
        ∷ options.port
        ∷ codes "--parallel"
        ∷ options.parallel
        ∷ []
unfolding peer_arguments
peer_named options h = rw h refl

peer_unnamed :
    (options : SendOptions)
    → is_empty options.host ≡ true
    → peer_arguments options ≡ codes "--auto" ∷ []
unfolding peer_arguments
peer_unnamed options h = rw h refl

-- The arguments behind the discovery port, with a host and without one.
named_steps :
    (base : Options) (options : SendOptions) (p n : ℕ)
    → options.host ≢ []
    → parse_port options.port ≡ ok p
    → stoul options.parallel ≡ ok n
    → 0 < to_u32 n
    → base.remote_name ≡ []
    → parse_loop option_effect base (peer_arguments options ++ name_arguments options)
      ≡ ok (
          parsed (record base {
            host = options.host;
            port = p;
            parallel = to_u32 n;
            remote_name = options.remote_name;
          }))
unfolding name_arguments
named_steps base options p n names_host hp hn positive h =
    ap (λ peer. parse_loop option_effect base (peer ++ name_arguments options))
      (peer_named options (is_empty-false options.host names_host))
    ∙ host_step _ _ _
    ∙ port_step _ _ _ hp
    ∙ parallel_step _ _ _ hn positive
    ∙ name_steps _ options.remote_name h

unnamed_steps :
    (base : Options) (options : SendOptions)
    → options.host ≡ []
    → base.remote_name ≡ []
    → parse_loop option_effect base (peer_arguments options ++ name_arguments options)
      ≡ ok (
          parsed
            (record base { auto_discover = true; host = []; remote_name = options.remote_name }))
unfolding name_arguments option_effect option_effect_of flag_of text_eq
unnamed_steps base options no_host h =
    ap (λ peer. parse_loop option_effect base (peer ++ name_arguments options))
      (peer_unnamed options (ap is_empty no_host))
    ∙ set_step option_effect base (codes "--auto") _ refl
    ∙ name_steps _ options.remote_name h

-- `hyperlink_file` sends the file of `hyperlink send` to the host that is named there, if the file and
-- the host are not empty, its numbers are
-- read as `p`, `d` and `n`, the latter's low 32 bits are not zero, and the streams' ports end at 65535.
pub parse_args-send_arguments :
    (options : SendOptions) (p d n : ℕ)
    → options.file ≢ []
    → options.host ≢ []
    → parse_port options.port ≡ ok p
    → parse_port options.discovery_port ≡ ok d
    → stoul options.parallel ≡ ok n
    → 0 < to_u32 n
    → p + to_u32 n ≤ 65536
    → parse_args (send_arguments options)
      ≡ ok (
          parsed (record default_options {
            send = true;
            host = options.host;
            port = p;
            discovery_port = d;
            parallel = to_u32 n;
            file = options.file;
            remote_name = options.remote_name;
          }))
unfolding parse_args send_arguments peer_arguments name_arguments and_then check_options same_mode
    default_options option_effect option_effect_of flag_of text_eq
parse_args-send_arguments options p d n names_file names_host hp hd hn positive fits =
    let in_range : ltb 65535 (p + to_u32 n - 1) ≡ false = ground arith in
    let has_file : is_empty options.file ≡ false = is_empty-false options.file names_file in
    ap (λ r. and_then r check_options)
      (set_step option_effect default_options (codes "--send") _ refl
        ∙ file_step _ _ _
        ∙ discovery_step _ _ _ hd
        ∙ named_steps _ options p n names_host hp hn positive refl)
    ∙ rw (has_file, in_range) refl

-- Without a host, with a file and a discovery port that is read as `d`, `hyperlink_file` looks for a peer
-- by itself, with the default port and one stream.
pub parse_args-auto_arguments :
    (options : SendOptions) (d : ℕ)
    → options.file ≢ []
    → options.host ≡ []
    → parse_port options.discovery_port ≡ ok d
    → parse_args (send_arguments options)
      ≡ ok (
          parsed (record default_options {
            send = true;
            auto_discover = true;
            host = [];
            discovery_port = d;
            file = options.file;
            remote_name = options.remote_name;
          }))
unfolding parse_args send_arguments peer_arguments name_arguments and_then check_options same_mode
    default_options option_effect option_effect_of flag_of text_eq
parse_args-auto_arguments options d names_file no_host hd =
    let has_file : is_empty options.file ≡ false = is_empty-false options.file names_file in
    ap (λ r. and_then r check_options)
      (set_step option_effect default_options (codes "--send") _ refl
        ∙ file_step _ _ _
        ∙ discovery_step _ _ _ hd
        ∙ unnamed_steps _ options no_host refl)
    ∙ rw has_file refl
