-- ===== src/FileTransfer/Args/Steps.antt =====
-- What the loop of `parse_args` does with an argument and its value.
use hyper_link.Base.{
  ℕ, ◌<◌, ◌≡◌, ◌≢◌, refl, arith, Bool, true, false, List, [], ◌∷◌, Text, codes, text_eq, is_empty,
  ◌==◌, if◌then◌else◌, ok, ap,
}
use hyper_link.CommandLine.{parsed, parse_loop, stoul, to_u32, parse_port}
use hyper_link.CommandLine.Steps.{take_step}
use hyper_link.FileTransfer.Args.{
  Options, option_effect, option_effect_of, flag_of, set_port, set_parallel, set_discovery_port,
}

-- The arguments that carry a number, one of them at a time.
module _ (options : Options) (value : Text) (args : List Text) {n : ℕ} where
  pub port_step :
      parse_port value ≡ ok n
      → parse_loop option_effect options (codes "--port" ∷ value ∷ args)
        ≡ parse_loop option_effect (record options { port = n }) args
  unfolding option_effect option_effect_of flag_of text_eq set_port
  port_step e = take_step option_effect options _ value args refl (rw e refl)

  pub discovery_step :
      parse_port value ≡ ok n
      → parse_loop option_effect options (codes "--discovery-port" ∷ value ∷ args)
        ≡ parse_loop option_effect (record options { discovery_port = n }) args
  unfolding option_effect option_effect_of flag_of text_eq set_discovery_port
  discovery_step e = take_step option_effect options _ value args refl (rw e refl)

  pub parallel_step :
      stoul value ≡ ok n
      → 0 < to_u32 n
      → parse_loop option_effect options (codes "--parallel" ∷ value ∷ args)
        ≡ parse_loop option_effect (record options { parallel = to_u32 n }) args
  unfolding option_effect option_effect_of flag_of text_eq set_parallel
  parallel_step e positive =
      let some_streams : (to_u32 n == 0) ≡ false = ground arith in
      take_step option_effect options _ value args refl (rw (e, some_streams) refl)

-- The arguments that carry a text.
module _ (options : Options) (value : Text) (args : List Text) where
  pub host_step :
      parse_loop option_effect options (codes "--host" ∷ value ∷ args)
      ≡ parse_loop option_effect (record options { host = value }) args
  unfolding option_effect option_effect_of flag_of text_eq
  host_step = take_step option_effect options _ value args refl refl

  pub output_dir_step :
      parse_loop option_effect options (codes "--output-dir" ∷ value ∷ args)
      ≡ parse_loop option_effect (record options { output_dir = value }) args
  unfolding option_effect option_effect_of flag_of text_eq
  output_dir_step = take_step option_effect options _ value args refl refl

  pub file_step :
      parse_loop option_effect options (codes "--file" ∷ value ∷ args)
      ≡ parse_loop option_effect (record options { file = value }) args
  unfolding option_effect option_effect_of flag_of text_eq
  file_step = take_step option_effect options _ value args refl refl

pub is_empty-false : (text : Text) → text ≢ [] → is_empty text ≡ false
is_empty-false [] h = absurd (h refl)
is_empty-false (c ∷ text) h = refl

-- What follows the numbers of `hyperlink receive`.
pub advertise_steps :
    (options : Options) (advertise : Bool)
    → options.advertise ≡ true
    → parse_loop option_effect options (if advertise then [] else codes "--no-advertise" ∷ [])
      ≡ ok (parsed (record options { advertise = advertise }))
unfolding parse_loop option_effect option_effect_of flag_of text_eq
advertise_steps options true h = ap (λ a. ok (parsed (record options { advertise = a }))) h
advertise_steps options false h = refl

-- What follows the discovery port of `hyperlink send`: the name of the file on the other side.
pub name_steps :
    (options : Options) (name : Text)
    → options.remote_name ≡ []
    → parse_loop option_effect options (if is_empty name then [] else codes "--name" ∷ name ∷ [])
      ≡ ok (parsed (record options { remote_name = name }))
unfolding parse_loop option_effect option_effect_of flag_of text_eq
name_steps options [] h = ap (λ a. ok (parsed (record options { remote_name = a }))) h
name_steps options (c ∷ name) h = refl
