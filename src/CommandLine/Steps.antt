-- ===== src/CommandLine/Steps.antt =====
-- One round of the loop over the arguments.
use hyper_link.Base.{◌≡◌, refl, List, [], ◌∷◌, Text, Result, ok}
use hyper_link.CommandLine.{Effect, set, take_value, parse_loop}

module _ {O : Type 0} (effect : O → Text → Effect O) (options : O) (arg : Text) where
  pub take_step :
      {store : Text → Result O} (value : Text) (args : List Text) {options' : O}
      → effect options arg ≡ take_value store
      → store value ≡ ok options'
      → parse_loop effect options (arg ∷ value ∷ args) ≡ parse_loop effect options' args
  unfolding parse_loop
  take_step value args e f = rw (parse_loop, e, f) refl

  pub set_step :
      (args : List Text) {options' : O}
      → effect options arg ≡ set options'
      → parse_loop effect options (arg ∷ args) ≡ parse_loop effect options' args
  unfolding parse_loop
  set_step [] e = rw (parse_loop, e) refl
  set_step (value ∷ args) e = rw (parse_loop, e) refl
