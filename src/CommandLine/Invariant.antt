-- ===== src/CommandLine/Invariant.antt =====
-- What holds of the options through the loop over the arguments.
use hyper_link.Base.{
  ℕ, ◌<◌, ◌≤◌, ◌≡◌, refl, arith, Result-cases, inl, inr, List, [], ◌∷◌, Text, Error, Result, ok,
  err,
}
use hyper_link.CommandLine.{
  Parsed, parsed, exit_with_usage, Effect, set, take_value, help, refuse, parse_loop, and_then,
  stoul, parse_port, checked_port,
}

module _ {O : Type 0} (P : O → Type 0) where
  -- An effect that keeps `P` of the options.
  pub data Keeps : Effect O → Type 0 where
    sets : {options : O} → P options → Keeps (set options)
    takes :
        {store : Text → Result O}
        → ((value : Text) (options : O) → store value ≡ ok options → P options)
        → Keeps (take_value store)
    helps : Keeps help
    refuses : {error : Error} → Keeps (refuse error)

  -- A parser's result keeps `P`.
  abbrev pub Yields : Result (Parsed O) → Type 0
  Yields (ok (parsed options)) = P options
  Yields (ok exit_with_usage) = Unit
  Yields (err error) = Unit

  module _ (effect : O → Text → Effect O) where
    Yields-last :
        (options : O) (arg : Text) {e : Effect O}
        → effect options arg ≡ e
        → Keeps e
        → Yields (parse_loop effect options (arg ∷ []))
    unfolding parse_loop
    Yields-last options arg e (sets k) = rw (e, Yields) k
    Yields-last options arg e (takes k) = rw (e, Yields) tt
    Yields-last options arg e helps = rw (e, Yields) tt
    Yields-last options arg e refuses = rw (e, Yields) tt

    Yields-step :
        (options : O) (arg value : Text) (args : List Text) {e : Effect O}
        → effect options arg ≡ e
        → Keeps e
        → ((options' : O) → P options' → Yields (parse_loop effect options' (value ∷ args)))
        → ((options' : O) → P options' → Yields (parse_loop effect options' args))
        → Yields (parse_loop effect options (arg ∷ value ∷ args))
    unfolding parse_loop
    Yields-step options arg value args e (sets k) next skip = rw (e, Yields) (next _ k)
    Yields-step options arg value args e (takes {store} k) next skip =
        elim (Result-cases (store value)) [
          | inl (options', f) ↦ rw (e, f, Yields) (skip options' (k value options' f))
          | inr (error, f) ↦ rw (e, f, Yields) tt
        ]
    Yields-step options arg value args e helps next skip = rw (e, Yields) tt
    Yields-step options arg value args e refuses next skip = rw (e, Yields) tt

    pub parse_loop-Yields :
        ((options : O) (arg : Text) → P options → Keeps (effect options arg))
        → (options : O) (args : List Text) → P options
        → Yields (parse_loop effect options args)
    unfolding parse_loop
    parse_loop-Yields keeps options [] h = h
    parse_loop-Yields keeps options (arg ∷ []) h =
        Yields-last options arg refl (keeps options arg h)
    parse_loop-Yields keeps options (arg ∷ value ∷ args) h =
        Yields-step options arg value args refl (keeps options arg h)
          (λ options'. parse_loop-Yields keeps options' (value ∷ args))
          (λ options'. parse_loop-Yields keeps options' args)

-- Options that pass the checks after the loop passed the loop.
pub checked_after :
    {O : Type 0} (P : O → Type 0) (looped : Result (Parsed O)) (check : O → Result (Parsed O))
    {options : O}
    → and_then looped check ≡ ok (parsed options)
    → Yields P looped
    → (before : O) × P before × (check before ≡ ok (parsed options))
unfolding and_then
checked_after P (ok (parsed before)) check e h = (before, h, e)
checked_after P (ok exit_with_usage) check e h = absurd (ground arith)
checked_after P (err error) check e h = absurd (ground arith)

-- The range of a port.
pub parse_port_range : (value : Text) {n : ℕ} → parse_port value ≡ ok n → (0 < n) × (n ≤ 65535)
unfolding parse_port checked_port
parse_port_range value h = elim (Result-cases (stoul value)) [
  | inl (n, e) ↦ ground arith
  | inr (error, e) ↦ absurd (ground arith)
]
