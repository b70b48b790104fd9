-- ===== src/FileTransfer/Receive/Optional.antt =====
-- `receive_header_optional`: a further header, a regular end, or a connection cut off in a header.
use hyper_link.Base.{
  ℕ, zero, suc, ◌+◌, ◌-◌, ◌<◌, ◌≤◌, ◌≡◌, refl, sym, ap, ◌∙◌, arith, false, none, some, [], ◌∷◌,
  ◌++◌, append_assoc, append-nil, take, drop, length, take-append, drop-append, length-append, Text,
  is_empty, ok, err,
}
use hyper_link.Base.Program.{Program, >>=-ok, lifts, >>=-err}
use hyper_link.FileTransfer.{TransferKind}
use hyper_link.FileTransfer.Wire.{make_header, header_bytes}
use hyper_link.FileTransfer.Wire.RoundTrip.{length-make_header}
use hyper_link.FileTransfer.Receive.{
  check_header, receive_exact, receive_header_optional, receive_optional_loop, closed_in_header,
}
use hyper_link.FileTransfer.Receive.Stream.{
  IsStream, closed, bytes, take-piece, drop-piece, receive_exact_front,
}
use hyper_link.FileTransfer.Receive.Header.{
  IsSendable, announce, announced, check_header-make_header,
}

is_empty-append : (got : Text) (c : ℕ) (chunk : Text) → is_empty (got ++ c ∷ chunk) ≡ false
is_empty-append [] c chunk = refl
is_empty-append (g ∷ got) c chunk = refl

module _ {S : Type 0} (receive_into : ℕ → Program S Text) (pending : S → Text)
    (stream : IsStream receive_into pending) where
  optional_loop_fills :
      (fuel want : ℕ) (got : Text) (s : S)
      → want ≤ fuel
      → want ≤ length (pending s)
      → (s' : S) × (receive_optional_loop receive_into fuel want got s
          ≡ some (ok (some (got ++ take want (pending s))), s'))
        × (pending s' ≡ drop want (pending s))
  unfolding receive_optional_loop
  optional_loop_fills fuel zero got s h k = (s, rw append-nil, refl)
  optional_loop_fills zero (suc want) got s h k = absurd (omega arith)
  optional_loop_fills (suc fuel) (suc want) got s h k = elim (stream (suc want) s (omega arith)) [
    | closed s' e p _ ↦ absurd (omega (arith, ap length p))
    | bytes c chunk s' e p f ↦
        let left = suc want - length (c ∷ chunk) in
        let (t, r, q) =
          optional_loop_fills fuel left (got ++ c ∷ chunk) s' (omega arith)
            (omega (arith, ap length p, length-append chunk (pending s'))) in
        (
          t,
          >>=-ok (receive_into (suc want)) _ s e
              ∙ r
              ∙ ap (λ x. some (ok (some x), t))
                  (take-piece got (c ∷ chunk) _ _ (suc want) f (sym p)),
          q ∙ drop-piece (c ∷ chunk) _ _ (suc want) f (sym p),
        )
  ]

  -- Once a byte has arrived, the end of the connection is an error.
  optional_loop_cut :
      (fuel want : ℕ) (got : Text) (s : S)
      → want ≤ fuel
      → length (pending s) < want
      → 0 < length got + length (pending s)
      → (s' : S) × (receive_optional_loop receive_into fuel want got s
          ≡ some (err closed_in_header, s'))
  unfolding receive_optional_loop
  optional_loop_cut fuel zero got s h k l = absurd (omega arith)
  optional_loop_cut zero (suc want) got s h k l = absurd (omega arith)
  optional_loop_cut (suc fuel) (suc want) [] s h k l = elim (stream (suc want) s (omega arith)) [
    | closed s' e p _ ↦ absurd (omega (arith, ap length p))
    | bytes c chunk s' e p f ↦
        let (t, r) =
          optional_loop_cut fuel (suc want - length (c ∷ chunk)) (c ∷ chunk) s' (omega arith)
            (omega (arith, ap length p, length-append chunk (pending s'))) (omega arith) in
        (t, >>=-ok (receive_into (suc want)) _ s e ∙ r)
  ]
  optional_loop_cut (suc fuel) (suc want) (g ∷ got) s h k l =
      elim (stream (suc want) s (omega arith)) [
        | closed s' e p _ ↦ (s', >>=-ok (receive_into (suc want)) _ s e)
        | bytes c chunk s' e p f ↦
            let (t, r) =
              optional_loop_cut fuel (suc want - length (c ∷ chunk)) (g ∷ (got ++ c ∷ chunk)) s'
                (omega arith) (omega (arith, ap length p, length-append chunk (pending s')))
                (omega arith) in
            (t, >>=-ok (receive_into (suc want)) _ s e ∙ r)
      ]

  optional_loop_ends :
      (fuel want : ℕ) (s : S)
      → pending s ≡ []
      → (s' : S) × (receive_optional_loop receive_into (suc fuel) (suc want) [] s
          ≡ some (ok none, s'))
        × (pending s' ≡ [])
  unfolding receive_optional_loop
  optional_loop_ends fuel want s h = elim (stream (suc want) s (omega arith)) [
    | closed s' e p q ↦ (s', >>=-ok (receive_into (suc want)) _ s e, q)
    | bytes c chunk s' e p f ↦ absurd (omega (arith, ap length p, ap length h))
  ]

  -- A connection that has nothing more to deliver ends the transfer without an error.
  pub receive_header_optional_ends :
      (s : S)
      → pending s ≡ []
      → (s' : S) × (receive_header_optional receive_into s ≡ some (ok none, s')) × (pending s' ≡ [])
  unfolding receive_header_optional
  receive_header_optional_ends s h =
      let (t, r, q) = optional_loop_ends 47 47 s h in
      (t, >>=-ok (receive_optional_loop receive_into 48 48 []) _ s r, q)

  -- A connection that ends after 1 to 47 bytes of a header makes the receiver throw.
  pub receive_header_optional_cut :
      (s : S)
      → 0 < length (pending s)
      → length (pending s) < header_bytes
      → (s' : S) × (receive_header_optional receive_into s ≡ some (err closed_in_header, s'))
  unfolding receive_header_optional
  receive_header_optional_cut s h k =
      let (t, r) = optional_loop_cut 48 48 [] s (omega arith) k (omega arith) in
      (t, >>=-err (receive_optional_loop receive_into 48 48 []) _ s r)

  -- Between two entries of a directory the receiver gets the next header as it was announced, with the
  -- name as it was sent, and leaves what follows on the stream.
  pub receive_header_optional-make_header :
      (kind : TransferKind) (p o t : ℕ) (name : Text) (s : S) (rest : Text)
      → IsSendable kind p o t name
      → pending s ≡ announce kind p o t name ++ rest
      → (s' : S) × (receive_header_optional receive_into s
          ≡ some (ok (some (announced kind p o t name name)), s'))
        × (pending s' ≡ rest)
  unfolding receive_header_optional
  receive_header_optional-make_header kind p o t name s rest fits arrives =
      let arrives' = arrives ∙ append_assoc _ name rest in
      let len = length-make_header kind p (length name) o t in
      let (s₁, r₁, q₁) = optional_loop_fills 48 48 [] s (omega arith) (
        omega (
          arith,
          ap length arrives',
          length-append (make_header kind p (length name) o t) (name ++ rest),
          len,
        )) in
      let (s₂, r₂, q₂) =
        receive_exact_front receive_into pending stream name rest (length name) s₁ refl
          (q₁ ∙ ap (drop 48) arrives' ∙ drop-append _ (name ++ rest) len) in
      (
        s₂,
        >>=-ok (receive_optional_loop receive_into 48 48 []) _ s (
              r₁
              ∙ ap (λ x. some (ok (some x), s₁))
                  (ap (take 48) arrives' ∙ take-append _ (name ++ rest) len))
            ∙ lifts (check_header (make_header kind p (length name) o t)) _ s₁
                (check_header-make_header kind p o t name fits)
            ∙ >>=-ok (receive_exact receive_into (length name)) _ s₁ r₂,
        q₂,
      )
