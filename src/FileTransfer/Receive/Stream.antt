-- ===== src/FileTransfer/Receive/Stream.antt =====
-- What `receive_exact` reads from a connection that delivers its bytes in pieces of any size.
use hyper_link.Base.{
  ℕ, zero, suc, ◌-◌, ◌<◌, ◌≤◌, ◌≡◌, refl, sym, err, ◌∙◌, ◌++◌, append-nil, append_assoc, ap,
  length-append, take-append, drop-append, take-append_le, drop-append_le, append-nil, [], ◌∷◌,
  some, Text, take, drop, length, arith, ok, err,
}
use hyper_link.Base.Program.{Program, >>=-ok}
use hyper_link.FileTransfer.Receive.{receive_loop, receive_exact, closed_early}

module _ {S : Type 0} (receive_into : ℕ → Program S Text) (pending : S → Text) where
  -- What one call for `n` bytes does: it finds the connection closed, or delivers at least one and at
  -- most `n` of the bytes that are to come.
  pub data Delivers (n : ℕ) (s : S) : Type 0 where
    closed :
        (s' : S)
        → receive_into n s ≡ some (ok [], s')
        → pending s ≡ []
        → pending s' ≡ []
        → Delivers n s
    bytes :
        (c : ℕ) (chunk : Text) (s' : S)
        → receive_into n s ≡ some (ok (c ∷ chunk), s')
        → pending s ≡ c ∷ (chunk ++ pending s')
        → length (c ∷ chunk) ≤ n
        → Delivers n s

  -- The documented behaviour of a stream socket's `recv` while no error occurs.
  abbrev pub IsStream : Type 0
  IsStream = (n : ℕ) (s : S) → 0 < n → Delivers n s

-- What a piece of a text and the rest of the cut behind it come to.
pub take-piece :
    (got piece later all : Text) (n : ℕ)
    → length piece ≤ n
    → piece ++ later ≡ all
    → (got ++ piece) ++ take (n - length piece) later ≡ got ++ take n all
take-piece got piece later all n h e =
    append_assoc got piece _ ∙ ap (◌++◌ got) (sym (take-append_le piece later n h) ∙ ap (take n) e)

pub drop-piece :
    (piece later all : Text) (n : ℕ)
    → length piece ≤ n
    → piece ++ later ≡ all
    → drop (n - length piece) later ≡ drop n all
drop-piece piece later all n h e = sym (drop-append_le piece later n h) ∙ ap (drop n) e

module _ {S : Type 0} (receive_into : ℕ → Program S Text) (pending : S → Text)
    (stream : IsStream receive_into pending) where
  receive_loop_fills :
      (fuel want : ℕ) (got : Text) (s : S)
      → want ≤ fuel
      → want ≤ length (pending s)
      → (s' : S) × (receive_loop receive_into fuel want got s
          ≡ some (ok (got ++ take want (pending s)), s'))
        × (pending s' ≡ drop want (pending s))
  unfolding receive_loop
  receive_loop_fills fuel zero got s h k = (s, rw append-nil, refl)
  receive_loop_fills zero (suc want) got s h k = absurd (omega arith)
  receive_loop_fills (suc fuel) (suc want) got s h k = elim (stream (suc want) s (omega arith)) [
    | closed s' e p _ ↦ absurd (omega (arith, ap length p))
    | bytes c chunk s' e p f ↦
        let left = suc want - length (c ∷ chunk) in
        let (t, r, q) =
          receive_loop_fills fuel left (got ++ c ∷ chunk) s' (omega arith)
            (omega (arith, ap length p, length-append chunk (pending s'))) in
        (
          t,
          >>=-ok (receive_into (suc want)) _ s e
              ∙ r
              ∙ ap (λ x. some (ok x, t)) (take-piece got (c ∷ chunk) _ _ (suc want) f (sym p)),
          q ∙ drop-piece (c ∷ chunk) _ _ (suc want) f (sym p),
        )
  ]

  -- A connection that still has `size` bytes to deliver, in pieces of whatever size, fills the buffer
  -- with the first `size` of them and is left with the others.
  pub receive_exact_fills :
      (size : ℕ) (s : S)
      → size ≤ length (pending s)
      → (s' : S) × (receive_exact receive_into size s ≡ some (ok (take size (pending s)), s'))
        × (pending s' ≡ drop size (pending s))
  unfolding receive_exact
  receive_exact_fills size s h = receive_loop_fills size size [] s (omega arith) h

  receive_loop_closed :
      (fuel want : ℕ) (got : Text) (s : S)
      → want ≤ fuel
      → length (pending s) < want
      → (s' : S) × (receive_loop receive_into fuel want got s ≡ some (err closed_early, s'))
  unfolding receive_loop
  receive_loop_closed fuel zero got s h k = absurd (omega arith)
  receive_loop_closed zero (suc want) got s h k = absurd (omega arith)
  receive_loop_closed (suc fuel) (suc want) got s h k = elim (stream (suc want) s (omega arith)) [
    | closed s' e p _ ↦ (s', >>=-ok (receive_into (suc want)) _ s e)
    | bytes c chunk s' e p f ↦
        let left = suc want - length (c ∷ chunk) in
        let (t, r) =
          receive_loop_closed fuel left (got ++ c ∷ chunk) s' (omega arith)
            (omega (arith, ap length p, length-append chunk (pending s'))) in
        (t, >>=-ok (receive_into (suc want)) _ s e ∙ r)
  ]

  -- A connection that closes before it has delivered `size` bytes makes `receive_exact` throw, after
  -- finitely many calls.
  pub receive_exact_closed :
      (size : ℕ) (s : S)
      → length (pending s) < size
      → (s' : S) × (receive_exact receive_into size s ≡ some (err closed_early, s'))
  unfolding receive_exact
  receive_exact_closed size s h = receive_loop_closed size size [] s (omega arith) h

  -- A message of known length is read off the front.
  pub receive_exact_front :
      (front rest : Text) (size : ℕ) (s : S)
      → length front ≡ size
      → pending s ≡ front ++ rest
      → (s' : S) × (receive_exact receive_into size s ≡ some (ok front, s')) × (pending s' ≡ rest)
  receive_exact_front front rest size s l e =
      let (s', r, q) =
        receive_exact_fills size s (omega (arith, ap length e, length-append front rest)) in
      (
        s',
        r ∙ ap (λ x. some (ok x, s')) (ap (take size) e ∙ take-append front rest l),
        q ∙ ap (drop size) e ∙ drop-append front rest l,
      )
