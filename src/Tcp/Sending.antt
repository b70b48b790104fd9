-- ===== src/Tcp/Sending.antt =====
-- The loop of `send`, over a `send` call of the system that takes only a part of the bytes.
use hyper_link.Base.{
  ℕ, zero, suc, ◌+◌, ◌≤◌, ◌<◌, min, ◌≡◌, refl, sym, ap, subst, ◌∙◌, arith, Option, none, some,
  Option-cases, inl, inr, List, [], ◌∷◌, ◌++◌, Text, codes, length, take, drop, Result, ok, err,
  length-drop, take-add, length-take, append_assoc, append-nil, take-append-drop,
}
use hyper_link.Tcp.{
  Sockets, TcpTransport, send_loop, send_over, send, keep_transport, send_chunk_bytes, failed,
}

-- What a call of `send` did to the bytes on the wire: none for an error, and else the first bytes of what
-- it was given, as many as it returns.
abbrev pub Wrote : Option ℕ → Text → Text → Text → Type 0
Wrote none payload before after = after ≡ before
Wrote (some n) payload before after = (n ≤ length payload) × (after ≡ before ++ take n payload)

-- The documented behaviour of the call on a connected descriptor, with the bytes that the peer can read.
abbrev pub SendsPrefix : {A V : Type 0} → Sockets A V → (V → Text) → ℕ → Type 0
SendsPrefix {V = V} s wire d =
    (payload : Text) (v : V)
    → Wrote (s.send d payload v).0 payload (wire v) (wire (s.send d payload v).1)

-- A success delivers all of the payload and returns its length, an error less than all, from the front.
abbrev pub Delivered : Result ℕ → ℕ → Text → Text → Text → Type 0
Delivered (ok n) sent payload before after =
    (n ≡ sent + length payload) × (after ≡ before ++ payload)
Delivered (err error) sent payload before after =
    (k : ℕ) × (k < length payload) × (after ≡ before ++ take k payload)

take-take_le :
    {A : Type 0} (n m : ℕ) (xs : List A) → n ≤ length (take m xs) → take n (take m xs) ≡ take n xs
take-take_le zero m xs h = refl
take-take_le (suc n) zero xs h = absurd (omega arith)
take-take_le (suc n) (suc m) [] h = refl
take-take_le (suc n) (suc m) (x ∷ xs) h = ap (◌∷◌ x) (take-take_le n m xs (omega arith))

-- What is delivered behind the bytes that went first.
deliver_rest :
    (r : Result ℕ) (n sent : ℕ) (payload before middle after : Text)
    → n ≤ length payload
    → middle ≡ before ++ take n payload
    → Delivered r (sent + n) (drop n payload) middle after
    → Delivered r sent payload before after
deliver_rest (ok m) n sent payload before middle after h e (f, g) = (
  omega (arith, f, length-drop n payload),
  g
      ∙ (ap (λ t. t ++ drop n payload) e
          ∙ (append_assoc before (take n payload) (drop n payload)
              ∙ ap (◌++◌ before) (take-append-drop n payload))),
)
deliver_rest (err error) n sent payload before middle after h e (k, f, g) = (
  n + k,
  omega (arith, f, length-drop n payload),
  g
      ∙ (ap (λ t. t ++ take k (drop n payload)) e
          ∙ (append_assoc before (take n payload) _ ∙ ap (◌++◌ before) (take-add n k payload))),
)

module _ {A V : Type 0} (s : Sockets A V) (wire : V → Text) (d : ℕ)
    (prefixes : SendsPrefix s wire d) where
  abbrev Ends : Option (Result ℕ × V) → ℕ → Text → V → Type 0
  Ends outcome sent payload v =
      (r : Result ℕ) × (v' : V) × (outcome ≡ some (r, v'))
      × Delivered r sent payload (wire v) (wire v')

  send_loop-Delivered :
      (fuel : ℕ) (payload : Text) (sent : ℕ) (v : V)
      → length payload ≤ fuel
      → Ends (send_loop s fuel d payload sent v) sent payload v
  unfolding send_loop
  send_loop-Delivered fuel [] sent v h =
      (ok sent, v, refl, (omega arith, sym (append-nil (wire v))))
  send_loop-Delivered zero (c ∷ rest) sent v h = absurd (omega (arith, h))
  send_loop-Delivered (suc fuel) (c ∷ rest) sent v h =
      let size = min (length (c ∷ rest)) send_chunk_bytes in
      let chunk = take size (c ∷ rest) in
      let v₁ = (s.send d chunk v).1 in
      let failure : Result ℕ = err (failed s (codes "send failed: ") v₁) in
      let nothing : (wire v₁ ≡ wire v) → Delivered failure sent (c ∷ rest) (wire v) (wire v₁) =
        λ e. (0, omega arith, e ∙ sym (append-nil (wire v))) in
      let wrote : (r : Option ℕ) → ((s.send d chunk v).0 ≡ r) → Wrote r chunk (wire v) (wire v₁) =
        λ r e. subst (λ r. Wrote r chunk (wire v) (wire v₁)) e (prefixes chunk v) in
      elim (Option-cases (s.send d chunk v).0) [
        | inl e ↦ (failure, v₁, rw (send_loop, e) refl, nothing (wrote none e))
        | inr (zero, e) ↦ (
          failure,
          v₁,
          rw (send_loop, e) refl,
          nothing ((wrote (some zero) e).1 ∙ append-nil (wire v)),
        )
        | inr (suc n, e) ↦
            let (short, same) = wrote (some (suc n)) e in
            let (r, v', f, delivered) =
              send_loop-Delivered fuel (drop n rest) (sent + suc n) v₁
                (omega (arith, length-drop n rest, h)) in
            (
              r,
              v',
              rw (send_loop, e) f,
              deliver_rest r (suc n) sent (c ∷ rest) (wire v) (wire v₁) (wire v')
                  (omega (arith, short, length-take size (c ∷ rest)))
                  (same ∙ ap (◌++◌ (wire v)) (take-take_le (suc n) size (c ∷ rest) short))
                  delivered,
            )
      ]

-- A transport with a data socket, whose `send` call takes some of the first bytes of what it is given or
-- fails without an effect: `send` returns, with the length of the payload if all of it is on the wire
-- behind what was there, and else by an exception, with less than all of it, from the front.
pub send_delivers :
    {A V : Type 0} (s : Sockets A V) (wire : V → Text) (transport : TcpTransport) (d : ℕ)
    (payload : Text) (v : V)
    → transport.data_socket ≡ some d
    → SendsPrefix s wire d
    → (r : Result ℕ) × (v' : V) × (send s payload (transport, v) ≡ some (r, (transport, v')))
      × Delivered r 0 payload (wire v) (wire v')
unfolding send send_over keep_transport
send_delivers s wire transport d payload v e prefixes =
    let (r, v', f, delivered) =
      send_loop-Delivered s wire d prefixes (length payload) payload 0 v (omega arith) in
    (r, v', rw (send, e, send_over, f) refl, delivered)
