-- ===== src/Bench/Run/Counts.antt =====
-- What the two ends of a benchmark count.
use hyper_link.Base.{
  ℕ, zero, suc, ◌+◌, ◌%◌, ◌^◌, ◌≤◌, ◌<◌, ◌≡◌, refl, sym, ap, ◌∙◌, arith, Bool-cases, inl, inr, some,
  [], ◌∷◌, ◌++◌, Text, length, length-append, ltb, ltb→lt, ok,
}
use hyper_link.Base.Program.{Program, ◌>>=◌, ◌>>◌, >>=-ok}
use hyper_link.FileTransfer.Send.{on_world}
use hyper_link.FileTransfer.Receive.Stream.{IsStream, closed, bytes}
use hyper_link.Bench.Run.{count_bytes, server_loop, client_loop}

on_world-ok :
    {W A : Type 0} (m : Program W A) {w w' : W} {a : A} (b : ℕ)
    → m w ≡ some (ok a, w')
    → on_world m (w, b) ≡ some (ok a, (w', b))
on_world-ok m b e = rw (e, on_world) refl

module _ {S : Type 0} (receive_into : ℕ → Program S Text) where
  -- A round of the server that receives nothing, and one that receives something.
  last_round :
      (fuel chunk : ℕ) (s s' : S) (b : ℕ)
      → receive_into chunk s ≡ some (ok [], s')
      → server_loop receive_into (suc fuel) chunk (s, b) ≡ some (ok tt, (s', b))
  unfolding server_loop
  last_round fuel chunk s s' b e =
      >>=-ok (on_world (receive_into chunk)) _ (s, b) (on_world-ok (receive_into chunk) b e)

  next_round :
      (fuel chunk : ℕ) (s s' : S) (b c : ℕ) (piece : Text)
      → receive_into chunk s ≡ some (ok (c ∷ piece), s')
      → server_loop receive_into (suc fuel) chunk (s, b)
        ≡ server_loop receive_into fuel chunk (s', (b + length (c ∷ piece)) % 2 ^ 64)
  unfolding server_loop count_bytes
  next_round fuel chunk s s' b c piece e =
      >>=-ok (on_world (receive_into chunk)) _ (s, b) (on_world-ok (receive_into chunk) b e)

module _ {S : Type 0} (receive_into : ℕ → Program S Text) (pending : S → Text)
    (stream : IsStream receive_into pending) (chunk : ℕ) (positive : 0 < chunk) where
  -- The server counts all bytes that are to come.
  pub server_loop-counts :
      (fuel : ℕ) (s : S) (b : ℕ)
      → length (pending s) < fuel
      → b < 2 ^ 64
      → (s' : S) × (server_loop receive_into fuel chunk (s, b)
          ≡ some (ok tt, (s', (b + length (pending s)) % 2 ^ 64)))
        × (pending s' ≡ [])
  server_loop-counts zero s b h small = absurd (omega arith)
  server_loop-counts (suc fuel) s b h small = elim (stream chunk s positive) [
    | closed s' e p q ↦
        let none_left : (b + length (pending s)) % 2 ^ 64 ≡ b = omega (arith, small, ap length p) in
        (
          s',
          last_round receive_into fuel chunk s s' b e
              ∙ ap (λ k. some (ok tt, (s', k))) (sym none_left),
          q,
        )
    | bytes c piece s' e p fits ↦
        let n = length (c ∷ piece) in
        let cut : length (pending s) ≡ n + length (pending s') =
          ap length p ∙ length-append (c ∷ piece) (pending s') in
        let (s'', f, q) =
          server_loop-counts fuel s' ((b + n) % 2 ^ 64) (omega (arith, cut, h)) (omega arith) in
        let sum : ((b + n) % 2 ^ 64 + length (pending s')) % 2 ^ 64
            ≡ (b + length (pending s)) % 2 ^ 64 =
          omega (arith, cut) in
        (
          s'',
          next_round receive_into fuel chunk s s' b c piece e
              ∙ (f ∙ ap (λ k. some (ok tt, (s'', k))) sum),
          q,
        )
  ]

-- The client's end: a clock that reaches the deadline, and a connection that takes whole payloads on its
-- wire.
pub record Sending (W : Type 0) (now : W → ℕ × W) (send : Text → Program W ℕ) : Type 0 where
  pub wire : W → Text
  pub ticks : ℕ → W → ℕ
  pub now_ticks :
      (deadline : ℕ) (w : W) → (now w).0 < deadline → ticks deadline (now w).1 < ticks deadline w
  pub now_wire : (w : W) → wire (now w).1 ≡ wire w
  pub sends :
      (payload : Text) (w : W)
      → (w' : W) × (send payload w ≡ some (ok (length payload), w'))
        × (wire w' ≡ wire w ++ payload)
        × ((deadline : ℕ) → ticks deadline w' ≤ ticks deadline w)

module _ {W : Type 0} (now : W → ℕ × W) (send : Text → Program W ℕ) (link : Sending W now send)
    (deadline : ℕ) (payload : Text) where
  -- The client counts the bytes that it put on the wire.
  abbrev Counted : W × ℕ → Type 0
  Counted (w, b) = b ≡ length (link.wire w) % 2 ^ 64

  payload_sent :
      (fuel : ℕ) (w w' : W) (b : ℕ)
      → send payload w ≡ some (ok (length payload), w')
      → ((on_world (send payload) >>= count_bytes) >> client_loop now send fuel deadline payload)
          (w, b)
        ≡ client_loop now send fuel deadline payload (w', (b + length payload) % 2 ^ 64)
  unfolding count_bytes
  payload_sent fuel w w' b e =
      >>=-ok (on_world (send payload) >>= count_bytes)
        (λ a. client_loop now send fuel deadline payload) (w, b)
        (>>=-ok (on_world (send payload)) count_bytes (w, b) (on_world-ok (send payload) b e))

  pub client_loop-counts :
      (fuel : ℕ) (w : W) (b : ℕ)
      → link.ticks deadline w < fuel
      → Counted (w, b)
      → (w' : W) × (client_loop now send fuel deadline payload (w, b)
          ≡ some (ok tt, (w', length (link.wire w') % 2 ^ 64)))
  unfolding client_loop count_bytes
  client_loop-counts zero w b h counted = absurd (omega arith)
  client_loop-counts (suc fuel) w b h counted = elim (Bool-cases (ltb (now w).0 deadline)) [
    | inr late ↦
        let same : b ≡ length (link.wire (now w).1) % 2 ^ 64 =
          counted ∙ ap (λ t. length t % 2 ^ 64) (sym (link.now_wire w)) in
        ((now w).1, rw late (ap (λ k. some (ok tt, ((now w).1, k))) same))
    | inl early ↦
        let (w', e, on_wire, later) = link.sends payload (now w).1 in
        let sooner = link.now_ticks deadline w (ltb→lt _ _ early) in
        let grown : length (link.wire w') ≡ length (link.wire w) + length payload =
          ap length on_wire
          ∙ (length-append _ payload ∙ ap (λ t. length t + length payload) (link.now_wire w)) in
        let (w'', f) =
          client_loop-counts fuel w' ((b + length payload) % 2 ^ 64)
            (omega (arith, sooner, later deadline, h)) (omega (arith, counted, grown)) in
        (w'', rw early (payload_sent fuel (now w).1 w' b e) ∙ f)
  ]

-- A client with a clock that reaches its deadline within `t` readings, over a connection that takes whole
-- payloads and delivers them in any pieces to a server that asks for at least one byte at a time: the
-- loops of both threads return, and the two ends count the same number of bytes, which is the
-- number that was sent, in 64 bits.
pub bench_counts_agree :
    {W S : Type 0} (now : W → ℕ × W) (send : Text → Program W ℕ) (link : Sending W now send)
    (receive_into : ℕ → Program S Text) (pending : S → Text) (deliver : Text → S)
    (deadline chunk t : ℕ) (payload : Text) (w : W)
    → IsStream receive_into pending
    → ((sent : Text) → pending (deliver sent) ≡ sent)
    → 0 < chunk
    → link.ticks deadline w ≤ t
    → link.wire w ≡ []
    → (w' : W) × (s' : S) × (client_loop now send (suc t) deadline payload (w, 0)
        ≡ some (ok tt, (w', length (link.wire w') % 2 ^ 64)))
      × (server_loop receive_into (suc (length (link.wire w'))) chunk (deliver (link.wire w'), 0)
          ≡ some (ok tt, (s', length (link.wire w') % 2 ^ 64)))
      × (pending s' ≡ [])
bench_counts_agree now send link receive_into pending deliver deadline chunk t payload w stream
      carries positive pace empty =
    let (w', sent) =
      client_loop-counts now send link deadline payload (suc t) w 0 (omega (arith, pace))
        (omega (arith, ap length empty)) in
    let wire = link.wire w' in
    let arrived = ap length (carries wire) in
    let (s', counted, done) =
      server_loop-counts receive_into pending stream chunk positive (suc (length wire))
        (deliver wire) 0 (omega (arith, arrived)) (omega arith) in
    let same : (0 + length (pending (deliver wire))) % 2 ^ 64 ≡ length wire % 2 ^ 64 =
      omega (arith, arrived) in
    (w', s', sent, counted ∙ ap (λ k. some (ok tt, (s', k))) same, done)
