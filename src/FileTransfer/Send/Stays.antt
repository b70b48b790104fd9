-- ===== src/FileTransfer/Send/Stays.antt =====
-- Properties of the state that the steps of a sender's thread keep, by results and by exceptions.
use hyper_link.Base.{
  ltb, is_empty, ℕ, zero, suc, ◌+◌, ◌-◌, ◌≤◌, min, ◌≡◌, refl, ◌∙◌, arith, Bool, true, false, some,
  [], ◌∷◌, Text, length, if◌then◌else◌, Error, Result, ok, err, Option, ◌<◌,
}
use hyper_link.Base.Program.{Program, ◌>>=◌, ◌>>◌, >>=-ok, >>=-err, throw}
use hyper_link.FileTransfer.{file, file_part, chunk_bytes}
use hyper_link.FileTransfer.Wire.{make_header}
use hyper_link.FileTransfer.Send.{
  open_range, send_range, input_not_open, input_seek_failed, Inputs, send_all, read_piece,
  send_loop, on_world, count, require, input_ended,
}

-- From a state with the first property the program returns: by a result in a state with the second, or
-- by an exception in a state with the third.
abbrev pub After : {S A : Type 0} → (S → Type 0) → (S → Type 0) → Result A → S → Type 0
After K D (ok a) s = K s
After K D (err error) s = D s

abbrev pub Leads :
    {S A : Type 0} → (S → Type 0) → (S → Type 0) → (S → Type 0) → Program S A → Type 0
Leads {S = S} {A = A} I K D m =
    (s : S) → I s → (r : Result A) × (s' : S) × (m s ≡ some (r, s')) × After K D r s'

module _ {S : Type 0} (I K L D : S → Type 0) where
  bind-After :
      {A B : Type 0} (m : Program S A) (k : A → Program S B) (s s' : S) (r : Result A)
      → m s ≡ some (r, s')
      → After K D r s'
      → ((a : A) → Leads K L D (k a))
      → (q : Result B) × (t : S) × ((m >>= k) s ≡ some (q, t)) × After L D q t
  bind-After m k s s' (err error) e h f = (err error, s', >>=-err m k s e, h)
  bind-After m k s s' (ok a) e h f = let (q, t, g, h') = f a s' h in (q, t, >>=-ok m k s e ∙ g, h')

  pub bind-Leads :
      {A B : Type 0} (m : Program S A) (k : A → Program S B)
      → Leads I K D m
      → ((a : A) → Leads K L D (k a))
      → Leads I L D (m >>= k)
  bind-Leads m k h f s i = let (r, s', e, h') = h s i in bind-After m k s s' r e h' f

  pub then-Leads :
      {B : Type 0} (m : Program S (Unit {0})) (k : Program S B)
      → Leads I K D m
      → Leads K L D k
      → Leads I L D (m >> k)
  then-Leads m k h f = bind-Leads m (λ _. k) h (λ _. f)

-- The same property before and behind a result, and the worlds of a thread.
module _ {W : Type 0} (K D : W → Type 0) (failing : (w : W) → K w → D w) where
  abbrev pub In : (W → Type 0) → W × ℕ → Type 0
  In P s = P s.0

  abbrev pub Stays : {A : Type 0} → Program (W × ℕ) A → Type 0
  Stays m = Leads (In K) (In K) (In D) m

  abbrev Ends : Option (Result (Unit {0}) × (W × ℕ)) → Type 0
  Ends outcome =
      (r : Result (Unit {0})) × (s' : W × ℕ) × (outcome ≡ some (r, s')) × After (In K) (In D) r s'

  checked :
      (error : Error) (done : Bool) (w : W) (b : ℕ)
      → K w
      → Ends (some ((if done then ok tt else err error), (w, b)))
  checked error true w b k = (ok tt, (w, b), refl, k)
  checked error false w b k = (err error, (w, b), refl, failing w k)

  require-Stays :
      (error : Error) (operation : W → Bool × W)
      → ((w : W) → K w → K (operation w).1)
      → Stays (require error operation)
  require-Stays error operation h (w, b) k = checked error (operation w).0 (operation w).1 b (h w k)

  count-Stays : (n : ℕ) → Stays (count n)
  unfolding count
  count-Stays n (w, b) k = (ok tt, (w, _), refl, k)

  module _ (inputs : Inputs W) (send : Text → Program W ℕ)
      (opens : (path : Text) (w : W) → K w → K (inputs.open_input path w).1)
      (seeks : (path : Text) (n : ℕ) (w : W) → K w → K (inputs.seek path n w).1)
      (reads : (path : Text) (p n : ℕ) (w : W) → K w → K (inputs.read path p n w).1)
      (sends : (payload : Text) → Leads K K D (send payload)) where
    pub on_world-Stays : {A : Type 0} (m : Program W A) → Leads K K D m → Stays (on_world m)
    on_world-Stays m h (w, b) k =
        let (r, w', e, a) = h w k in (r, (w', b), rw (e, on_world) refl, after r w' a)
      where
        after :
            {A : Type 0} (r : Result A) (w' : W) → After K D r w' → After (In K) (In D) r (w', b)
        after (ok a) w' h = h
        after (err error) w' h = h

    send_all-Stays : (payload : Text) → Stays (send_all inputs send payload)
    unfolding send_all
    send_all-Stays payload =
        bind-Leads (In K) (In K) (In K) (In D) (on_world (send payload)) _
          (on_world-Stays (send payload) (sends payload)) (λ sent s k. (ok tt, s, refl, k))

    read_piece-Stays : (path : Text) (p n : ℕ) → Stays (read_piece inputs send path p n)
    unfolding read_piece
    read_piece-Stays path p n (w, b) k =
        (ok (inputs.read path p n w).0, ((inputs.read path p n w).1, b), refl, reads path p n w k)

    piece-Stays :
        (piece : Text) (next : Program (W × ℕ) (Unit {0}))
        → (0 < length piece → Stays next)
        → Stays (
            if is_empty piece
            then throw input_ended
            else send_all inputs send piece >> count (length piece) >> next)
    piece-Stays [] next h = λ (w, b) k. (err input_ended, (w, b), refl, failing w k)
    piece-Stays (c ∷ rest) next h =
        let n = length (c ∷ rest) in
        then-Leads (In K) (In K) (In K) (In D) (send_all inputs send (c ∷ rest) >> count n) next
          (then-Leads (In K) (In K) (In K) (In D) (send_all inputs send (c ∷ rest)) (count n)
            (send_all-Stays (c ∷ rest)) (count-Stays n))
          (h (omega arith))

    pub send_loop-Stays :
        (fuel : ℕ) (path : Text) (position want : ℕ)
        → want ≤ fuel
        → Stays (send_loop inputs send fuel path position want)
    unfolding send_loop
    send_loop-Stays fuel path position zero h = λ s k. (ok tt, s, refl, k)
    send_loop-Stays zero path position (suc want) h = absurd (omega arith)
    send_loop-Stays (suc fuel) path position (suc want) h =
        bind-Leads (In K) (In K) (In K) (In D)
          (read_piece inputs send path position (min (suc want) chunk_bytes)) _
          (read_piece-Stays path position (min (suc want) chunk_bytes))
          (λ piece.
            piece-Stays piece
              (send_loop inputs send fuel path (position + length piece) (suc want - length piece))
              (λ some_bytes.
                send_loop-Stays fuel path (position + length piece) (suc want - length piece)
                  (omega (arith, h, some_bytes))))

    pub open_range-Stays : (path : Text) (offset : ℕ) → Stays (open_range inputs send path offset)
    unfolding open_range
    open_range-Stays path offset =
        then-Leads (In K) (In K) (In K) (In D)
          (require (input_not_open path) (inputs.open_input path)) _
          (require-Stays (input_not_open path) (inputs.open_input path) (opens path))
          (require-Stays input_seek_failed (inputs.seek path offset) (seeks path offset))

    pub send_range-Stays :
        (parallel : ℕ) (path name : Text) (total offset size : ℕ)
        → Stays (send_range inputs send parallel path name total offset size)
    unfolding send_range
    send_range-Stays parallel path name total offset size =
        then-Leads (In K) (In K) (In K) (In D)
          (send_all inputs send (
              make_header (if ltb 1 parallel then file_part else file) size (length name) offset
                total)
            >> send_all inputs send name)
          _
          (then-Leads (In K) (In K) (In K) (In D)
            (send_all inputs send (
              make_header (if ltb 1 parallel then file_part else file) size (length name) offset
                total))
            (send_all inputs send name) (send_all-Stays _) (send_all-Stays name))
          (send_loop-Stays size path offset size (omega arith))
