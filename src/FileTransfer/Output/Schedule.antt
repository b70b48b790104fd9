-- ===== src/FileTransfer/Output/Schedule.antt =====
-- The threads of `run_receive` for the parts of one file, interleaved: a thread's turn is the work up to
-- the loop over the bytes, with the block under the mutex, or one round of that loop.
use hyper_link.Base.{
  ℕ, zero, suc, ◌+◌, ◌-◌, Option, none, some, List, [], ◌∷◌, Text, ◌==◌, if◌then◌else◌, Error,
  Result, ok, err,
}
use hyper_link.Base.Program.{Program, ◌>>=◌, pure, throw}
use hyper_link.FileTransfer.Receive.{IncomingHeader}
use hyper_link.FileTransfer.Output.{
  Files, ReceiveSharedState, Thread, initial_shared, begin_part, part_round, part_cut,
}

-- Where a thread stands: behind its header, before the bytes that it still wants, or at an end.
pub data Phase : Type 0 where
  waiting : IncomingHeader → Phase
  copying : Text → ℕ → ℕ → Phase
  finished : Phase
  failed : Error → Phase

pub record Worker : Type 0 where
  pub phase : Phase
  pub bytes : ℕ

-- All threads, with the state that they share.
pub record Receiver (W : Type 0) : Type 0 where
  pub world : W
  pub shared : ReceiveSharedState
  pub workers : ℕ → Worker

abbrev pub update : {A : Type 0} → (ℕ → A) → ℕ → A → ℕ → A
update f i a j = if j == i then a else f j

module _ {W : Type 0} (files : Files W) (output_dir : Text)
    (receive_into : ℕ → ℕ → Program W Text) where
  -- A turn of a thread, which reads from its own session.
  unfoldable pub turn : ℕ → Phase → Program (Thread W) Phase
  turn i (waiting incoming) = begin_part files (receive_into i) output_dir incoming >>= λ path.
      pure (copying path incoming.offset incoming.payload_size)
  turn i (copying path position zero) = pure finished
  turn i (copying path position (suc want)) =
      part_round files (receive_into i) part_cut path position (suc want) >>= λ received.
      pure (copying path (position + received) (suc want - received))
  turn i finished = pure finished
  turn i (failed error) = throw error

  -- A turn that throws ends its thread.
  abbrev pub phase_of : Result Phase → Phase
  phase_of (ok phase) = phase
  phase_of (err error) = failed error

  unfoldable pub advance : ℕ → Receiver W → Option (Receiver W)
  advance i r =
      let worker = r.workers i in
      elim (turn i worker.phase
        (record { world = r.world; shared = r.shared; bytes = worker.bytes })) [
          | none ↦ none
          | some (result, t) ↦ some (record {
            world = t.world;
            shared = t.shared;
            workers = update r.workers i (record { phase = phase_of result; bytes = t.bytes });
          })
        ]

  -- An interleaving is the list of the threads that take the turns.
  unfoldable pub run_turns : List ℕ → Receiver W → Option (Receiver W)
  run_turns [] r = some r
  run_turns (i ∷ turns) r = elim (advance i r) [ none ↦ none | some r' ↦ run_turns turns r' ]

-- The threads behind their headers, before any has claimed the output.
abbrev pub new_receiver : {W : Type 0} → (ℕ → IncomingHeader) → W → Receiver W
new_receiver incoming w = record {
  world = w;
  shared = initial_shared;
  workers = λ i. record { phase = waiting (incoming i); bytes = 0 };
}

-- How many turns a thread has in a list.
unfoldable pub turns_of : ℕ → List ℕ → ℕ
turns_of i [] = 0
turns_of i (j ∷ turns) = if j == i then suc (turns_of i turns) else turns_of i turns
