-- ===== src/FileTransfer/Streams/Ranges.antt =====
-- The streams' parts of a file follow one another, without gap or overlap, and cover it.
use native.Mathlib.Numerals.{add-one}
use native.Mathlib.Decide.{dec_lt}
use mathlib.Core.Path.{ap₂}
use native.Mathlib.Nat.{mod-eq_of_lt}
use hyper_link.Base.{
  ℕ, zero, suc, ◌+◌, ◌*◌, ◌/◌, ◌%◌, ◌^◌, ◌<◌, ◌≤◌, min, ◌≡◌, sym, ap, ◌∙◌, arith, List, [], ◌++◌,
  take, drop, drop_all, drop-drop, take-append-drop, length, ltb, if◌then◌else◌,
}
use hyper_link.FileTransfer.Streams.{byte_range_for_stream}

-- Where the part of a stream begins, over the unbounded numbers.
starts : ℕ → ℕ → ℕ → ℕ
starts total stream parallel = total / parallel * stream + min stream (total % parallel)

starts-le :
    (total stream parallel : ℕ)
    → 0 < parallel
    → stream ≤ parallel
    → starts total stream parallel ≤ total
unfolding starts
starts-le total stream parallel h k = grind arith

starts_last : (total parallel : ℕ) → 0 < parallel → starts total parallel parallel ≡ total
unfolding starts
starts_last total parallel h = grind arith

starts_next :
    (total stream parallel : ℕ)
    → starts total stream parallel
        + (total / parallel + (if ltb stream (total % parallel) then 1 else 0))
      ≡ starts total (suc stream) parallel
unfolding starts
starts_next total stream parallel = ground arith

-- The code's 64-bit arithmetic does not wrap around.
range-starts :
    (total stream parallel : ℕ)
    → total < 2 ^ 64
    → stream < parallel
    → ((byte_range_for_stream total stream parallel).0 ≡ starts total stream parallel)
      × (starts total stream parallel + (byte_range_for_stream total stream parallel).1
          ≡ starts total (suc stream) parallel)
unfolding byte_range_for_stream
range-starts total stream parallel h k =
    let now = starts-le total stream parallel (omega arith) (omega arith) in
    let later = starts-le total (suc stream) parallel (omega arith) (omega arith) in
    let step = starts_next total stream parallel in
    (unfold starts in mod-eq_of_lt (omega arith), omega (arith, now, later, step))

-- What the streams from `stream` on send, `rounds` of them.
unfoldable pub parts_of : {A : Type 0} → List A → ℕ → ℕ → ℕ → List A
parts_of file parallel zero stream = []
parts_of file parallel (suc rounds) stream =
    let range = byte_range_for_stream (length file) stream parallel in
    take range.1 (drop range.0 file) ++ parts_of file parallel rounds (stream + 1)

parts_of-drop :
    {A : Type 0} (file : List A) (parallel rounds stream : ℕ)
    → length file < 2 ^ 64
    → 0 < parallel
    → stream + rounds ≡ parallel
    → parts_of file parallel rounds stream ≡ drop (starts (length file) stream parallel) file
unfolding parts_of
parts_of-drop file parallel zero stream h pos e =
    let last : stream ≡ parallel = omega arith in
    let all : starts (length file) stream parallel ≡ length file =
      rw last (starts_last _ parallel pos) in
    sym (drop_all _ file (omega (arith, all)))
parts_of-drop file parallel (suc rounds) stream h pos e =
    let (start, next) = range-starts (length file) stream parallel h (omega arith) in
    let size = (byte_range_for_stream (length file) stream parallel).1 in
    let later = parts_of-drop file parallel rounds (stream + 1) h pos (omega arith) in
    let joins : drop (starts (length file) (stream + 1) parallel) file
        ≡ drop size (drop (starts (length file) stream parallel) file) =
      (rw add-one (ap (λ n. drop n file) (sym next))) ∙ sym (drop-drop _ size file) in
    ap₂ ◌++◌ (ap (λ n. take size (drop n file)) start) (later ∙ joins) ∙ take-append-drop size _

starts_first : (total parallel : ℕ) → starts total 0 parallel ≡ 0
unfolding starts
starts_first total parallel = grind arith

starts_balanced :
    (total stream parallel : ℕ)
    → (starts total stream parallel + total / parallel ≤ starts total (suc stream) parallel)
      × (starts total (suc stream) parallel ≤ starts total stream parallel + (total / parallel + 1))
unfolding starts
starts_balanced total stream parallel = omega arith

-- For a file of fewer than 2 ^ 64 bytes and at least one stream, the parts that the streams 0, 1, …
-- send, one after another, are the whole file.
pub byte_ranges_cover :
    {A : Type 0} (file : List A) (parallel : ℕ)
    → length file < 2 ^ 64
    → 0 < parallel
    → parts_of file parallel parallel 0 ≡ file
byte_ranges_cover file parallel h pos =
    parts_of-drop file parallel parallel 0 h pos (omega arith)
    ∙ ap (λ n. drop n file) (starts_first (length file) parallel)

-- For every stream but the last: its range lies within a file of fewer than 2 ^ 64 bytes, the range of the stream behind it begins
-- where it ends, and its size is the file's size divided by the number of streams, rounded down or up.
pub byte_range_balanced :
    (total stream parallel : ℕ)
    → total < 2 ^ 64
    → suc stream < parallel
    → let range = byte_range_for_stream total stream parallel in
      (range.0 + range.1 ≤ total)
      × ((byte_range_for_stream total (suc stream) parallel).0 ≡ range.0 + range.1)
      × (total / parallel ≤ range.1)
      × (range.1 ≤ total / parallel + 1)
byte_range_balanced total stream parallel h k =
    let (now, next) = range-starts total stream parallel h (omega arith) in
    let (later, _) = range-starts total (suc stream) parallel h k in
    let inside = starts-le total (suc stream) parallel (omega arith) (omega arith) in
    let balanced = starts_balanced total stream parallel in
    (omega arith, omega arith, omega arith, omega arith)

-- The range of a stream lies in the file.
pub byte_range-within :
    (total stream parallel : ℕ)
    → total < 2 ^ 64
    → stream < parallel
    → let range = byte_range_for_stream total stream parallel in range.0 + range.1 ≤ total
byte_range-within total stream parallel h k =
    let (now, next) = range-starts total stream parallel h k in
    omega (arith, now, next, starts-le total (suc stream) parallel (omega arith) (omega arith))

owner_below :
    (total parallel k below : ℕ)
    → total < 2 ^ 64
    → below ≤ parallel
    → k < starts total below parallel
    → (i : ℕ) × (i < parallel)
      × ((byte_range_for_stream total i parallel).0 ≤ k)
      × (k
          < (byte_range_for_stream total i parallel).0 + (byte_range_for_stream total i parallel).1)
owner_below total parallel k zero h l u = absurd (omega (arith, starts_first total parallel, u))
owner_below total parallel k (suc below) h l u = elim (dec_lt k (starts total below parallel)) [
  | yes earlier ↦ owner_below total parallel k below h (omega arith) earlier
  | no here ↦
      let (now, next) = range-starts total below parallel h (omega arith) in
      (below, omega arith, omega (arith, now, here), omega (arith, now, next, u))
]

-- Every position of the file lies in the range of a stream.
pub byte_range-owner :
    (total parallel k : ℕ)
    → total < 2 ^ 64
    → 0 < parallel
    → k < total
    → (i : ℕ) × (i < parallel)
      × ((byte_range_for_stream total i parallel).0 ≤ k)
      × (k
          < (byte_range_for_stream total i parallel).0 + (byte_range_for_stream total i parallel).1)
byte_range-owner total parallel k h pos u =
    owner_below total parallel k parallel h (omega arith)
      (omega (arith, u, starts_last total parallel pos))
