-- ===== src/FileTransfer/Streams/Results.antt =====
-- How the results of the streams are put together.
use hyper_link.Base.{
  ℕ, ◌+◌, ◌%◌, ◌^◌, ◌<◌, ◌≡◌, refl, ◌↔◌, inl, inr, arith, Option-cases, none, some, List, [], ◌∷◌,
  ◌++◌, All, Error, ok, err,
}
use hyper_link.FileTransfer.Streams.{StreamResult, rethrow_first_error, add_bytes, total_bytes}

abbrev pub Succeeded : StreamResult → Type 0
Succeeded result = result.error ≡ none

-- The bytes of all streams, over the unbounded numbers.
abbrev pub sum_bytes : List StreamResult → ℕ
sum_bytes [] = 0
sum_bytes (result ∷ results) = result.bytes + sum_bytes results

add_bytes-sum_bytes :
    (bytes : ℕ) (results : List StreamResult)
    → bytes < 2 ^ 64
    → add_bytes bytes results ≡ (bytes + sum_bytes results) % 2 ^ 64
unfolding add_bytes
add_bytes-sum_bytes bytes [] h = omega arith
add_bytes-sum_bytes bytes (result ∷ results) h =
    omega (arith, add_bytes-sum_bytes ((bytes + result.bytes) % 2 ^ 64) results (omega arith))

rethrow_iff :
    (results : List StreamResult) → (rethrow_first_error results ≡ ok tt) ↔ All Succeeded results
unfolding rethrow_first_error
rethrow_iff [] = (λ _. tt, λ _. refl)
rethrow_iff (result ∷ results) = elim (Option-cases result.error) [
  | inl e ↦
      rw (e, rethrow_first_error)
        ((λ h. (refl, (rethrow_iff results).0 h), λ h. (rethrow_iff results).1 h.1))
  | inr (x, e) ↦ (λ h. absurd (ground arith), λ h. absurd (ground arith))
]

rethrow_first :
    (done : List StreamResult) (failed : StreamResult) (rest : List StreamResult) (error : Error)
    → All Succeeded done
    → failed.error ≡ some error
    → rethrow_first_error (done ++ failed ∷ rest) ≡ err error
unfolding rethrow_first_error
rethrow_first [] failed rest error _ e = rw (e, rethrow_first_error)
rethrow_first (d ∷ done) failed rest error (h, hs) e =
    rw (h, rethrow_first_error) (rethrow_first done failed rest error hs e)

-- The run goes on exactly if every stream succeeded.
pub rethrow_first_error_iff :
    (results : List StreamResult) → (rethrow_first_error results ≡ ok tt) ↔ All Succeeded results
rethrow_first_error_iff results = rethrow_iff results

-- If a stream failed, and all before it succeeded, its error is thrown.
pub rethrow_first_error_first :
    (done : List StreamResult) (failed : StreamResult) (rest : List StreamResult) (error : Error)
    → All Succeeded done
    → failed.error ≡ some error
    → rethrow_first_error (done ++ failed ∷ rest) ≡ err error
rethrow_first_error_first done failed rest error h e = rethrow_first done failed rest error h e

-- The reported total is the sum of the streams' bytes as a 64-bit number.
pub total_bytes-sum_bytes :
    (results : List StreamResult) → total_bytes results ≡ sum_bytes results % 2 ^ 64
unfolding total_bytes
total_bytes-sum_bytes results = omega (arith, add_bytes-sum_bytes 0 results (omega arith))
