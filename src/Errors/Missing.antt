-- ===== src/Errors/Missing.antt =====
-- Which errors are of the kind of a missing object.
use adtler.Prelude.{ℕ, ◌≡◌, ◌≢◌, refl, some, Text, arith, inl, inr, Bool-cases, Option-cases}
use adtler.Errors.{
  ErrorKind, lock_conflict, not_found, AdtError, lookup_type, lookup_status,
  classify_by_exception_type, classify_by_status_code, is_unknown, locking_transport,
  refine_lock_conflict, classify_error,
}

type_not_missing : (t : Text) → classify_by_exception_type t ≢ not_found
unfolding classify_by_exception_type lookup_type
type_not_missing t h = ground arith

status_missing : (n : ℕ) → classify_by_status_code n ≡ not_found → n ≡ 404
unfolding classify_by_status_code lookup_status
status_missing n h = ground arith

refined_missing :
    (e : AdtError) (k : ErrorKind) → refine_lock_conflict e k ≡ not_found → k ≡ not_found
unfolding refine_lock_conflict
refined_missing e lock_conflict h = elim (Option-cases (locking_transport e)) [
  | inl x ↦ absurd (ground arith)
  | inr (t, x) ↦ absurd (ground arith)
]
refined_missing e not_found h = refl
refined_missing e _ h = ground arith

-- Only an answer with status 404 is of this kind.
pub classify_error-not_found :
    (e : AdtError) → classify_error (some e) ≡ not_found → e.status_code ≡ 404
unfolding classify_error
classify_error-not_found e h =
    elim (Bool-cases (is_unknown (classify_by_exception_type e.exception_type))) [
      | inl u ↦ status_missing e.status_code (refined_missing e _ (rw u at h))
      | inr u ↦ absurd (type_not_missing e.exception_type (refined_missing e _ (rw u at h)))
    ]
