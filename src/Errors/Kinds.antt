-- ===== src/Errors/Kinds.antt =====
-- The names of the kinds, and which errors are of the kind of a lock in a transport.
use adtler.Prelude.{
  ℕ, ◌≡◌, ◌≢◌, ◌↔◌, refl, ap, sym, ◌∙◌, true, [], ◌∷◌, some, Text, codes, text_eq, text_eq_iff,
  arith, ◌⊎◌, inl, inr, Option-cases, Bool-cases,
}
use adtler.Errors.{
  ErrorKind, unknown, already_exists, locked, lock_conflict, invalid_lock_handle, etag_mismatch,
  not_acceptable, unsupported_media, unprocessable, method_not_allowed, creation_failed, not_found,
  forbidden, bad_request, server_error, object_locked_in_transport, not_supported, unauthorized,
  kind_name, AdtError, lookup_type, lookup_status, classify_by_exception_type,
  classify_by_status_code, is_unknown, locking_transport, refine_lock_conflict, classify_error,
}

-- Reading a name back.
unfoldable kind_of_name : Text → ErrorKind
unfolding lookup_type
kind_of_name = lookup_type (
    (codes "already_exists", already_exists)
    ∷ (codes "locked", locked)
    ∷ (codes "lock_conflict", lock_conflict)
    ∷ (codes "invalid_lock_handle", invalid_lock_handle)
    ∷ (codes "etag_mismatch", etag_mismatch)
    ∷ (codes "not_acceptable", not_acceptable)
    ∷ (codes "unsupported_media", unsupported_media)
    ∷ (codes "unprocessable", unprocessable)
    ∷ (codes "method_not_allowed", method_not_allowed)
    ∷ (codes "creation_failed", creation_failed)
    ∷ (codes "not_found", not_found)
    ∷ (codes "forbidden", forbidden)
    ∷ (codes "bad_request", bad_request)
    ∷ (codes "server_error", server_error)
    ∷ (codes "object_locked_in_transport", object_locked_in_transport)
    ∷ (codes "not_supported", not_supported)
    ∷ (codes "unauthorized", unauthorized)
    ∷ [])

kind_of_name-kind_name : (k : ErrorKind) → kind_of_name (kind_name k) ≡ k
unfolding kind_of_name kind_name text_eq
kind_of_name-kind_name unknown = refl
kind_of_name-kind_name already_exists = refl
kind_of_name-kind_name locked = refl
kind_of_name-kind_name lock_conflict = refl
kind_of_name-kind_name invalid_lock_handle = refl
kind_of_name-kind_name etag_mismatch = refl
kind_of_name-kind_name not_acceptable = refl
kind_of_name-kind_name unsupported_media = refl
kind_of_name-kind_name unprocessable = refl
kind_of_name-kind_name method_not_allowed = refl
kind_of_name-kind_name creation_failed = refl
kind_of_name-kind_name not_found = refl
kind_of_name-kind_name forbidden = refl
kind_of_name-kind_name bad_request = refl
kind_of_name-kind_name server_error = refl
kind_of_name-kind_name object_locked_in_transport = refl
kind_of_name-kind_name not_supported = refl
kind_of_name-kind_name unauthorized = refl

-- Two kinds with the same name are the same kind.
pub kind_name_injective : (k k' : ErrorKind) → kind_name k ≡ kind_name k' → k ≡ k'
kind_name_injective k k' h =
    sym (kind_of_name-kind_name k) ∙ (ap kind_of_name h ∙ kind_of_name-kind_name k')

abbrev conflict_type : Text
conflict_type = codes "ExceptionResourceLockConflict"

type_conflict : (t : Text) → classify_by_exception_type t ≡ lock_conflict → t ≡ conflict_type
unfolding classify_by_exception_type lookup_type
type_conflict t h = ground (arith, text_eq_iff t conflict_type)

type_conflict_kind : classify_by_exception_type conflict_type ≡ lock_conflict
unfolding classify_by_exception_type lookup_type text_eq
type_conflict_kind = refl

status_conflict : (n : ℕ) → classify_by_status_code n ≡ lock_conflict → n ≡ 409
unfolding classify_by_status_code lookup_status
status_conflict n h = ground arith

not_in_transport : (t : Text) → classify_by_exception_type t ≢ object_locked_in_transport
unfolding classify_by_exception_type lookup_type
not_in_transport t h = ground arith

status_not_in_transport : (n : ℕ) → classify_by_status_code n ≢ object_locked_in_transport
unfolding classify_by_status_code lookup_status
status_not_in_transport n h = ground arith

-- A kind that is refined to the lock in a transport is a lock conflict whose message names a request.
refined :
    (e : AdtError) (k : ErrorKind)
    → k ≢ object_locked_in_transport
    → refine_lock_conflict e k ≡ object_locked_in_transport
    → (k ≡ lock_conflict) × ((t : Text) × (locking_transport e ≡ some t))
unfolding refine_lock_conflict
refined e lock_conflict other h = elim (Option-cases (locking_transport e)) [
  | inl f ↦ absurd (ground arith)
  | inr (t, f) ↦ (refl, (t, f))
]
refined e object_locked_in_transport other h = absurd (other refl)
refined e unknown other h = absurd (cc h)
refined e already_exists other h = absurd (cc h)
refined e locked other h = absurd (cc h)
refined e invalid_lock_handle other h = absurd (cc h)
refined e etag_mismatch other h = absurd (cc h)
refined e not_acceptable other h = absurd (cc h)
refined e unsupported_media other h = absurd (cc h)
refined e unprocessable other h = absurd (cc h)
refined e method_not_allowed other h = absurd (cc h)
refined e creation_failed other h = absurd (cc h)
refined e not_found other h = absurd (cc h)
refined e forbidden other h = absurd (cc h)
refined e bad_request other h = absurd (cc h)
refined e server_error other h = absurd (cc h)
refined e not_supported other h = absurd (cc h)
refined e unauthorized other h = absurd (cc h)

known : (k : ErrorKind) → is_unknown k ≡ true → k ≡ unknown
unfolding is_unknown
known unknown h = refl
known already_exists h = absurd (cc h)
known locked h = absurd (cc h)
known lock_conflict h = absurd (cc h)
known invalid_lock_handle h = absurd (cc h)
known etag_mismatch h = absurd (cc h)
known not_acceptable h = absurd (cc h)
known unsupported_media h = absurd (cc h)
known unprocessable h = absurd (cc h)
known method_not_allowed h = absurd (cc h)
known creation_failed h = absurd (cc h)
known not_found h = absurd (cc h)
known forbidden h = absurd (cc h)
known bad_request h = absurd (cc h)
known server_error h = absurd (cc h)
known object_locked_in_transport h = absurd (cc h)
known not_supported h = absurd (cc h)
known unauthorized h = absurd (cc h)

-- The type of a lock conflict, or no known type and the status 409.
abbrev pub Conflict : AdtError → Type 0
Conflict e =
    (e.exception_type ≡ conflict_type)
    ⊎ ((classify_by_exception_type e.exception_type ≡ unknown) × (e.status_code ≡ 409))

-- ClassifyError says that an object is locked in a transport only for an error whose type is that of
-- a lock conflict, or whose type is not known and whose status is 409, and whose message names a
-- request.
in_transport-Conflict :
    (e : AdtError)
    → classify_error (some e) ≡ object_locked_in_transport
    → Conflict e × ((t : Text) × (locking_transport e ≡ some t))
unfolding classify_error
in_transport-Conflict e h =
    let kind = classify_by_exception_type e.exception_type in
    elim (Bool-cases (is_unknown kind)) [
      | inl f ↦
          let by_status : refine_lock_conflict e (classify_by_status_code e.status_code)
              ≡ object_locked_in_transport =
            ground arith in
          let both =
            refined e (classify_by_status_code e.status_code)
              (status_not_in_transport e.status_code) by_status in
          (inr (known kind f, status_conflict e.status_code both.0), both.1)
      | inr f ↦
          let by_type : refine_lock_conflict e kind ≡ object_locked_in_transport = ground arith in
          let both = refined e kind (not_in_transport e.exception_type) by_type in
          (inl (type_conflict e.exception_type both.0), both.1)
    ]

refine_conflict :
    (e : AdtError) (t : Text)
    → locking_transport e ≡ some t
    → refine_lock_conflict e lock_conflict ≡ object_locked_in_transport
unfolding refine_lock_conflict
refine_conflict e t named = ground arith

Conflict-in_transport :
    (e : AdtError) (t : Text)
    → Conflict e
    → locking_transport e ≡ some t
    → classify_error (some e) ≡ object_locked_in_transport
unfolding classify_error is_unknown classify_by_status_code lookup_status
Conflict-in_transport e t (inl same) named =
    let by_type : classify_by_exception_type e.exception_type ≡ lock_conflict =
      rw same type_conflict_kind in
    rw by_type (refine_conflict e t named)
Conflict-in_transport e t (inr (kind, status)) named = rw (kind, status) (refine_conflict e t named)

-- ClassifyError says that an object is locked in a transport for exactly the errors whose message
-- names a request and whose type is that of a lock conflict, or is not known while the status is 409.
pub classify_error-Conflict :
    (e : AdtError)
    → (classify_error (some e) ≡ object_locked_in_transport)
      ↔ (Conflict e × ((t : Text) × (locking_transport e ≡ some t)))
classify_error-Conflict e =
    (in_transport-Conflict e, λ h. Conflict-in_transport e (h.1).0 h.0 (h.1).1)
