-- ===== src/Errors.antt =====
-- adt/errorkind.go, and LockingTransport of adt/types.go: the kinds that errors are classified into.
pub mod Kinds
pub mod Missing
pub mod Requests
use adtler.Prelude.{
  ℕ, zero, suc, Bool, true, false, not, ◌&&◌, ◌||◌, List, [], ◌∷◌, Option, none, some, leb, ◌==◌,
  if◌then◌else◌, take, last?, Text, codes, text_eq,
}

pub data ErrorKind : Type 0 where
  unknown already_exists locked lock_conflict invalid_lock_handle etag_mismatch : ErrorKind
  not_acceptable unsupported_media unprocessable method_not_allowed creation_failed not_found :
      ErrorKind
  forbidden bad_request server_error object_locked_in_transport not_supported unauthorized :
      ErrorKind

-- ErrorKind.String
unfoldable pub kind_name : ErrorKind → Text
kind_name unknown = codes "unknown"
kind_name already_exists = codes "already_exists"
kind_name locked = codes "locked"
kind_name lock_conflict = codes "lock_conflict"
kind_name invalid_lock_handle = codes "invalid_lock_handle"
kind_name etag_mismatch = codes "etag_mismatch"
kind_name not_acceptable = codes "not_acceptable"
kind_name unsupported_media = codes "unsupported_media"
kind_name unprocessable = codes "unprocessable"
kind_name method_not_allowed = codes "method_not_allowed"
kind_name creation_failed = codes "creation_failed"
kind_name not_found = codes "not_found"
kind_name forbidden = codes "forbidden"
kind_name bad_request = codes "bad_request"
kind_name server_error = codes "server_error"
kind_name object_locked_in_transport = codes "object_locked_in_transport"
kind_name not_supported = codes "not_supported"
kind_name unauthorized = codes "unauthorized"

-- The fields of ADTError that the classification reads.
pub record AdtError : Type 0 where
  pub status_code : ℕ
  pub exception_type : Text
  pub message : Text

-- The cases of a switch over texts or numbers, tried in order.
unfoldable pub lookup_type : List (Text × ErrorKind) → Text → ErrorKind
unfolding text_eq
lookup_type [] t = unknown
lookup_type ((name, kind) ∷ cases) t =
    let rest = lookup_type cases t in if text_eq t name then kind else rest

unfoldable pub lookup_status : List (ℕ × ErrorKind) → ℕ → ErrorKind
lookup_status [] status = unknown
lookup_status ((n, kind) ∷ cases) status =
    let rest = lookup_status cases status in if status == n then kind else rest

unfoldable pub classify_by_exception_type : Text → ErrorKind
unfolding lookup_type
classify_by_exception_type = lookup_type (
    (codes "ExceptionResourceAlreadyExists", already_exists)
    ∷ (codes "ExceptionResourceLocked", locked)
    ∷ (codes "ExceptionResourceLockConflict", lock_conflict)
    ∷ (codes "ExceptionResourceInvalidLockHandle", invalid_lock_handle)
    ∷ (codes "ExceptionResourceInvalidEtag", etag_mismatch)
    ∷ (codes "ExceptionPreconditionFailed", etag_mismatch)
    ∷ (codes "ExceptionResourceNotAcceptable", not_acceptable)
    ∷ (codes "ExceptionUnsupportedMediaType", unsupported_media)
    ∷ (codes "ExceptionUnprocessableEntity", unprocessable)
    ∷ (codes "ExceptionResourceWrongData", unprocessable)
    ∷ (codes "ExceptionNotAllowed", method_not_allowed)
    ∷ (codes "ExceptionResourceCreationFailure", creation_failed)
    ∷ (codes "ADT_TM_REMOVEOBJECT_UNSUPPORTED", not_supported)
    ∷ (codes "ADT_TM_ADDOBJECTS_UNSUPPORTED", not_supported)
    ∷ (codes "ADT_TM_ADDOBJECT_UNSUPPORTED", not_supported)
    ∷ (codes "ADT_TM_CREATEREQUEST_UNSUPPORTED", not_supported)
    ∷ [])

unfoldable pub classify_by_status_code : ℕ → ErrorKind
unfolding lookup_status
classify_by_status_code = lookup_status (
    (423, locked)
    ∷ (412, etag_mismatch)
    ∷ (409, lock_conflict)
    ∷ (406, not_acceptable)
    ∷ (415, unsupported_media)
    ∷ (422, unprocessable)
    ∷ (405, method_not_allowed)
    ∷ (404, not_found)
    ∷ (403, forbidden)
    ∷ (401, unauthorized)
    ∷ (400, bad_request)
    ∷ (500, server_error)
    ∷ [])

unfoldable pub is_upper : ℕ → Bool
is_upper c = leb b'A' c && leb c b'Z'

unfoldable pub is_digit : ℕ → Bool
is_digit c = leb b'0' c && leb c b'9'

-- a word character of Go's \b
unfoldable pub is_word : ℕ → Bool
unfolding is_upper is_digit
is_word c = is_upper c || is_digit c || (leb b'a' c && leb c b'z') || c == b'_'

unfoldable pub starts_with_word : Text → Bool
unfolding is_word
starts_with_word [] = false
starts_with_word (c ∷ s) = is_word c

-- `n` digits and then the end of a word: the end of ctsRequestRe
unfoldable pub digits_end : ℕ → Text → Bool
unfolding is_digit starts_with_word
digits_end zero s = not (starts_with_word s)
digits_end (suc n) [] = false
digits_end (suc n) (c ∷ s) = is_digit c && digits_end n s

-- ctsRequestRe behind its first \b
unfoldable pub request_at : Text → Bool
unfolding is_upper is_digit digits_end
request_at (a ∷ b ∷ c ∷ k ∷ s) =
    is_upper a
    && (is_upper b || is_digit b)
    && (is_upper c || is_digit c)
    && k == b'K'
    && digits_end 6 s
request_at [] = false
request_at (a ∷ []) = false
request_at (a ∷ b ∷ []) = false
request_at (a ∷ b ∷ c ∷ []) = false

-- ctsRequestRe.FindAllString, behind a word character or not. A match is a whole word, so no other
-- one begins within it.
unfoldable pub find_requests : Bool → Text → List Text
unfolding request_at is_word
find_requests within [] = []
find_requests within (c ∷ s) =
    let rest = find_requests (is_word c) s in
    if not within && request_at (c ∷ s) then take 10 (c ∷ s) ∷ rest else rest

-- LockingTransport
unfoldable pub locking_transport : AdtError → Option Text
unfolding find_requests last?
locking_transport e = last? (find_requests false e.message)

unfoldable pub refine_lock_conflict : AdtError → ErrorKind → ErrorKind
unfolding locking_transport
refine_lock_conflict e lock_conflict = elim (locking_transport e) [
  | some t ↦ object_locked_in_transport
  | none ↦ lock_conflict
]
refine_lock_conflict e unknown = unknown
refine_lock_conflict e already_exists = already_exists
refine_lock_conflict e locked = locked
refine_lock_conflict e invalid_lock_handle = invalid_lock_handle
refine_lock_conflict e etag_mismatch = etag_mismatch
refine_lock_conflict e not_acceptable = not_acceptable
refine_lock_conflict e unsupported_media = unsupported_media
refine_lock_conflict e unprocessable = unprocessable
refine_lock_conflict e method_not_allowed = method_not_allowed
refine_lock_conflict e creation_failed = creation_failed
refine_lock_conflict e not_found = not_found
refine_lock_conflict e forbidden = forbidden
refine_lock_conflict e bad_request = bad_request
refine_lock_conflict e server_error = server_error
refine_lock_conflict e object_locked_in_transport = object_locked_in_transport
refine_lock_conflict e not_supported = not_supported
refine_lock_conflict e unauthorized = unauthorized

unfoldable pub is_unknown : ErrorKind → Bool
is_unknown unknown = true
is_unknown already_exists = false
is_unknown locked = false
is_unknown lock_conflict = false
is_unknown invalid_lock_handle = false
is_unknown etag_mismatch = false
is_unknown not_acceptable = false
is_unknown unsupported_media = false
is_unknown unprocessable = false
is_unknown method_not_allowed = false
is_unknown creation_failed = false
is_unknown not_found = false
is_unknown forbidden = false
is_unknown bad_request = false
is_unknown server_error = false
is_unknown object_locked_in_transport = false
is_unknown not_supported = false
is_unknown unauthorized = false

-- `none` stands for nil and for an error that is no *ADTError.
unfoldable pub classify_error : Option AdtError → ErrorKind
unfolding classify_by_exception_type classify_by_status_code refine_lock_conflict is_unknown
classify_error none = unknown
classify_error (some e) =
    let kind = classify_by_exception_type e.exception_type in
    if is_unknown kind
    then refine_lock_conflict e (classify_by_status_code e.status_code)
    else refine_lock_conflict e kind
