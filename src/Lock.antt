-- ===== src/Lock.antt =====
-- adt/lockmap.go: the map of held locks and what is resolved by it. The ADT client is a parameter:
-- its answers are functions of the requests sent before.
pub mod Resolve
use adtler.Prelude.{
  ℕ, Bool, true, false, not, ◌&&◌, List, [], ◌∷◌, ◌++◌, Option, none, some, ◌==◌, if◌then◌else◌,
  Text, text_eq,
}

pub record LockState : Type 0 where
  pub lock_handle : Text
  pub etag : Text

pub data Request : Type 0 where
  lock_request source_request etag_request : Text → Request

-- An *ADTError with its status, or another error.
pub data ClientError : Type 0 where
  adt_error : ℕ → ClientError
  other_error : ClientError

pub data Answer : Type 0 where
  answered : Text → Answer
  failed : ClientError → Answer

-- `fetch_etag` is none where the reader has no method FetchETag. An answer is the handle or the ETag.
pub record Client : Type 0 where
  pub lock_object : List Request → Text → Answer
  pub get_source : List Request → Text → Answer
  pub fetch_etag : Option (List Request → Text → Answer)

-- A LockMap, with the requests sent so far.
pub record LockMap : Type 0 where
  pub locks : Text → Option LockState
  pub sent : List Request

pub data Resolved : Type 0 where
  ok : Text → LockMap → Resolved
  err : ClientError → LockMap → Resolved

unfoldable pub map_after : Resolved → LockMap
map_after (ok t m) = m
map_after (err e m) = m

unfoldable pub put_entry :
    (Text → Option LockState) → Text → Option LockState → Text → Option LockState
unfolding text_eq
put_entry locks key entry k = if text_eq k key then entry else locks k

unfoldable pub set_lock : Text → Text → Text → LockMap → LockMap
unfolding put_entry
set_lock key handle tag m = record m {
  locks = put_entry m.locks key (some (record { lock_handle = handle; etag = tag }));
}

unfoldable pub get_lock : Text → LockMap → Option LockState
get_lock key m = m.locks key

unfoldable pub update_etag : Text → Text → LockMap → LockMap
unfolding put_entry
update_etag key tag m = elim (m.locks key) [
  | none ↦ m
  | some l ↦ record m {
    locks = put_entry m.locks key (some (record { lock_handle = l.lock_handle; etag = tag }));
  }
]

unfoldable pub delete_lock : Text → LockMap → LockMap
unfolding put_entry
delete_lock key m = record m { locks = put_entry m.locks key none }

unfoldable pub lock_key : Text → Text → Text
lock_key system uri = system ++ (b':' ∷ uri)

unfoldable pub is_unauthorized : ClientError → Bool
is_unauthorized (adt_error status) = status == 401
is_unauthorized other_error = false

unfoldable pub send : Request → LockMap → LockMap
send r m = record m { sent = m.sent ++ (r ∷ []) }

-- The entry's handle, empty where there is no entry.
unfoldable pub cached_handle : Text → LockMap → Text
unfolding get_lock
cached_handle key m = elim (get_lock key m) [ none ↦ [] | some l ↦ l.lock_handle ]

unfoldable pub cached_etag : Text → LockMap → Text
unfolding get_lock
cached_etag key m = elim (get_lock key m) [ none ↦ [] | some l ↦ l.etag ]

unfoldable pub auto_lock : Client → Text → Text → LockMap → Resolved
unfolding send set_lock
auto_lock client key uri m = elim (client.lock_object m.sent uri) [
  | failed e ↦ err e (send (lock_request uri) m)
  | answered handle ↦ ok handle (set_lock key handle [] (send (lock_request uri) m))
]

unfoldable pub resolve_lock : Client → Text → Text → Text → LockMap → Resolved
unfolding cached_handle auto_lock text_eq
resolve_lock client key uri explicit_handle m =
    if not (text_eq explicit_handle [])
    then ok explicit_handle m
    else if not (text_eq (cached_handle key m) [])
    then ok (cached_handle key m) m
    else auto_lock client key uri m

-- What follows a GetSource that has failed with `e`.
unfoldable pub etag_fallback : Client → Text → Text → ClientError → LockMap → Resolved
unfolding is_unauthorized send update_etag text_eq
etag_fallback client key uri e m = elim client.fetch_etag [
  | none ↦ err e m
  | some fetch ↦ if is_unauthorized e then err e m else elim (fetch m.sent uri) [
    | failed e' ↦ err e (send (etag_request uri) m)
    | answered tag ↦
        if text_eq tag []
        then err e (send (etag_request uri) m)
        else ok tag (update_etag key tag (send (etag_request uri) m))
  ]
]

unfoldable pub fetch_source_etag : Client → Text → Text → LockMap → Resolved
unfolding send update_etag etag_fallback
fetch_source_etag client key uri m = elim (client.get_source m.sent uri) [
  | answered tag ↦ ok tag (update_etag key tag (send (source_request uri) m))
  | failed e ↦ etag_fallback client key uri e (send (source_request uri) m)
]

unfoldable pub resolve_etag : Client → Text → Text → LockMap → Resolved
unfolding cached_etag fetch_source_etag text_eq
resolve_etag client key uri m =
    if not (text_eq (cached_etag key m) [])
    then ok (cached_etag key m) m
    else fetch_source_etag client key uri m
