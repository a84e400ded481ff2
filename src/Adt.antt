-- ===== src/Adt.antt =====
-- The operations of adt/client.go's Client that the rollback uses, as an interface, the errors that
-- they return, and actions that call them. Each call is logged.
pub mod Stops
pub mod Handling
pub mod Yields
pub mod Gives
pub mod Keeps
pub mod Steady
use adtler.Prelude.{
  ℕ, Bool, true, false, not, ◌||◌, List, [], ◌∷◌, Option, none, some, ◌==◌, if◌then◌else◌, all,
  Text,
}
use adtler.Errors.{AdtError, ErrorKind, classify_error}

-- An error: an *ADTError, another one, or one that fmt.Errorf wraps behind a text.
pub data GoError : Type 0 where
  adt : AdtError → GoError
  plain : Text → GoError
  wrap : Text → GoError → GoError

-- errors.As for an *ADTError
unfoldable pub as_adt : GoError → Option AdtError
as_adt (adt e) = some e
as_adt (plain t) = none
as_adt (wrap t e) = as_adt e

unfoldable pub is_unauthorized : GoError → Bool
unfolding as_adt
is_unauthorized e = elim (as_adt e) [ none ↦ false | some a ↦ a.status_code == 401 ]

unfoldable pub error_kind : GoError → ErrorKind
unfolding as_adt classify_error
error_kind e = classify_error (as_adt e)

pub data Result (A : Type 0) : Type 0 where
  ok : A → Result A
  err : GoError → Result A

-- TransportObject of adt/transport.go and VersionInfo of adt/version.go, with the fields that are read.
pub record TransportObject : Type 0 where
  pub pgm_id : Text
  pub object_type : Text
  pub name : Text

pub record VersionInfo : Type 0 where
  pub transport : Text
  pub content_uri : Text
  pub include : Text

pub record ActivationResult : Type 0 where
  pub success : Bool
  pub messages : List Text

pub data Call : Type 0 where
  get_transport_objects get_transport_tasks get_version_history get_version_source : Text → Call
  get_source lock_object : Text → Call
  -- the object and the lock handle
  unlock_object : Text → Text → Call
  -- the object, the source, the lock handle, the request and the ETag
  set_source : Text → Text → Text → Text → Text → Call
  -- the object, the include, the source, the lock handle and the request
  set_include_source : Text → Text → Text → Text → Text → Call
  activate_objects : List Text → Call
  -- the object and the request
  delete_object : Text → Text → Call
  -- the statement and the row limit
  run_query : Text → ℕ → Call
  -- the request and the job; an address; the request whose status is read
  post_job : Text → Text → Call
  get_address get_transport_info : Text → Call

-- A call, and whether it was answered with 401.
pub record Event : Type 0 where
  pub call : Call
  pub rejected : Bool

-- The calls so far, the last one first.
abbrev pub Log : Type 0
Log = List Event

-- What each operation returns after the calls so far. A GetSource is its ETag, a RunQuery its rows.
pub record Backend : Type 0 where
  pub transport_objects : Log → Text → Result (List TransportObject)
  pub transport_tasks : Log → Text → Result (List Text)
  pub version_history : Log → Text → Result (List VersionInfo)
  pub version_source : Log → Text → Result Text
  pub source_etag : Log → Text → Result Text
  pub lock : Log → Text → Result Text
  pub unlock : Log → Text → Text → Result (Unit {0})
  pub write_source : Log → Text → Text → Text → Text → Text → Result (Unit {0})
  pub write_include : Log → Text → Text → Text → Text → Text → Result (Unit {0})
  pub activate : Log → List Text → Result ActivationResult
  pub delete : Log → Text → Text → Result (Unit {0})
  pub query : Log → Text → ℕ → Result (List (List Text))

abbrev pub Exec : Type 0 → Type 0
Exec A = Log → Result A × Log

module _ {A : Type 0} where
  unfoldable pub is_rejected : Result A → Bool
  unfolding is_unauthorized
  is_rejected (ok a) = false
  is_rejected (err e) = is_unauthorized e

  unfoldable pub pure : A → Exec A
  pure a log = (ok a, log)

  unfoldable pub raise : GoError → Exec A
  raise e log = (err e, log)

  unfoldable pub lift : Result A → Exec A
  lift r log = (r, log)

  unfoldable pub perform : Call → (Log → Result A) → Exec A
  unfolding is_rejected
  perform c answer log =
      (answer log, record { call = c; rejected = is_rejected (answer log) } ∷ log)

  -- fmt.Errorf("text: %w", err)
  unfoldable pub wrap_result : Text → Result A → Result A
  wrap_result t (ok a) = ok a
  wrap_result t (err e) = err (wrap t e)

  unfoldable pub wrap_error : Text → Exec A → Exec A
  unfolding wrap_result
  wrap_error t m log = (wrap_result t (m log).0, (m log).1)

  -- The error as a value, for code that goes on behind it.
  unfoldable pub attempt : Exec A → Exec (Result A)
  attempt m log = (ok (m log).0, (m log).1)

module _ {A B : Type 0} where
  unfoldable pub continue : Result A → (A → Exec B) → Exec B
  continue (ok a) f log = f a log
  continue (err e) f log = (err e, log)

  infixl 10 ◌>>=◌ ◌>>◌
  unfoldable pub ◌>>=◌ : Exec A → (A → Exec B) → Exec B
  unfolding continue
  ◌>>=◌ m f log = continue (m log).0 f (m log).1

  abbrev pub ◌>>◌ : Exec A → Exec B → Exec B
  m >> n = m >>= λ _. n
