-- ===== src/Rollback/Safety/Deletes.antt =====
-- What a rollback deletes, and that a rollback calls nothing behind a 401.
use adtler.Prelude.{ℕ, ◌≡◌, ◌≢◌, ◌⊎◌, refl, some, to_upper, true, false, List, [], ◌∷◌, All, Text}
use adtler.Adt.{Backend, Call, delete_object, Event, Log, ok, TransportObject, VersionInfo}
use adtler.Adt.Stops.{Policy, Steps, is_delete, quiet, ended, Ready-start}
use adtler.Rollback.Entries.{RollbackEntry, RollbackTarget, target}
use adtler.Rollback.Targets.{first_cell, resolve_rollback_target}
use adtler.Rollback.Versions.{created_by_transport}
use adtler.Rollback.Deletion.{CreatedObject, system_of}
use adtler.Rollback.Transport.{rollback_transport}
use adtler.Rollback.Safety.Listed.{StandsIn, FromEntry}
use adtler.Rollback.Safety.Created.{EntriesRead, Found, TasksRead}
use adtler.Rollback.Safety.Origins.{origin_query}
use adtler.Rollback.Safety.Calls.{rollback-Steps}

abbrev spares_objects : Policy
spares_objects = record { allows = λ c. is_delete c ≡ false; strict = true }

rollback_transport-Steps :
    (b : Backend) (request : Text) → Steps spares_objects ended false (rollback_transport b request)
unfolding rollback_transport
rollback_transport-Steps b request =
    rollback-Steps b spares_objects (λ c h. h) request false
      (λ objects tasks st o objs d entries read made. absurd (cc d))

-- RollbackTransport deletes no object, whatever SAP answers.
pub rollback_transport-spares_objects :
    (b : Backend) (request : Text)
    → All (λ (ev : Event). is_delete ev.call ≡ false) (rollback_transport b request []).1
rollback_transport-spares_objects b request =
    ((rollback_transport-Steps b request).at [] (Ready-start spares_objects)).allowed

-- Of the operations of the client that RollbackTransport calls, ActivateObjects counting as one, none
-- is called behind one that has returned an error with status 401, other than behind the release of
-- a lock: a 401 of that need not end the rollback. What an operation sends within itself, and what it
-- passes over there, is no part of this.
pub rollback_transport-quiet :
    (b : Backend) (request : Text) → quiet (rollback_transport b request []).1 ≡ true
rollback_transport-quiet b request =
    ((rollback_transport-Steps b request).at [] (Ready-start spares_objects)).quietly refl

-- What SAP answers about the entries and the tasks of requests, about versions and about tables does
-- not change with what the rollback has sent before.
pub record Unchanging (b : Backend) : Type 0 where
  pub same_objects :
      (log : Log) (request : Text)
      → b.transport_objects log request ≡ b.transport_objects [] request
  pub same_tasks :
      (log : Log) (request : Text) → b.transport_tasks log request ≡ b.transport_tasks [] request
  pub same_history : (log : Log) (uri : Text) → b.version_history log uri ≡ b.version_history [] uri
  pub same_rows : (log : Log) (sql : Text) (rows : ℕ) → b.query log sql rows ≡ b.query [] sql rows

module _ (b : Backend) (request : Text) where
  -- The transport lists an entry that resolveRollbackTarget resolves to this target.
  pub record Entered (t : RollbackTarget) : Type 0 where
    pub objects : List TransportObject
    pub answered : b.transport_objects [] request ≡ ok objects
    pub entry : TransportObject
    pub listed : StandsIn entry objects
    pub resolved : (resolve_rollback_target b entry []).0 ≡ ok (target t)

  -- All versions of the unit of source are of the request and its tasks.
  pub record Made (uri : Text) : Type 0 where
    pub tasks : List Text
    pub listed : (tasks ≡ []) ⊎ (b.transport_tasks [] request ≡ ok tasks)
    pub versions : List VersionInfo
    pub answered : b.version_history [] uri ≡ ok versions
    pub all_carry : created_by_transport versions (request ∷ tasks) ≡ true

  -- The catalogue says that the object with this type and name is of the request's system.
  pub record Local (entry : RollbackEntry) : Type 0 where
    pub rows : List (List Text)
    pub cell : Text
    pub answered : b.query [] (origin_query entry) 1 ≡ ok rows
    pub first : first_cell rows ≡ some cell
    pub same : to_upper cell ≡ system_of request
    pub known : system_of request ≢ []

  pub record Justified (uri recorded : Text) : Type 0 where
    pub in_request : recorded ≡ request
    pub unit : RollbackTarget
    pub of_uri : unit.uri ≡ uri
    pub whole : unit.tadir ≡ true
    pub entered : Entered unit
    pub made : Made uri
    pub origin : Local unit.entry

  abbrev pub JustifiedCall : Call → Type 0
  JustifiedCall (delete_object uri recorded) = Justified uri recorded
  JustifiedCall _ = Unit

  abbrev justified : Policy
  justified = record { allows = JustifiedCall; strict = false }

  module _ (u : Unchanging b) (objects : List TransportObject) (tasks : List Text)
      (entries : EntriesRead b request objects) (read : TasksRead b request tasks) where
    abbrev FoundHere : CreatedObject → Type 0
    FoundHere = Found b (FromEntry b objects) (request ∷ tasks)
