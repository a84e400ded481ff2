-- ===== src/Rollback/Safety/Created.antt =====
-- What is known of the objects that a rollback may delete: SAP has said that the transport has
-- created them, and that they are of its system.
use adtler.Prelude.{
  ◌≡◌, ◌⊎◌, refl, inl, inr, Bool, true, false, List, [], ◌∷◌, All, All-append, Text, codes,
  Bool-cases,
}
use adtler.Adt.{
  Result, ok, err, Backend, TransportObject, VersionInfo, Log, lift, is_unauthorized,
  get_version_history, get_transport_tasks, perform, wrap_error,
}
use adtler.Adt.Yields.{
  Yields, Yields-pure, Yields-raise, Yields-lift, Yields-perform, Yields-wrap_error, Yields-if,
  Yields-option, Yields-note, Yields-bind, Yields-handle,
}
use adtler.Rollback.Entries.{RollbackTarget}
use adtler.Rollback.Deletion.{CreatedObject}
use adtler.Rollback.Versions.{created_by_transport, plan_restore}
use adtler.Rollback.Restore.{restore_version, classify, rollback_or_classify}
use adtler.Rollback.Transport.{
  Restoring, created_object, note_restore, restore_target, restore_targets, read_tasks,
}

module _ (b : Backend) where
  -- SAP has answered a request for the object's history with versions that all carry one of the transports.
  pub record CreatedBy (transports : List Text) (uri : Text) : Type 0 where
    pub asked : Log
    pub versions : List VersionInfo
    pub answered : b.version_history asked uri ≡ ok versions
    pub all_carry : created_by_transport versions transports ≡ true

  -- SAP has listed these entries for the request.
  abbrev pub EntriesRead : Text → List TransportObject → Type 0
  EntriesRead request objects = (asked : Log) × (b.transport_objects asked request ≡ ok objects)

  -- SAP has listed these tasks for the request, or there are none.
  abbrev pub TasksRead : Text → List Text → Type 0
  TasksRead request tasks =
      (tasks ≡ []) ⊎ ((asked : Log) × (b.transport_tasks asked request ≡ ok tasks))

  pub read_tasks-TasksRead : (request : Text) → Yields (TasksRead request) (read_tasks b request)
  unfolding read_tasks perform
  read_tasks-TasksRead request =
      Yields-handle _ (perform (get_transport_tasks request) (λ log. b.transport_tasks log request))
        _ _ (λ log tasks h. Yields-pure _ tasks (inr (log, h)))
        (λ e.
          Yields-if _ (is_unauthorized e) _ _ (λ _. Yields-raise _ _)
            (λ _. Yields-pure _ [] (inl refl)))

  classify-CreatedBy :
      (uri request : Text) (tasks : List Text) (asked : Log) (versions : List VersionInfo)
      → b.version_history asked uri ≡ ok versions
      → Yields
          (λ created. created ≡ true → CreatedBy (request ∷ tasks) uri)
          (classify b uri request tasks versions)
  unfolding classify
  classify-CreatedBy uri request tasks asked [] h = Yields-raise _ _
  classify-CreatedBy uri request tasks asked (v ∷ versions) h =
      Yields-if _ (created_by_transport (v ∷ versions) (request ∷ tasks)) _ _
        (λ q.
          Yields-pure _ true
            (λ _. record { asked = asked; versions = v ∷ versions; answered = h; all_carry = q }))
        (λ _.
          Yields-bind (λ _. Unit) _ (lift (plan_restore (v ∷ versions) (request ∷ tasks))) _
            (Yields-lift _ _ (λ _ _. tt))
            (λ writes _.
              Yields-bind (λ _. Unit) _ (restore_version b uri writes request) _
                (record { at = λ _ _ _. tt }) (λ _ _. Yields-pure _ false (λ q. absurd (cc q)))))

  rollback_or_classify-CreatedBy :
      (uri request : Text) (tasks : List Text)
      → Yields
          (λ created. created ≡ true → CreatedBy (request ∷ tasks) uri)
          (rollback_or_classify b uri request tasks)
  unfolding rollback_or_classify
  rollback_or_classify-CreatedBy uri request tasks =
      Yields-bind (λ versions. (asked : Log) × (b.version_history asked uri ≡ ok versions)) _
        (wrap_error (codes "get version history")
          (perform (get_version_history uri) (λ log. b.version_history log uri)))
        _ (Yields-wrap_error _ _ _ (Yields-perform _ _ _ (λ log versions h. (log, h))))
        (λ versions h. classify-CreatedBy uri request tasks h.0 versions h.1)

  -- An object found created, of a target that stands for an object of the catalogue.
  pub record Found (C : RollbackTarget → Type 0) (transports : List Text) (o : CreatedObject)
      : Type 0 where
    pub target : RollbackTarget
    pub from : C target
    pub whole : target.tadir ≡ true
    pub same_entry : o.entry ≡ target.entry
    pub same_uri : o.uri ≡ target.uri
    pub created : CreatedBy transports o.uri

  module _ (C : RollbackTarget → Type 0) (request : Text) (tasks : List Text) where
    note_restore-Found :
        (t : RollbackTarget) (r : Result Bool) (st : Restoring)
        → C t
        → (r ≡ ok true → CreatedBy (request ∷ tasks) t.uri)
        → All (Found C (request ∷ tasks)) st.found
        → All (Found C (request ∷ tasks)) (note_restore t r st).found
    unfolding note_restore created_object
    note_restore-Found t (err e) st o c h = h
    note_restore-Found t (ok false) st o c h = h
    note_restore-Found t (ok true) st o c h = elim (Bool-cases t.tadir) [
      | inl x ↦ rw x (
          All-append _ st.found _ h (
            record {
              target = t;
              from = o;
              whole = x;
              same_entry = refl;
              same_uri = refl;
              created = c refl;
            },
            tt,
          ))
      | inr x ↦ rw x h
    ]

    restore_target-Found :
        (t : RollbackTarget) (st : Restoring)
        → C t
        → All (Found C (request ∷ tasks)) st.found
        → Yields
            (λ st'. All (Found C (request ∷ tasks)) st'.found)
            (restore_target b request tasks t st)
    unfolding restore_target
    restore_target-Found t st o h =
        Yields-option _ st.rejected _ _
          (λ _.
            Yields-note _ (rollback_or_classify b t.uri request tasks) (λ r. note_restore t r st)
              (λ log.
                note_restore-Found t (rollback_or_classify b t.uri request tasks log).0 st o
                  (λ q. (rollback_or_classify-CreatedBy t.uri request tasks).at log true q refl) h))
          (λ e _. Yields-pure _ _ h)

    pub restore_targets-Found :
        (targets : List RollbackTarget) (st : Restoring)
        → All C targets
        → All (Found C (request ∷ tasks)) st.found
        → Yields
            (λ st'. All (Found C (request ∷ tasks)) st'.found)
            (restore_targets b request tasks targets st)
    unfolding restore_targets
    restore_targets-Found [] st os h = Yields-pure _ st h
    restore_targets-Found (t ∷ targets) st (o, os) h =
        Yields-bind _ _ (restore_target b request tasks t st) _ (restore_target-Found t st o h)
          (λ st' h'. restore_targets-Found targets st' os h')
