-- ===== src/Rollback/Transport.antt =====
-- RollbackTransportWithOptions of adt/rollback.go.
use adtler.Prelude.{
  Bool, true, false, not, List, [], ◌∷◌, ◌++◌, Option, none, some, if◌then◌else◌, Text, codes,
}
use adtler.Adt.{
  GoError, wrap, is_unauthorized, Result, ok, err, Backend, get_transport_objects,
  get_transport_tasks, Exec, pure, raise, perform, wrap_error, attempt, ◌>>=◌,
}
use adtler.Rollback.Entries.{
  Reason, not_attempted, restore_failed, created_kept, created_restore_err, created_sub_objects,
  created_sub_object, not_deleted, RollbackEntry, RollbackResult, no_result, add_restored,
  add_failed, add_created, RollbackTarget,
}
use adtler.Rollback.Targets.{TargetScan, rejection, rollback_targets}
use adtler.Rollback.Restore.{rollback_or_classify}
use adtler.Rollback.Deletion.{
  CreatedObject, created_entries, keep_local_origin, delete_created_objects,
}

-- The variables of the restore loop. `found` are the objects found created.
pub record Restoring : Type 0 where
  pub found : List CreatedObject
  pub partial : Bool
  pub rejected : Option GoError
  pub result : RollbackResult

unfoldable pub with_entry : RollbackTarget → Reason → RollbackEntry
with_entry t r = record t.entry { reason = r }

unfoldable pub created_object : RollbackTarget → CreatedObject
created_object t = record { entry = t.entry; uri = t.uri; last_err = none; skipped_retry = false }

unfoldable pub note_restore : RollbackTarget → Result Bool → Restoring → Restoring
unfolding with_entry rejection add_failed add_created add_restored created_object
note_restore t (err e) st = record st {
  rejected = rejection e;
  result = add_failed (with_entry t (restore_failed e)) st.result;
}
note_restore t (ok false) st = record st { result = add_restored t.entry st.result }
note_restore t (ok true) st =
    if t.tadir then record st { found = st.found ++ (created_object t ∷ []) } else record st {
      partial = true;
      result = add_created (with_entry t created_sub_object) st.result;
    }

unfoldable pub add_all_created : List CreatedObject → Reason → RollbackResult → RollbackResult
unfolding created_entries
add_all_created objs r result = record result { created = result.created ++ created_entries objs r }

unfoldable pub add_all_failed : List CreatedObject → Reason → RollbackResult → RollbackResult
unfolding created_entries
add_all_failed objs r result = record result { failed = result.failed ++ created_entries objs r }

module _ (b : Backend) (request : Text) where
  unfoldable pub restore_target : List Text → RollbackTarget → Restoring → Exec Restoring
  unfolding with_entry add_failed rollback_or_classify note_restore attempt pure ◌>>=◌
  restore_target tasks t st = elim st.rejected [
    | some e ↦ pure (record st { result = add_failed (with_entry t (not_attempted e)) st.result })
    | none ↦ do r ← attempt (rollback_or_classify b t.uri request tasks); pure (note_restore t r st)
  ]

  unfoldable pub restore_targets : List Text → List RollbackTarget → Restoring → Exec Restoring
  unfolding restore_target pure ◌>>=◌
  restore_targets tasks [] st = pure st
  restore_targets tasks (t ∷ targets) st = do
    st' ← restore_target tasks t st
    restore_targets tasks targets st'

  unfoldable pub delete_found : List CreatedObject → RollbackResult → Exec RollbackResult
  unfolding keep_local_origin delete_created_objects ◌>>=◌
  delete_found objs result = do
    origins ← keep_local_origin b objs request result
    delete_created_objects b request origins.local origins.result

  -- The `switch` behind the loop.
  unfoldable pub settle_created : Bool → Restoring → Exec RollbackResult
  unfolding add_all_created add_all_failed delete_found pure
  settle_created delete_created st = elim st.found [
    | [] ↦ pure st.result
    | o ∷ objs ↦
        if not delete_created
        then pure (add_all_created (o ∷ objs) created_kept st.result)
        else elim st.rejected [
          | some e ↦ pure (add_all_failed (o ∷ objs) (not_deleted e) st.result)
          | none ↦ elim st.result.failed [
            | f ∷ failed ↦ pure (add_all_created (o ∷ objs) created_restore_err st.result)
            | [] ↦
                if st.partial
                then pure (add_all_created (o ∷ objs) created_sub_objects st.result)
                else delete_found (o ∷ objs) st.result
          ]
        ]
  ]

  -- GetTransportTasks: an error other than 401 leaves the request alone to be matched.
  unfoldable pub read_tasks : Exec (List Text)
  unfolding perform attempt is_unauthorized raise pure ◌>>=◌
  read_tasks = do
    r ← attempt (perform (get_transport_tasks request) (λ log. b.transport_tasks log request))
    elim r [
      | ok tasks ↦ pure tasks
      | err e ↦
          if is_unauthorized e then raise (wrap (codes "reading transport tasks") e) else pure []
    ]

  -- The restore of the targets and what follows it.
  unfoldable pub restore_and_settle : Bool → List Text → TargetScan → Exec RollbackResult
  unfolding restore_targets settle_created ◌>>=◌
  restore_and_settle delete_created tasks scan = do
    st ← restore_targets tasks scan.targets (record {
      found = [];
      partial = scan.partial;
      rejected = scan.rejected;
      result = scan.result;
    })
    settle_created delete_created st

  unfoldable pub rollback_transport_with_options : Bool → Exec RollbackResult
  unfolding perform wrap_error read_tasks rollback_targets restore_and_settle ◌>>=◌
  rollback_transport_with_options delete_created = do
    objects ←
        wrap_error (codes "reading transport objects")
          (perform (get_transport_objects request) (λ log. b.transport_objects log request))
    tasks ← read_tasks
    scan ← rollback_targets b objects no_result
    restore_and_settle delete_created tasks scan

  unfoldable pub rollback_transport : Exec RollbackResult
  unfolding rollback_transport_with_options
  rollback_transport = rollback_transport_with_options false
