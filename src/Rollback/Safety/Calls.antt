-- ===== src/Rollback/Safety/Calls.antt =====
-- Which calls a rollback makes.
use adtler.Prelude.{◌≡◌, refl, Bool, true, false, not, List, [], ◌∷◌, All, is_some, Text, codes}
use adtler.Adt.{
  wrap, Backend, Call, get_transport_objects, get_transport_tasks, is_unauthorized, as_adt,
  TransportObject,
}
use adtler.Adt.Stops.{
  Policy, Steps, Stops, is_delete, never, ended, Stops-pure, Stops-perform, Stops-wrap_error,
  Steps-pure, Steps-raise, Steps-if, Steps-end,
}
use adtler.Adt.Handling.{Steps-handle, Steps-list}
use adtler.Adt.Yields.{Steps-bind_with, Yields-perform, Yields-wrap_error}
use adtler.Rollback.Entries.{RollbackResult, no_result, RollbackTarget}
use adtler.Rollback.Targets.{TargetScan, rollback_targets}
use adtler.Rollback.Deletion.{CreatedObject}
use adtler.Rollback.Transport.{
  Restoring, restore_targets, delete_found, settle_created, restore_and_settle, read_tasks,
  rollback_transport_with_options,
}
use adtler.Rollback.Quiet.Loops.{Steps-unless_rejected, scan_objects-Steps, restore_targets-Steps}
use adtler.Rollback.Safety.Listed.{FromEntry, rollback_targets-FromEntry}
use adtler.Rollback.Safety.Created.{
  EntriesRead, Found, TasksRead, read_tasks-TasksRead, restore_targets-Found,
}

of_not : (t : Bool) → not t ≡ false → t ≡ true
of_not true h = refl
of_not false h = cc

module _ (b : Backend) (P : Policy) (spares : (c : Call) → is_delete c ≡ false → P.allows c)
    (request : Text) where
  read_tasks-Stops : Stops P (read_tasks b request)
  unfolding read_tasks is_delete is_unauthorized as_adt
  read_tasks-Stops =
      Steps-handle P never _ _ _
        (Stops-perform P (get_transport_tasks request) (λ log. b.transport_tasks log request)
          (spares (get_transport_tasks request) refl))
        (λ tasks. Stops-pure P _)
        (λ e.
          Steps-if P never _ (is_unauthorized e) _ _
            (λ q. Steps-raise P never _ (wrap (codes "reading transport tasks") e) (λ r. r))
            (λ q. Steps-pure P never (is_unauthorized e) [] (λ r. cc)))

  rollback_targets-Steps :
      (objects : List TransportObject) (result : RollbackResult)
      → Steps P (λ st. is_some st.rejected) false (rollback_targets b objects result)
  unfolding rollback_targets
  rollback_targets-Steps objects result = scan_objects-Steps b P spares objects _

  settle_created-Steps :
      (st : Restoring) (delete_created : Bool)
      → ((o : CreatedObject) (objs : List CreatedObject)
          → delete_created ≡ true
          → st.found ≡ o ∷ objs
          → Steps P ended false (delete_found b request (o ∷ objs) st.result))
      → Steps P ended (is_some st.rejected) (settle_created b request delete_created st)
  unfolding settle_created
  settle_created-Steps st delete_created h =
      Steps-list P ended (is_some st.rejected) st.found _ _ (λ _. Steps-end P _ st.result)
        (λ o objs found.
          Steps-if P ended _ (not delete_created) _ _ (λ _. Steps-end P _ _)
            (λ d.
              Steps-unless_rejected P ended st.rejected _ _
                (λ _.
                  Steps-list P ended false st.result.failed _ _
                    (λ _.
                      Steps-if P ended false st.partial _ _ (λ _. Steps-end P _ _)
                        (λ _. h o objs (of_not delete_created d) found))
                    (λ f failed _. Steps-end P _ _))
                (λ e _. Steps-end P _ _)))

  restore_and_settle-Steps :
      (C : RollbackTarget → Type 0) (delete_created : Bool) (tasks : List Text) (scan : TargetScan)
      → All C scan.targets
      → ((st : Restoring) (o : CreatedObject) (objs : List CreatedObject)
          → delete_created ≡ true
          → All (Found b C (request ∷ tasks)) (o ∷ objs)
          → Steps P ended false (delete_found b request (o ∷ objs) st.result))
      → Steps P ended
          (is_some scan.rejected)
          (restore_and_settle b request delete_created tasks scan)
  unfolding restore_and_settle
  restore_and_settle-Steps C delete_created tasks scan entries h =
      Steps-bind_with P (λ st. is_some st.rejected) ended _
        (λ st. All (Found b C (request ∷ tasks)) st.found)
        (restore_targets b request tasks scan.targets _) _
        (restore_targets-Steps b P spares request tasks scan.targets _)
        (restore_targets-Found b C request tasks scan.targets _ entries tt)
        (λ st made.
          settle_created-Steps st delete_created
            (λ o objs d found. h st o objs d (rw found at made)))

  pub rollback-Steps :
      (delete_created : Bool)
      → ((objects : List TransportObject) (tasks : List Text) (st : Restoring) (o : CreatedObject)
            (objs : List CreatedObject)
          → delete_created ≡ true
          → EntriesRead b request objects
          → TasksRead b request tasks
          → All (Found b (FromEntry b objects) (request ∷ tasks)) (o ∷ objs)
          → Steps P ended false (delete_found b request (o ∷ objs) st.result))
      → Steps P ended false (rollback_transport_with_options b request delete_created)
  unfolding rollback_transport_with_options is_delete
  rollback-Steps delete_created h =
      Steps-bind_with P never ended false (EntriesRead b request) _ _
        (Stops-wrap_error P _ _ (
          Stops-perform P (get_transport_objects request) (λ log. b.transport_objects log request)
            (spares (get_transport_objects request) refl)))
        (Yields-wrap_error _ _ _ (Yields-perform _ _ _ (λ log objects e. (log, e))))
        (λ objects entries.
          Steps-bind_with P never ended false (TasksRead b request) (read_tasks b request) _
            read_tasks-Stops (read_tasks-TasksRead b request)
            (λ tasks read.
              Steps-bind_with P (λ scan. is_some scan.rejected) ended false
                (λ scan. All (FromEntry b objects) scan.targets)
                (rollback_targets b objects no_result) _ (rollback_targets-Steps objects no_result)
                (rollback_targets-FromEntry b objects no_result)
                (λ scan from.
                  restore_and_settle-Steps (FromEntry b objects) delete_created tasks scan from
                    (λ st o objs d made. h objects tasks st o objs d entries read made))))
