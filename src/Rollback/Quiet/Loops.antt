-- ===== src/Rollback/Quiet/Loops.antt =====
-- The loops of adt/rollback.go and adt/rollback_targets.go stop behind a 401: what a variable
-- `rejected` holds tells of it.
use adtler.Prelude.{
  ◌≡◌, refl, inl, inr, Bool, true, false, List, [], ◌∷◌, Option, none, some, is_some, is_some-of,
  Text, text_eq, ◌==◌, ==_iff, codes, Bool-cases, arith,
}
use adtler.Errors.{AdtError, ErrorKind, not_found, classify_error}
use adtler.Errors.Missing.{classify_error-not_found}
use adtler.Adt.{
  GoError, as_adt, is_unauthorized, error_kind, err, Backend, Call, TransportObject, Exec,
}
use adtler.Adt.Stops.{
  Policy, is_delete, Steps, Stops, stops_rules, Steps-pure, Steps-bind, Steps-if,
}
use adtler.Adt.Handling.{Steps-note}
use adtler.Rollback.Entries.{RollbackTarget}
use adtler.Rollback.Targets.{TargetScan, rejection, note_target, scan_object, scan_objects}
use adtler.Rollback.Deletion.{
  CreatedObject, OriginScan, note_origin, tadir_source_system, check_origin, check_origins, Round,
  is_not_found, keep_failed, note_deletion,
}
use adtler.Rollback.Transport.{Restoring, note_restore, restore_target, restore_targets}
use adtler.Rollback.Quiet.Resolving.{query_one-Stops, resolve_rollback_target-Stops}
use adtler.Rollback.Quiet.Restoring.{rollback_or_classify-Stops}

pub rejection-is_some : (e : GoError) → is_unauthorized e ≡ true → is_some (rejection e) ≡ true
unfolding rejection
rejection-is_some e h = rw h

-- Nothing is tried where an earlier step was rejected.
module _ (P : Policy) {A B : Type 0} where
  pub Steps-unless_rejected :
      (f : B → Bool) (o : Option A) (m : Exec B) (k : A → Exec B)
      → (o ≡ none → Steps P f false m)
      → ((a : A) → o ≡ some a → Steps P f true (k a))
      → Steps P f (is_some o) (elim o [ none ↦ m | some a ↦ k a ])
  Steps-unless_rejected f none m k hm hk = hm refl
  Steps-unless_rejected f (some a) m k hm hk = hk a refl

note_target-rejected :
    (obj : TransportObject) (e : GoError) (st : TargetScan)
    → is_unauthorized e ≡ true
    → is_some (note_target obj (err e) st).rejected ≡ true
unfolding note_target
note_target-rejected obj e st h = rejection-is_some e h

note_restore-rejected :
    (t : RollbackTarget) (e : GoError) (st : Restoring)
    → is_unauthorized e ≡ true
    → is_some (note_restore t (err e) st).rejected ≡ true
unfolding note_restore
note_restore-rejected t e st h = rejection-is_some e h

note_origin-rejected :
    (sid : Text) (o : CreatedObject) (e : GoError) (st : OriginScan)
    → is_unauthorized e ≡ true
    → is_some (note_origin sid o (err e) st).rejected ≡ true
unfolding note_origin
note_origin-rejected sid o e st h = rw h

is_not_found-true : (k : ErrorKind) → is_not_found k ≡ true → k ≡ not_found
unfolding is_not_found
is_not_found-true not_found h = refl
is_not_found-true _ h = absurd (cc h)

not_missing :
    (o : Option AdtError)
    → elim o [ none ↦ false | some a ↦ a.status_code == 401 ] ≡ true
    → is_not_found (classify_error o) ≡ false
not_missing none h = absurd (cc h)
not_missing (some a) h = elim (Bool-cases (is_not_found (classify_error (some a)))) [
  | inr q ↦ q
  | inl q ↦ absurd (
      omega
        (arith, classify_error-not_found a (is_not_found-true _ q), (==_iff a.status_code 401).0 h))
]

-- A 401 is not taken for a missing object.
is_not_found-unauthorized :
    (e : GoError) → is_unauthorized e ≡ true → is_not_found (error_kind e) ≡ false
unfolding is_unauthorized error_kind
is_not_found-unauthorized e h = not_missing (as_adt e) h

pub note_deletion-rejected :
    (o : CreatedObject) (e : GoError) (st : Round)
    → is_unauthorized e ≡ true
    → is_some (note_deletion o (err e) st).rejected ≡ true
unfolding note_deletion keep_failed
note_deletion-rejected o e st h = rw (is_not_found-unauthorized e h) (rejection-is_some e h)

module _ (b : Backend) (P : Policy) (spares : (c : Call) → is_delete c ≡ false → P.allows c) where
  scan_object-Steps :
      (obj : TransportObject) (st : TargetScan)
      → Steps P (λ st'. is_some st'.rejected) (is_some st.rejected) (scan_object b obj st)
  unfolding scan_object
  scan_object-Steps obj st =
      Steps-if P _ _ (text_eq obj.pgm_id (codes "CORR")) _ _ (λ _. Steps-pure P _ _ st (λ q. q))
        (λ _.
          Steps-unless_rejected P _ st.rejected _ _
            (λ _.
              Steps-note P _ _ (λ r. note_target obj r st)
                (resolve_rollback_target-Stops b P spares obj)
                (λ e h. note_target-rejected obj e st h))
            (λ e q. Steps-pure P _ _ _ (λ _. is_some-of st.rejected e q)))

  pub scan_objects-Steps :
      (objs : List TransportObject) (st : TargetScan)
      → Steps P (λ st'. is_some st'.rejected) (is_some st.rejected) (scan_objects b objs st)
  unfolding scan_objects
  scan_objects-Steps [] st = Steps-pure P _ _ st (λ q. q)
  scan_objects-Steps (obj ∷ objs) st =
      Steps-bind P _ _ _ (scan_object b obj st) _ (scan_object-Steps obj st)
        (λ st'. scan_objects-Steps objs st')

  restore_target-Steps :
      (request : Text) (tasks : List Text) (t : RollbackTarget) (st : Restoring)
      → Steps P
          (λ st'. is_some st'.rejected)
          (is_some st.rejected)
          (restore_target b request tasks t st)
  unfolding restore_target
  restore_target-Steps request tasks t st =
      Steps-unless_rejected P _ st.rejected _ _
        (λ _.
          Steps-note P _ _ (λ r. note_restore t r st)
            (rollback_or_classify-Stops b P spares t.uri request tasks)
            (λ e h. note_restore-rejected t e st h))
        (λ e q. Steps-pure P _ _ _ (λ _. is_some-of st.rejected e q))

  pub restore_targets-Steps :
      (request : Text) (tasks : List Text) (targets : List RollbackTarget) (st : Restoring)
      → Steps P
          (λ st'. is_some st'.rejected)
          (is_some st.rejected)
          (restore_targets b request tasks targets st)
  unfolding restore_targets
  restore_targets-Steps request tasks [] st = Steps-pure P _ _ st (λ q. q)
  restore_targets-Steps request tasks (t ∷ targets) st =
      Steps-bind P _ _ _ (restore_target b request tasks t st) _
        (restore_target-Steps request tasks t st)
        (λ st'. restore_targets-Steps request tasks targets st')

  tadir_source_system-Stops :
      (object_type name : Text) → Stops P (tadir_source_system b object_type name)
  unfolding tadir_source_system
  tadir_source_system-Stops object_type name = search (stops_rules, query_one-Stops b P spares)

  check_origin-Steps :
      (sid : Text) (o : CreatedObject) (st : OriginScan)
      → Steps P (λ st'. is_some st'.rejected) (is_some st.rejected) (check_origin b sid o st)
  unfolding check_origin
  check_origin-Steps sid o st =
      Steps-unless_rejected P _ st.rejected _ _
        (λ _.
          Steps-note P _ _ (λ r. note_origin sid o r st)
            (tadir_source_system-Stops o.entry.object_type o.entry.name)
            (λ e h. note_origin-rejected sid o e st h))
        (λ e q. Steps-pure P _ _ _ (λ _. is_some-of st.rejected e q))

  pub check_origins-Steps :
      (sid : Text) (objs : List CreatedObject) (st : OriginScan)
      → Steps P (λ st'. is_some st'.rejected) (is_some st.rejected) (check_origins b sid objs st)
  unfolding check_origins
  check_origins-Steps sid [] st = Steps-pure P _ _ st (λ q. q)
  check_origins-Steps sid (o ∷ objs) st =
      Steps-bind P _ _ _ (check_origin b sid o st) _ (check_origin-Steps sid o st)
        (λ st'. check_origins-Steps sid objs st')
