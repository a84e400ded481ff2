-- ===== src/Rollback/Accounting/Whole.antt =====
-- The restore of a transport's targets, with the deletion of what it created, notes each target once.
use adtler.Prelude.{
  ◌+◌, ◌≡◌, refl, ap, Bool, List, [], ◌∷◌, All, length, length-append, Text, not, arith,
}
use adtler.Adt.{Backend}
use adtler.Adt.Gives.{
  Gives, Gives-pure, Gives-if, Gives-option, Gives-list, Gives-bind, Gives-weaken,
}
use adtler.Rollback.Entries.{Reason, RollbackResult}
use adtler.Rollback.Deletion.{
  CreatedObject, created_entries, system_of, check_origins, keep_local_origin,
  delete_created_objects,
}
use adtler.Rollback.Targets.{TargetScan}
use adtler.Rollback.Transport.{
  Restoring, add_all_created, add_all_failed, restore_targets, delete_found, settle_created,
  restore_and_settle,
}
use adtler.Rollback.Accounting.Report.{Settled, delete_created_objects-Settled}
use adtler.Rollback.Accounting.Targets.{
  total, IsFresh, Noted, restore_targets-Noted, Checked, check_origins-Checked,
}

length-created_entries :
    (objs : List CreatedObject) (r : Reason) → length (created_entries objs r) ≡ length objs
unfolding created_entries
length-created_entries [] r = refl
length-created_entries (o ∷ objs) r = omega (arith, length-created_entries objs r)

module _ (objs : List CreatedObject) (r : Reason) (result : RollbackResult) where
  total-add_all_created : total (add_all_created objs r result) ≡ total result + length objs
  unfolding total add_all_created
  total-add_all_created =
      omega (
        arith,
        length-append result.created (created_entries objs r),
        length-created_entries objs r,
      )

  total-add_all_failed : total (add_all_failed objs r result) ≡ total result + length objs
  unfolding total add_all_failed
  total-add_all_failed =
      omega
        (arith, length-append result.failed (created_entries objs r), length-created_entries objs r)

Settled-total :
    (objs : List CreatedObject) (r r' : RollbackResult)
    → Settled objs r r'
    → total r' ≡ total r + length objs
unfolding total
Settled-total objs r r' s = omega (
  arith,
  s.counted,
  ap length s.reported,
  length-append r.failed s.left,
  ap length s.rest.restored,
  ap length s.rest.skipped,
  ap length s.rest.created,
)

module _ (b : Backend) (request : Text) where
  delete_found-total :
      (objs : List CreatedObject) (result : RollbackResult)
      → All IsFresh objs
      → Gives (λ r. total r ≡ total result + length objs) (delete_found b request objs result)
  unfolding delete_found keep_local_origin
  delete_found-total objs result fresh =
      Gives-bind (Checked (length objs) _) _ (check_origins b (system_of request) objs _) _
        (check_origins-Checked b (system_of request) objs _ fresh)
        (λ st c.
          Gives-weaken _ _ (delete_created_objects b request st.local st.result)
            (λ r s. omega (arith, c.counted, Settled-total st.local st.result r s))
            (delete_created_objects-Settled b request st.local st.result (c.fresh tt)))

  settle_created-total :
      (delete_created : Bool) (st : Restoring)
      → All IsFresh st.found
      → Gives
          (λ r. total r ≡ total st.result + length st.found)
          (settle_created b request delete_created st)
  unfolding settle_created
  settle_created-total delete_created st fresh =
      Gives-list _ st.found _ _ (λ e. Gives-pure _ st.result (rw e (omega arith)))
        (λ o objs e.
          Gives-if _ (not delete_created) _ _
            (λ _. Gives-pure _ _ (rw e (total-add_all_created (o ∷ objs) _ st.result)))
            (λ _.
              Gives-option _ st.rejected _ _
                (λ _.
                  Gives-list _ st.result.failed _ _
                    (λ _.
                      Gives-if _ st.partial _ _
                        (λ _. Gives-pure _ _ (rw e (total-add_all_created (o ∷ objs) _ st.result)))
                        (λ _. rw e (delete_found-total (o ∷ objs) st.result (rw e at fresh))))
                    (λ f failed _.
                      Gives-pure _ _ (rw e (total-add_all_created (o ∷ objs) _ st.result))))
                (λ r _. Gives-pure _ _ (rw e (total-add_all_failed (o ∷ objs) _ st.result)))))

  -- Behind the resolution of the entries the rollback always returns a result, whatever SAP answers. The
  -- number of its entries is that of the entries noted before and one for each target.
  pub restore_and_settle-total :
      (delete_created : Bool) (tasks : List Text) (scan : TargetScan)
      → Gives
          (λ r. total r ≡ total scan.result + length scan.targets)
          (restore_and_settle b request delete_created tasks scan)
  unfolding restore_and_settle
  restore_and_settle-total delete_created tasks scan =
      Gives-bind (Noted (length scan.targets) _) _ (restore_targets b request tasks scan.targets _)
        _ (restore_targets-Noted b request tasks scan.targets _)
        (λ st a.
          Gives-weaken _ _ (settle_created b request delete_created st)
            (λ r q. omega (arith, q, a.counted))
            (settle_created-total delete_created st (a.fresh tt)))
