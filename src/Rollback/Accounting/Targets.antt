-- ===== src/Rollback/Accounting/Targets.antt =====
-- The restore of the targets notes each of them once.
use adtler.Prelude.{
  ℕ, suc, ◌+◌, ◌≡◌, refl, inl, inr, Bool, true, false, List, [], ◌∷◌, All, All-append, length,
  length-append, Text, text_eq, not, ◌||◌, arith, Bool-cases,
}
use adtler.Adt.{Result, ok, err, Backend, is_unauthorized}
use adtler.Adt.Gives.{Gives, Gives-pure, Gives-option, Gives-note, Gives-bind, Gives-weaken}
use adtler.Rollback.Entries.{
  RollbackEntry, RollbackResult, RollbackTarget, add_restored, add_skipped, add_failed, add_created,
}
use adtler.Rollback.Restore.{rollback_or_classify}
use adtler.Rollback.Deletion.{
  CreatedObject, OriginScan, note_origin, tadir_source_system, check_origin, check_origins,
}
use adtler.Rollback.Transport.{
  Restoring, created_object, note_restore, restore_target, restore_targets,
}

-- The number of entries of a result.
unfoldable pub total : RollbackResult → ℕ
total r =
    length r.restored + length r.skipped + length r.failed + length r.created + length r.deleted

module _ (e : RollbackEntry) (r : RollbackResult) where
  total-add_restored : total (add_restored e r) ≡ suc (total r)
  unfolding total add_restored
  total-add_restored = omega (arith, length-append r.restored (e ∷ []))

  total-add_skipped : total (add_skipped e r) ≡ suc (total r)
  unfolding total add_skipped
  total-add_skipped = omega (arith, length-append r.skipped (e ∷ []))

  total-add_failed : total (add_failed e r) ≡ suc (total r)
  unfolding total add_failed
  total-add_failed = omega (arith, length-append r.failed (e ∷ []))

  total-add_created : total (add_created e r) ≡ suc (total r)
  unfolding total add_created
  total-add_created = omega (arith, length-append r.created (e ∷ []))

abbrev pub IsFresh : CreatedObject → Type 0
IsFresh o = o.skipped_retry ≡ false

-- `n` more targets are noted, in the result or among the objects found created.
pub record Noted (n : ℕ) (st st' : Restoring) : Type 0 where
  pub counted : total st'.result + length st'.found ≡ total st.result + length st.found + n
  pub fresh : All IsFresh st.found → All IsFresh st'.found

note_restore-Noted :
    (t : RollbackTarget) (r : Result Bool) (st : Restoring) → Noted 1 st (note_restore t r st)
unfolding note_restore
note_restore-Noted t (err e) st = record {
  counted = omega (arith, total-add_failed _ st.result);
  fresh = λ f. f;
}
note_restore-Noted t (ok false) st = record {
  counted = omega (arith, total-add_restored t.entry st.result);
  fresh = λ f. f;
}
note_restore-Noted t (ok true) st = elim (Bool-cases t.tadir) [
  | inl x ↦ rw x (record {
    counted = omega (arith, length-append st.found (created_object t ∷ []));
    fresh = λ f. All-append IsFresh st.found _ f (unfold created_object in (refl, tt));
  })
  | inr x ↦ rw x (record { counted = omega (arith, total-add_created _ st.result); fresh = λ f. f })
]

module _ (b : Backend) (request : Text) (tasks : List Text) where
  restore_target-Noted :
      (t : RollbackTarget) (st : Restoring)
      → Gives (Noted 1 st) (restore_target b request tasks t st)
  unfolding restore_target
  restore_target-Noted t st =
      Gives-option _ st.rejected _ _
        (λ _.
          Gives-note _ (rollback_or_classify b t.uri request tasks) (λ r. note_restore t r st)
            (λ r. note_restore-Noted t r st))
        (λ e _.
          Gives-pure _ _
            (record { counted = omega (arith, total-add_failed _ st.result); fresh = λ f. f }))

  pub restore_targets-Noted :
      (targets : List RollbackTarget) (st : Restoring)
      → Gives (Noted (length targets) st) (restore_targets b request tasks targets st)
  unfolding restore_targets
  restore_targets-Noted [] st = Gives-pure _ st (record { counted = omega arith; fresh = λ f. f })
  restore_targets-Noted (t ∷ targets) st =
      Gives-bind (Noted 1 st) _ (restore_target b request tasks t st) _ (restore_target-Noted t st)
        (λ st' a.
          Gives-weaken _ _ (restore_targets b request tasks targets st')
            (λ st'' c. record {
              counted = omega (arith, a.counted, c.counted);
              fresh = λ f. c.fresh (a.fresh f);
            })
            (restore_targets-Noted targets st'))

-- `n` more objects are kept or noted in the result.
pub record Checked (n : ℕ) (st st' : OriginScan) : Type 0 where
  pub counted : total st'.result + length st'.local ≡ total st.result + length st.local + n
  pub fresh : All IsFresh st.local → All IsFresh st'.local

note_origin-Checked :
    (sid : Text) (o : CreatedObject) (r : Result Text) (st : OriginScan)
    → IsFresh o
    → Checked 1 st (note_origin sid o r st)
unfolding note_origin
note_origin-Checked sid o (err e) st fresh = elim (Bool-cases (is_unauthorized e)) [
  | inl x ↦ rw x (record { counted = omega (arith, total-add_failed _ st.result); fresh = λ f. f })
  | inr x ↦ rw x (record { counted = omega (arith, total-add_created _ st.result); fresh = λ f. f })
]
note_origin-Checked sid o (ok source) st fresh =
    elim (Bool-cases (text_eq sid [] || not (text_eq source sid))) [
      | inl x ↦
          rw x (record { counted = omega (arith, total-add_created _ st.result); fresh = λ f. f })
      | inr x ↦ rw x (record {
        counted = omega (arith, length-append st.local (o ∷ []));
        fresh = λ f. All-append IsFresh st.local _ f (fresh, tt);
      })
    ]

module _ (b : Backend) (sid : Text) where
  check_origin-Checked :
      (o : CreatedObject) (st : OriginScan)
      → IsFresh o
      → Gives (Checked 1 st) (check_origin b sid o st)
  unfolding check_origin
  check_origin-Checked o st fresh =
      Gives-option _ st.rejected _ _
        (λ _.
          Gives-note _ (tadir_source_system b o.entry.object_type o.entry.name)
            (λ r. note_origin sid o r st) (λ r. note_origin-Checked sid o r st fresh))
        (λ e _.
          Gives-pure _ _
            (record { counted = omega (arith, total-add_failed _ st.result); fresh = λ f. f }))

  pub check_origins-Checked :
      (objs : List CreatedObject) (st : OriginScan)
      → All IsFresh objs
      → Gives (Checked (length objs) st) (check_origins b sid objs st)
  unfolding check_origins
  check_origins-Checked [] st fresh =
      Gives-pure _ st (record { counted = omega arith; fresh = λ f. f })
  check_origins-Checked (o ∷ objs) st (f, fs) =
      Gives-bind (Checked 1 st) _ (check_origin b sid o st) _ (check_origin-Checked o st f)
        (λ st' a.
          Gives-weaken _ _ (check_origins b sid objs st')
            (λ st'' c. record {
              counted = omega (arith, a.counted, c.counted);
              fresh = λ f'. c.fresh (a.fresh f');
            })
            (check_origins-Checked objs st' fs))
