-- ===== src/Rollback/Accounting/Report.antt =====
-- deleteCreatedObjects deletes or reports every object.
use adtler.Prelude.{
  sym, append_assoc, append-nil, ◌++◌, ◌∙◌, suc, ◌+◌, ◌≡◌, ◌≢◌, ◌⊎◌, refl, ap, inl, inr, Bool, true,
  false, List, [], ◌∷◌, All, Option, none, some, is_some, length, Text, arith,
}
use adtler.Adt.{GoError, Backend}
use adtler.Adt.Gives.{Gives, Gives-lift, Gives-bind}
use adtler.Rollback.Entries.{nil_error, RollbackEntry, RollbackResult, add_failed}
use adtler.Rollback.Deletion.{
  CreatedObject, because, Round, left_reason, report_left, delete_rounds, report_round,
  delete_created_objects,
}
use adtler.Rollback.Accounting.Deleting.{
  SameBut, SameBut-trans, HasFailed, IsReported, Finished, delete_rounds-Finished,
}

abbrev pub NamesError : RollbackEntry → Type 0
NamesError e = e.reason ≢ nil_error

left_reason-NamesError :
    (last : Option GoError) (skipped : Bool) (rejected : Option GoError)
    → ((is_some last ≡ true) × (skipped ≡ false)) ⊎ (is_some rejected ≡ true)
    → left_reason last skipped rejected ≢ nil_error
unfolding left_reason
left_reason-NamesError (some e) true (some r) h q = cc
left_reason-NamesError (some e) true none (inl (h, k)) q = cc
left_reason-NamesError (some e) true none (inr h) q = cc
left_reason-NamesError (some e) false rejected h q = cc
left_reason-NamesError none skipped (some r) h q = cc
left_reason-NamesError none skipped none (inl (h, k)) q = cc
left_reason-NamesError none skipped none (inr h) q = cc

-- What the report appends to `failed`.
left_entries : Option GoError → List CreatedObject → List RollbackEntry
left_entries rejected [] = []
left_entries rejected (o ∷ objs) =
    because o (left_reason o.last_err o.skipped_retry rejected) ∷ left_entries rejected objs

length-left_entries :
    (rejected : Option GoError) (objs : List CreatedObject)
    → length (left_entries rejected objs) ≡ length objs
unfolding left_entries
length-left_entries rejected [] = refl
length-left_entries rejected (o ∷ objs) = omega (arith, length-left_entries rejected objs)

report_left-failed :
    (rejected : Option GoError) (objs : List CreatedObject) (result : RollbackResult)
    → (report_left rejected objs result).failed ≡ result.failed ++ left_entries rejected objs
unfolding report_left add_failed left_entries
report_left-failed rejected [] result = sym (append-nil result.failed)
report_left-failed rejected (o ∷ objs) result =
    let entry = because o (left_reason o.last_err o.skipped_retry rejected) in
    report_left-failed rejected objs (add_failed entry result)
    ∙ append_assoc result.failed (entry ∷ []) (left_entries rejected objs)

report_left-deleted :
    (rejected : Option GoError) (objs : List CreatedObject) (result : RollbackResult)
    → (report_left rejected objs result).deleted ≡ result.deleted
unfolding report_left add_failed
report_left-deleted rejected [] result = refl
report_left-deleted rejected (o ∷ objs) result = report_left-deleted rejected objs _

report_left-SameBut :
    (rejected : Option GoError) (objs : List CreatedObject) (result : RollbackResult)
    → SameBut result (report_left rejected objs result)
unfolding report_left add_failed
report_left-SameBut rejected [] result = record { restored = refl; skipped = refl; created = refl }
report_left-SameBut rejected (o ∷ objs) result =
    let same = report_left-SameBut rejected objs _ in
    record { restored = same.restored; skipped = same.skipped; created = same.created }

left_entries-NamesError :
    (rejected : Option GoError) (objs : List CreatedObject)
    → All HasFailed objs ⊎ (is_some rejected ≡ true)
    → All NamesError (left_entries rejected objs)
unfolding left_entries because
left_entries-NamesError rejected [] h = tt
left_entries-NamesError rejected (o ∷ objs) (inl (f, fs)) = (
  left_reason-NamesError o.last_err o.skipped_retry rejected (inl f),
  left_entries-NamesError rejected objs (inl fs),
)
left_entries-NamesError rejected (o ∷ objs) (inr r) = (
  left_reason-NamesError o.last_err o.skipped_retry rejected (inr r),
  left_entries-NamesError rejected objs (inr r),
)

-- The result behind the deletion of `objs`.
pub record Settled (objs : List CreatedObject) (r r' : RollbackResult) : Type 0 where
  pub left : List RollbackEntry
  pub reported : r'.failed ≡ r.failed ++ left
  pub counted : length r'.deleted + length left ≡ length r.deleted + length objs
  pub rest : SameBut r r'
  pub names_errors : All NamesError left

report_round-Settled :
    (objs : List CreatedObject) (result : RollbackResult) (st : Round)
    → length st.kept + length st.result.deleted ≡ length objs + length result.deleted
    → st.result.failed ≡ result.failed
    → SameBut result st.result
    → IsReported st
    → Settled objs result (report_left st.rejected st.kept st.result)
report_round-Settled objs result st counted failed rest reported = record {
  left = left_entries st.rejected st.kept;
  reported =
      report_left-failed st.rejected st.kept st.result
      ∙ ap (λ t. t ++ left_entries st.rejected st.kept) failed;
  counted = omega (
    arith,
    counted,
    ap length (report_left-deleted st.rejected st.kept st.result),
    length-left_entries st.rejected st.kept,
  );
  rest = SameBut-trans result st.result _ rest (report_left-SameBut st.rejected st.kept st.result);
  names_errors = left_entries-NamesError st.rejected st.kept reported;
}

-- deleteCreatedObjects always ends, also where the deletions of some objects fail again and again:
-- its fuel is enough. It appends to the failed entries, and the new deleted and failed entries together
-- are as many as the objects; the result's other lists are left alone. No new failure is reported by
-- the text of an error that is not there.
pub delete_created_objects-Settled :
    (b : Backend) (request : Text) (objs : List CreatedObject) (result : RollbackResult)
    → All (λ o. o.skipped_retry ≡ false) objs
    → Gives (Settled objs result) (delete_created_objects b request objs result)
unfolding delete_created_objects report_round
delete_created_objects-Settled b request objs result fresh =
    Gives-bind (Finished objs result) _ (delete_rounds b request (suc (length objs)) objs result) _
      (delete_rounds-Finished b request (suc (length objs)) objs result (omega arith) fresh)
      (λ r f.
        Gives-lift _ (report_round b request r)
          (report_left f.last.rejected f.last.kept f.last.result) (rw f.ended refl)
          (report_round-Settled objs result f.last f.counted f.failed f.rest f.reported))
