-- ===== src/Rollback/Deletion.antt =====
-- keepLocalOrigin and deleteCreatedObjects of adt/rollback.go.
use adtler.Prelude.{
  ℕ, zero, suc, Bool, true, false, not, ◌&&◌, ◌||◌, List, [], ◌∷◌, ◌++◌, Option, none, some,
  is_some, ltb, leb, if◌then◌else◌, length, take, Text, codes, text_eq, to_upper,
}
use adtler.Sql.{escape_value}
use adtler.Errors.{ErrorKind, not_found}
use adtler.Adt.{
  GoError, plain, is_unauthorized, error_kind, Result, ok, err, Backend, delete_object, Exec, pure,
  lift, perform, attempt, ◌>>=◌,
}
use adtler.Rollback.Entries.{
  Reason, not_deleted, origin_unread, foreign_origin, delete_failed, delete_not_attempted,
  not_retried, nil_error, RollbackEntry, RollbackResult, add_failed, add_created, add_deleted,
}
use adtler.Rollback.Targets.{rejection, query_one, equals_name}

pub record CreatedObject : Type 0 where
  pub entry : RollbackEntry
  pub uri : Text
  pub last_err : Option GoError
  -- notRetried: a 401 stopped the rollback before the next attempt
  pub skipped_retry : Bool

unfoldable pub because : CreatedObject → Reason → RollbackEntry
because o r = record o.entry { reason = r }

unfoldable pub created_entries : List CreatedObject → Reason → List RollbackEntry
unfolding because
created_entries [] r = []
created_entries (o ∷ objs) r = because o r ∷ created_entries objs r

-- The request's system: the first three characters of its number.
unfoldable pub system_of : Text → Text
unfolding to_upper
system_of request = if leb 3 (length request) then to_upper (take 3 request) else []

pub record OriginScan : Type 0 where
  pub local : List CreatedObject
  pub rejected : Option GoError
  pub result : RollbackResult

unfoldable pub note_origin : Text → CreatedObject → Result Text → OriginScan → OriginScan
unfolding is_unauthorized because add_failed add_created text_eq
note_origin sid o (err e) st =
    if is_unauthorized e
    then record st { rejected = some e; result = add_failed (because o (not_deleted e)) st.result }
    else record st { result = add_created (because o (origin_unread e)) st.result }
note_origin sid o (ok source) st =
    if text_eq sid [] || not (text_eq source sid)
    then record st { result = add_created (because o (foreign_origin source)) st.result }
    else record st { local = st.local ++ (o ∷ []) }

unfoldable pub source_system : Option Text → Result Text
unfolding to_upper
source_system none = err (plain (codes "no TADIR entry"))
source_system (some cell) = ok (to_upper cell)

module _ (b : Backend) where
  unfoldable pub tadir_source_system : Text → Text → Exec Text
  unfolding query_one equals_name escape_value source_system lift ◌>>=◌
  tadir_source_system object_type name = do
    found ← query_one b (
        equals_name
          (codes "SELECT SRCSYSTEM FROM TADIR WHERE PGMID = 'R3TR' AND OBJECT = '"
            ++ (escape_value object_type ++ codes "' AND OBJ_NAME"))
          name)
    lift (source_system found)

  unfoldable pub check_origin : Text → CreatedObject → OriginScan → Exec OriginScan
  unfolding because add_failed tadir_source_system note_origin attempt pure ◌>>=◌
  check_origin sid o st = elim st.rejected [
    | some e ↦ pure (record st { result = add_failed (because o (not_deleted e)) st.result })
    | none ↦ do
      source ← attempt (tadir_source_system o.entry.object_type o.entry.name)
      pure (note_origin sid o source st)
  ]

  unfoldable pub check_origins : Text → List CreatedObject → OriginScan → Exec OriginScan
  unfolding check_origin pure ◌>>=◌
  check_origins sid [] st = pure st
  check_origins sid (o ∷ objs) st = do st' ← check_origin sid o st; check_origins sid objs st'

  unfoldable pub keep_local_origin : List CreatedObject → Text → RollbackResult → Exec OriginScan
  unfolding check_origins system_of
  keep_local_origin objs request result =
      check_origins (system_of request) objs
        (record { local = []; rejected = none; result = result })

-- The variables of a round: `next`, `rejected` and the result.
pub record Round : Type 0 where
  pub kept : List CreatedObject
  pub rejected : Option GoError
  pub result : RollbackResult

unfoldable pub is_not_found : ErrorKind → Bool
is_not_found not_found = true
is_not_found _ = false

unfoldable pub keep_failed : CreatedObject → GoError → Round → Round
unfolding rejection
keep_failed o e st = record st {
  kept = st.kept ++ (record o { last_err = some e } ∷ []);
  rejected = rejection e;
}

unfoldable pub note_deletion : CreatedObject → Result (Unit {0}) → Round → Round
unfolding add_deleted is_not_found error_kind keep_failed
note_deletion o (ok done) st = record st { result = add_deleted o.entry st.result }
note_deletion o (err e) st =
    if is_not_found (error_kind e)
    then record st { result = add_deleted o.entry st.result }
    else keep_failed o e st

-- Why an object is left: `rejected.Error()` without an error would panic.
unfoldable pub left_reason : Option GoError → Bool → Option GoError → Reason
left_reason (some e) true (some r) = not_retried e r
left_reason (some e) true none = nil_error
left_reason (some e) false rejected = delete_failed e
left_reason none b (some r) = delete_not_attempted r
left_reason none b none = nil_error

unfoldable pub report_left : Option GoError → List CreatedObject → RollbackResult → RollbackResult
unfolding because left_reason add_failed
report_left rejected [] result = result
report_left rejected (o ∷ objs) result =
    report_left rejected objs
      (add_failed (because o (left_reason o.last_err o.skipped_retry rejected)) result)

-- Behind a round of `count` objects: is there another one?
unfoldable pub goes_on : ℕ → Round → Bool
goes_on count st =
    ltb (length st.kept) count && (ltb 0 (length st.kept) && not (is_some st.rejected))

module _ (b : Backend) (request : Text) where
  unfoldable pub delete_call : CreatedObject → Exec (Unit {0})
  unfolding perform
  delete_call o = perform (delete_object o.uri request) (λ log. b.delete log o.uri request)

  unfoldable pub delete_one : CreatedObject → Round → Exec Round
  unfolding delete_call note_deletion attempt pure ◌>>=◌
  delete_one o st = elim st.rejected [
    | some e ↦ pure (record st { kept = st.kept ++ (record o { skipped_retry = true } ∷ []) })
    | none ↦ do r ← attempt (delete_call o); pure (note_deletion o r st)
  ]

  unfoldable pub delete_round : List CreatedObject → Round → Exec Round
  unfolding delete_one pure ◌>>=◌
  delete_round [] st = pure st
  delete_round (o ∷ objs) st = do st' ← delete_one o st; delete_round objs st'

  -- The loop on fuel: none where it ran out. At the start of a round there is no rejection.
  unfoldable pub delete_rounds : ℕ → List CreatedObject → RollbackResult → Exec (Option Round)
  unfolding delete_round goes_on pure ◌>>=◌
  delete_rounds zero pending result = pure none
  delete_rounds (suc fuel) pending result = do
    st ← delete_round pending (record { kept = []; rejected = none; result = result })
    if goes_on (length pending) st then delete_rounds fuel st.kept st.result else pure (some st)

  unfoldable pub report_round : Option Round → Result RollbackResult
  unfolding report_left
  report_round none = err (plain (codes "the model's fuel ran out"))
  report_round (some st) = ok (report_left st.rejected st.kept st.result)

  -- One round for each object is enough, since every further round has fewer of them.
  unfoldable pub delete_created_objects : List CreatedObject → RollbackResult → Exec RollbackResult
  unfolding delete_rounds report_round lift ◌>>=◌
  delete_created_objects objs result = do
    st ← delete_rounds (suc (length objs)) objs result
    lift (report_round st)
