-- ===== src/Rollback/Quiet/Deleting.antt =====
-- The deletion rounds of adt/rollback.go stop behind a 401, and delete only what they are given.
use adtler.Prelude.{
  ◌≡◌, refl, inl, inr, ℕ, zero, suc, Bool, true, false, List, [], ◌∷◌, All, All-append, Option,
  none, some, is_some, is_some-of, arith, Text, length, Bool-cases,
}
use adtler.Adt.{Result, ok, err, Backend, delete_object, lift, error_kind}
use adtler.Adt.Stops.{
  Policy, Steps, Stops, Stops-perform, Steps-lift, flagged, ended, Steps-pure, Steps-bind, Steps-if,
}
use adtler.Adt.Handling.{Steps-note}
use adtler.Adt.Yields.{
  Yields, Yields-pure, Yields-option, Yields-note, Yields-bind, Steps-bind_with,
}
use adtler.Rollback.Entries.{RollbackResult}
use adtler.Rollback.Deletion.{
  CreatedObject, Round, is_not_found, keep_failed, note_deletion, delete_call, delete_one,
  delete_round, goes_on, delete_rounds, report_round, delete_created_objects,
}
use adtler.Rollback.Quiet.Loops.{Steps-unless_rejected, note_deletion-rejected}

-- Another round only where none was rejected.
goes_on-calm : (count : ℕ) (st : Round) → goes_on count st ≡ true → is_some st.rejected ≡ false
unfolding goes_on
goes_on-calm count st h = ground arith

module _ (b : Backend) (P : Policy) (request : Text) where
  abbrev Deletable : CreatedObject → Type 0
  Deletable o = P.allows (delete_object o.uri request)

  note_deletion-Deletable :
      (o : CreatedObject) (r : Result (Unit {0})) (st : Round)
      → Deletable o
      → All Deletable st.kept
      → All Deletable (note_deletion o r st).kept
  unfolding note_deletion keep_failed
  note_deletion-Deletable o (ok done) st d h = h
  note_deletion-Deletable o (err e) st d h = elim (Bool-cases (is_not_found (error_kind e))) [
    | inl x ↦ rw x h
    | inr x ↦ rw x (All-append Deletable st.kept _ h (d, tt))
  ]

  delete_one-Deletable :
      (o : CreatedObject) (st : Round)
      → Deletable o
      → All Deletable st.kept
      → Yields (λ st'. All Deletable st'.kept) (delete_one b request o st)
  unfolding delete_one
  delete_one-Deletable o st d h =
      Yields-option _ st.rejected _ _
        (λ _.
          Yields-note _ (delete_call b request o) (λ r. note_deletion o r st)
            (λ log. note_deletion-Deletable o (delete_call b request o log).0 st d h))
        (λ e _. Yields-pure _ _ (All-append Deletable st.kept _ h (d, tt)))

  delete_round-Deletable :
      (objs : List CreatedObject) (st : Round)
      → All Deletable objs
      → All Deletable st.kept
      → Yields (λ st'. All Deletable st'.kept) (delete_round b request objs st)
  unfolding delete_round
  delete_round-Deletable [] st d h = Yields-pure _ st h
  delete_round-Deletable (o ∷ objs) st (d, ds) h =
      Yields-bind _ _ (delete_one b request o st) _ (delete_one-Deletable o st d h)
        (λ st' h'. delete_round-Deletable objs st' ds h')

  delete_call-Stops : (o : CreatedObject) → Deletable o → Stops P (delete_call b request o)
  unfolding delete_call
  delete_call-Stops o d =
      Stops-perform P (delete_object o.uri request) (λ log. b.delete log o.uri request) d

  delete_one-Steps :
      (o : CreatedObject) (st : Round)
      → Deletable o
      → Steps P (λ st'. is_some st'.rejected) (is_some st.rejected) (delete_one b request o st)
  unfolding delete_one
  delete_one-Steps o st d =
      Steps-unless_rejected P _ st.rejected _ _
        (λ _.
          Steps-note P _ _ (λ r. note_deletion o r st) (delete_call-Stops o d)
            (λ e h. note_deletion-rejected o e st h))
        (λ e q. Steps-pure P _ _ _ (λ _. is_some-of st.rejected e q))

  delete_round-Steps :
      (objs : List CreatedObject) (st : Round)
      → All Deletable objs
      → Steps P (λ st'. is_some st'.rejected) (is_some st.rejected) (delete_round b request objs st)
  unfolding delete_round
  delete_round-Steps [] st d = Steps-pure P _ _ st (λ q. q)
  delete_round-Steps (o ∷ objs) st (d, ds) =
      Steps-bind P _ _ _ (delete_one b request o st) _ (delete_one-Steps o st d)
        (λ st'. delete_round-Steps objs st' ds)

  abbrev round_rejected : Option Round → Bool
  round_rejected none = false
  round_rejected (some st) = is_some st.rejected

  delete_rounds-Steps :
      (fuel : ℕ) (pending : List CreatedObject) (result : RollbackResult)
      → All Deletable pending
      → Steps P round_rejected false (delete_rounds b request fuel pending result)
  unfolding delete_rounds
  delete_rounds-Steps zero pending result d = Steps-pure P round_rejected false none (λ q. q)
  delete_rounds-Steps (suc fuel) pending result d =
      Steps-bind_with P (λ st. is_some st.rejected) round_rejected false _
        (delete_round b request pending _) _ (delete_round-Steps pending _ d)
        (delete_round-Deletable pending _ d tt)
        (λ st h.
          Steps-if P round_rejected _ (goes_on (length pending) st) _ _
            (λ q. rw (goes_on-calm _ st q) (delete_rounds-Steps fuel st.kept st.result h))
            (λ q. Steps-pure P round_rejected _ (some st) (λ x. x)))

  -- The report sends nothing.
  report_round-Steps :
      (r : Option Round) → Steps P ended (round_rejected r) (lift (report_round b request r))
  unfolding report_round flagged
  report_round-Steps none = Steps-lift P ended false (report_round b request none) (λ q. cc)
  report_round-Steps (some st) = Steps-lift P ended _ (report_round b request (some st)) (λ q. refl)

  pub delete_created_objects-Steps :
      (objs : List CreatedObject) (result : RollbackResult)
      → All Deletable objs
      → Steps P ended false (delete_created_objects b request objs result)
  unfolding delete_created_objects
  delete_created_objects-Steps objs result d =
      Steps-bind P round_rejected ended false
        (delete_rounds b request (suc (length objs)) objs result) _
        (delete_rounds-Steps (suc (length objs)) objs result d) report_round-Steps
