-- ===== src/Rollback/Accounting/Deleting.antt =====
-- The deletion rounds end, and account for every object.
use adtler.Prelude.{
  ℕ, zero, suc, ◌+◌, ◌<◌, ◌≡◌, ◌∙◌, ◌⊎◌, refl, inl, inr, true, false, List, [], ◌∷◌, ◌++◌, All,
  All-append, All-map, Option, none, some, is_some, is_some-of, length, length-append, Text,
  Bool-cases, arith,
}
use adtler.Adt.{GoError, Result, ok, err, Backend, error_kind}
use adtler.Adt.Gives.{
  Gives, Gives-pure, Gives-if, Gives-weaken, Gives-option, Gives-note, Gives-bind,
}
use adtler.Rollback.Entries.{RollbackResult, add_deleted}
use adtler.Rollback.Targets.{rejection}
use adtler.Rollback.Deletion.{
  CreatedObject, Round, is_not_found, keep_failed, note_deletion, delete_call, delete_one,
  delete_round, goes_on, delete_rounds,
}

-- Entries of the result that the deletion does not touch.
pub record SameBut (r r' : RollbackResult) : Type 0 where
  pub restored : r'.restored ≡ r.restored
  pub skipped : r'.skipped ≡ r.skipped
  pub created : r'.created ≡ r.created

pub SameBut-trans : (r s t : RollbackResult) → SameBut r s → SameBut s t → SameBut r t
SameBut-trans r s t a c = record {
  restored = c.restored ∙ a.restored;
  skipped = c.skipped ∙ a.skipped;
  created = c.created ∙ a.created;
}

-- `n` more objects are kept or deleted.
record Advances (n : ℕ) (st st' : Round) : Type 0 where
  counted :
      length st'.kept + length st'.result.deleted ≡ length st.kept + length st.result.deleted + n
  failed : st'.result.failed ≡ st.result.failed
  rest : SameBut st.result st'.result

deleted-Advances :
    (o : CreatedObject) (st : Round)
    → Advances 1 st (record st { result = add_deleted o.entry st.result })
unfolding add_deleted
deleted-Advances o st = record {
  counted = omega (arith, length-append st.result.deleted (o.entry ∷ []));
  failed = refl;
  rest = record { restored = refl; skipped = refl; created = refl };
}

kept-Advances :
    (o : CreatedObject) (rejected : Option GoError) (st : Round)
    → Advances 1 st (record st { kept = st.kept ++ (o ∷ []); rejected = rejected })
kept-Advances o rejected st = record {
  counted = omega (arith, length-append st.kept (o ∷ []));
  failed = refl;
  rest = record { restored = refl; skipped = refl; created = refl };
}

Advances-none : (st : Round) → Advances 0 st st
Advances-none st = record {
  counted = omega arith;
  failed = refl;
  rest = record { restored = refl; skipped = refl; created = refl };
}

Advances-next : (n : ℕ) (s t u : Round) → Advances 1 s t → Advances n t u → Advances (suc n) s u
Advances-next n s t u a c = record {
  counted = omega (arith, a.counted, c.counted);
  failed = c.failed ∙ a.failed;
  rest = SameBut-trans s.result t.result u.result a.rest c.rest;
}

-- Each object that is kept has failed in this round, or the round has met a 401.
abbrev pub HasFailed : CreatedObject → Type 0
HasFailed o = (is_some o.last_err ≡ true) × (o.skipped_retry ≡ false)

abbrev pub IsReported : Round → Type 0
IsReported st = All HasFailed st.kept ⊎ (is_some st.rejected ≡ true)

IsReported-keep :
    (o : CreatedObject) (e : GoError) (st : Round)
    → o.skipped_retry ≡ false
    → All HasFailed st.kept
    → IsReported (keep_failed o e st)
unfolding keep_failed
IsReported-keep o e st fresh h = inl (All-append HasFailed st.kept _ h ((refl, fresh), tt))

abbrev Noted : ℕ → Round → Round → Type 0
Noted n st st' = Advances n st st' × IsReported st'

note_deletion-Noted :
    (o : CreatedObject) (r : Result (Unit {0})) (st : Round)
    → o.skipped_retry ≡ false
    → All HasFailed st.kept
    → Noted 1 st (note_deletion o r st)
unfolding note_deletion keep_failed
note_deletion-Noted o (ok done) st fresh h = (deleted-Advances o st, inl h)
note_deletion-Noted o (err e) st fresh h = elim (Bool-cases (is_not_found (error_kind e))) [
  | inl x ↦ rw x (deleted-Advances o st, inl h)
  | inr x ↦ rw x (
    kept-Advances (record o { last_err = some e }) (rejection e) st,
    IsReported-keep o e st fresh h,
  )
]

none_rejected : (st : Round) → st.rejected ≡ none → IsReported st → All HasFailed st.kept
none_rejected st n (inl h) = h
none_rejected st n (inr h) = absurd (cc (rw n at h))

module _ (b : Backend) (request : Text) where
  delete_one-Noted :
      (o : CreatedObject) (st : Round)
      → o.skipped_retry ≡ false
      → IsReported st
      → Gives (Noted 1 st) (delete_one b request o st)
  unfolding delete_one
  delete_one-Noted o st fresh h =
      Gives-option _ st.rejected _ _
        (λ n.
          Gives-note _ (delete_call b request o) (λ r. note_deletion o r st)
            (λ r. note_deletion-Noted o r st fresh (none_rejected st n h)))
        (λ e q. Gives-pure _ _ (
          kept-Advances (record o { skipped_retry = true }) st.rejected st,
          inr (is_some-of st.rejected e q),
        ))

  delete_round-Noted :
      (objs : List CreatedObject) (st : Round)
      → All (λ o. o.skipped_retry ≡ false) objs
      → IsReported st
      → Gives (Noted (length objs) st) (delete_round b request objs st)
  unfolding delete_round
  delete_round-Noted [] st fresh h = Gives-pure _ st (Advances-none st, h)
  delete_round-Noted (o ∷ objs) st (f, fresh) h =
      Gives-bind _ _ (delete_one b request o st) _ (delete_one-Noted o st f h) (λ st' a.
        Gives-weaken _ _ (delete_round b request objs st')
          (λ st'' c. (Advances-next (length objs) st st' st'' a.0 c.0, c.1))
          (delete_round-Noted objs st' fresh a.1))

-- How the rounds for `pending` end.
pub record Finished (pending : List CreatedObject) (result : RollbackResult) (r : Option Round)
    : Type 0 where
  pub last : Round
  pub ended : r ≡ some last
  pub counted :
      length last.kept + length last.result.deleted ≡ length pending + length result.deleted
  pub failed : last.result.failed ≡ result.failed
  pub rest : SameBut result last.result
  pub reported : IsReported last

abbrev first_round : RollbackResult → Round
first_round result = record { kept = []; rejected = none; result = result }

goes_on-lt : (count : ℕ) (st : Round) → goes_on count st ≡ true → length st.kept < count
unfolding goes_on
goes_on-lt count st h = ground arith

goes_on-HasFailed :
    (count : ℕ) (st : Round) → goes_on count st ≡ true → IsReported st → All HasFailed st.kept
unfolding goes_on
goes_on-HasFailed count st h (inl f) = f
goes_on-HasFailed count st h (inr x) = absurd (ground arith)

Finished-here :
    (pending : List CreatedObject) (result : RollbackResult) (st : Round)
    → Noted (length pending) (first_round result) st
    → Finished pending result (some st)
Finished-here pending result st (a, h) = record {
  last = st;
  ended = refl;
  counted = omega (arith, a.counted);
  failed = a.failed;
  rest = a.rest;
  reported = h;
}

Finished-further :
    (pending : List CreatedObject) (result : RollbackResult) (st : Round) (r : Option Round)
    → Advances (length pending) (first_round result) st
    → Finished st.kept st.result r
    → Finished pending result r
Finished-further pending result st r a f = record {
  last = f.last;
  ended = f.ended;
  counted = omega (arith, a.counted, f.counted);
  failed = f.failed ∙ a.failed;
  rest = SameBut-trans result st.result f.last.result a.rest f.rest;
  reported = f.reported;
}

module _ (b : Backend) (request : Text) where
  -- More rounds than objects are enough.
  pub delete_rounds-Finished :
      (fuel : ℕ) (pending : List CreatedObject) (result : RollbackResult)
      → length pending < fuel
      → All (λ o. o.skipped_retry ≡ false) pending
      → Gives (Finished pending result) (delete_rounds b request fuel pending result)
  unfolding delete_rounds
  delete_rounds-Finished zero pending result lt fresh = absurd (omega arith)
  delete_rounds-Finished (suc fuel) pending result lt fresh =
      Gives-bind _ _ (delete_round b request pending (first_round result)) _
        (delete_round-Noted b request pending (first_round result) fresh (inl tt))
        (λ st a.
          Gives-if _ (goes_on (length pending) st) _ _
            (λ q.
              Gives-weaken _ _ (delete_rounds b request fuel st.kept st.result)
                (λ r f. Finished-further pending result st r a.0 f)
                (delete_rounds-Finished fuel st.kept st.result
                  (omega (arith, goes_on-lt (length pending) st q))
                  (All-map (λ o h. h.1) st.kept (goes_on-HasFailed (length pending) st q a.1))))
            (λ _. Gives-pure _ (some st) (Finished-here pending result st a)))
