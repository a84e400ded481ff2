-- ===== src/Rollback/Safety/Unheeded.antt =====
-- A 401 that the deletion does not heed: the one that keepLocalOrigin meets.
use adtler.Prelude.{
  ℕ, zero, suc, ◌≡◌, refl, ap, true, false, List, [], ◌∷◌, ◌++◌, none, Text, length,
}
use adtler.Adt.{
  ok, Backend, Call, delete_object, Event, Log, pure, perform, attempt, continue, ◌>>=◌,
}
use adtler.Adt.Stops.{calm}
use adtler.Adt.Keeps.{
  Keeps, Keeps-pure, Keeps-perform, Keeps-if, Keeps-lift, Keeps-attempt, Keeps-option, Keeps-bind,
  Keeps-behind,
}
use adtler.Rollback.Entries.{RollbackResult}
use adtler.Rollback.Deletion.{
  CreatedObject, OriginScan, keep_local_origin, Round, note_deletion, delete_call, delete_one,
  delete_round, goes_on, delete_rounds, delete_created_objects,
}
use adtler.Rollback.Transport.{delete_found}

-- The call was made directly behind these calls, and others may have followed it.
abbrev pub Follows : Log → Call → Log → Type 0
Follows before c log = (later : Log) × (ev : Event) × (log ≡ later ++ (ev ∷ before)) × (ev.call ≡ c)

Follows-later :
    (before : Log) (c : Call) (ev : Event) (log : Log)
    → Follows before c log
    → Follows before c (ev ∷ log)
Follows-later before c ev log (later, first, e, same) =
    (ev ∷ later, first, ap (λ l. ev ∷ l) e, same)

abbrev fresh_round : RollbackResult → Round
fresh_round result = record { kept = []; rejected = none; result = result }

module _ (b : Backend) (request : Text) (before : Log) (c : Call) where
  abbrev Sent : Log → Type 0
  Sent = Follows before c

  delete_call-Keeps : (o : CreatedObject) → Keeps Sent (delete_call b request o)
  unfolding delete_call
  delete_call-Keeps o =
      Keeps-perform Sent (delete_object o.uri request) (λ log. b.delete log o.uri request)
        (λ log rejected h. Follows-later before c _ log h)

  delete_one-Keeps : (o : CreatedObject) (st : Round) → Keeps Sent (delete_one b request o st)
  unfolding delete_one
  delete_one-Keeps o st =
      Keeps-option Sent st.rejected _ _
        (Keeps-bind Sent (attempt (delete_call b request o)) _
          (Keeps-attempt Sent (delete_call b request o) (delete_call-Keeps o))
          (λ r. Keeps-pure Sent (note_deletion o r st)))
        (λ e.
          Keeps-pure Sent
            (record st { kept = st.kept ++ (record o { skipped_retry = true } ∷ []) }))

  delete_round-Keeps :
      (objs : List CreatedObject) (st : Round) → Keeps Sent (delete_round b request objs st)
  unfolding delete_round
  delete_round-Keeps [] st = Keeps-pure Sent st
  delete_round-Keeps (o ∷ objs) st =
      Keeps-bind Sent (delete_one b request o st) _ (delete_one-Keeps o st)
        (λ st'. delete_round-Keeps objs st')

  delete_rounds-Keeps :
      (fuel : ℕ) (pending : List CreatedObject) (result : RollbackResult)
      → Keeps Sent (delete_rounds b request fuel pending result)
  unfolding delete_rounds
  delete_rounds-Keeps zero pending result = Keeps-pure Sent none
  delete_rounds-Keeps (suc fuel) pending result =
      Keeps-bind Sent (delete_round b request pending _) _ (delete_round-Keeps pending _) (λ st.
        Keeps-if Sent (goes_on (length pending) st) _ _ (delete_rounds-Keeps fuel st.kept st.result)
          (Keeps-pure Sent _))

module _ (b : Backend) (request : Text) (o : CreatedObject) (log : Log) where
  abbrev FirstSent : Log → Type 0
  FirstSent = Follows log (delete_object o.uri request)

  -- The first object's deletion is sent.
  delete_one-sends :
      (result : RollbackResult) → FirstSent (delete_one b request o (fresh_round result) log).1
  unfolding delete_one delete_call perform attempt ◌>>=◌ continue pure
  delete_one-sends result = ([], _, refl, refl)

  delete_created_objects-sends :
      (objs : List CreatedObject) (result : RollbackResult)
      → FirstSent (delete_created_objects b request (o ∷ objs) result log).1
  unfolding delete_created_objects delete_rounds delete_round
  delete_created_objects-sends objs result =
      let first = delete_object o.uri request in
      Keeps-behind FirstSent (delete_rounds b request (suc (suc (length objs))) (o ∷ objs) result) _
        log
        (Keeps-behind FirstSent (delete_round b request (o ∷ objs) (fresh_round result)) _ log
          (Keeps-behind FirstSent (delete_one b request o (fresh_round result)) _ log
            (delete_one-sends result) (λ st. delete_round-Keeps b request log first objs st))
          (λ st.
            Keeps-if FirstSent (goes_on (suc (length objs)) st) _ _
              (delete_rounds-Keeps b request log first (suc (length objs)) st.kept st.result)
              (Keeps-pure FirstSent _)))
        (λ r. Keeps-lift FirstSent _)

-- Where no call before keepLocalOrigin has been answered with 401, but a query of keepLocalOrigin
-- is, and keepLocalOrigin has confirmed objects all the same, deletions are sent: the call directly
-- behind the queries of keepLocalOrigin is the deletion of the first confirmed object.
pub delete_found-sends_on :
    (b : Backend) (request : Text) (objs : List CreatedObject) (result : RollbackResult)
    (log log' : Log) (origins : OriginScan) (o : CreatedObject) (rest : List CreatedObject)
    → calm log ≡ true
    → keep_local_origin b objs request result log ≡ (ok origins, log')
    → calm log' ≡ false
    → origins.local ≡ o ∷ rest
    → Follows log' (delete_object o.uri request) (delete_found b request objs result log).1
unfolding delete_found ◌>>=◌ continue
delete_found-sends_on b request objs result log log' origins o rest quiet_before kept rejected
      found =
    rw (kept, found) (delete_created_objects-sends b request o log' rest origins.result)
