-- ===== src/Rollback/Safety/Listed.antt =====
-- Where the targets of a rollback come from: the entries of the transport.
use adtler.Prelude.{
  ◌≡◌, ◌⊎◌, refl, inl, inr, List, [], ◌∷◌, All, All-append, All-map, codes, text_eq, any, to_lower,
  Bool-cases,
}
use adtler.Adt.{ok, err, Result, TransportObject, Backend, Log}
use adtler.Adt.Yields.{Yields, Yields-pure, Yields-if, Yields-option, Yields-note, Yields-bind}
use adtler.Rollback.Entries.{RollbackTarget, Resolution, target, skip, RollbackResult}
use adtler.Rollback.Targets.{
  resolve_rollback_target, TargetScan, note_target, scan_object, scan_objects, rollback_targets,
}

abbrev pub StandsIn : {A : Type 0} → A → List A → Type 0
StandsIn x [] = ⊥
StandsIn x (y ∷ ys) = (x ≡ y) ⊎ StandsIn x ys

all-StandsIn : {A : Type 0} (xs : List A) → All (λ x. StandsIn x xs) xs
all-StandsIn [] = tt
all-StandsIn (x ∷ xs) = (inl refl, All-map (λ y h. inr h) xs (all-StandsIn xs))

module _ (b : Backend) (objects : List TransportObject) where
  -- resolveRollbackTarget has resolved an entry of the transport to the target.
  pub record FromEntry (t : RollbackTarget) : Type 0 where
    pub entry : TransportObject
    pub listed : StandsIn entry objects
    pub resolving : Log
    pub resolved : (resolve_rollback_target b entry resolving).0 ≡ ok (target t)

  note_target-FromEntry :
      (obj : TransportObject) (r : Result Resolution) (st : TargetScan)
      → ((t : RollbackTarget) → r ≡ ok (target t) → FromEntry t)
      → All FromEntry st.targets
      → All FromEntry (note_target obj r st).targets
  unfolding note_target
  note_target-FromEntry obj (err e) st c h = h
  note_target-FromEntry obj (ok (skip r)) st c h = h
  note_target-FromEntry obj (ok (target t)) st c h =
      elim (Bool-cases (any (text_eq (to_lower t.uri)) st.seen)) [
        | inl x ↦ rw x h
        | inr x ↦ rw x (All-append FromEntry st.targets _ h (c t refl, tt))
      ]

  scan_object-FromEntry :
      (obj : TransportObject) (st : TargetScan)
      → StandsIn obj objects
      → All FromEntry st.targets
      → Yields (λ st'. All FromEntry st'.targets) (scan_object b obj st)
  unfolding scan_object
  scan_object-FromEntry obj st listed h =
      Yields-if _ (text_eq obj.pgm_id (codes "CORR")) _ _ (λ _. Yields-pure _ st h)
        (λ _.
          Yields-option _ st.rejected _ _
            (λ _.
              Yields-note _ (resolve_rollback_target b obj) (λ r. note_target obj r st)
                (λ log.
                  note_target-FromEntry obj (resolve_rollback_target b obj log).0 st
                    (λ t e. record { entry = obj; listed = listed; resolving = log; resolved = e })
                    h))
            (λ e _. Yields-pure _ _ h))

  scan_objects-FromEntry :
      (objs : List TransportObject) (st : TargetScan)
      → All (λ obj. StandsIn obj objects) objs
      → All FromEntry st.targets
      → Yields (λ st'. All FromEntry st'.targets) (scan_objects b objs st)
  unfolding scan_objects
  scan_objects-FromEntry [] st listed h = Yields-pure _ st h
  scan_objects-FromEntry (obj ∷ objs) st (l, listed) h =
      Yields-bind _ _ (scan_object b obj st) _ (scan_object-FromEntry obj st l h)
        (λ st' h'. scan_objects-FromEntry objs st' listed h')

  pub rollback_targets-FromEntry :
      (result : RollbackResult)
      → Yields (λ scan. All FromEntry scan.targets) (rollback_targets b objects result)
  unfolding rollback_targets
  rollback_targets-FromEntry result = scan_objects-FromEntry objects _ (all-StandsIn objects) tt
