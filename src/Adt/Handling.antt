-- ===== src/Adt/Handling.antt =====
-- Actions that handle an error as a value, or go on by the cases of a value: when they stop.
use adtler.Prelude.{◌≡◌, refl, Bool, true, false, List, [], ◌∷◌, Option, none, some}
use adtler.Adt.{GoError, is_unauthorized, Result, ok, err, Exec, pure, attempt, ◌>>=◌}
use adtler.Adt.Stops.{Policy, Steps, Stops, never, flagged, Steps-bind, Steps-attempt, Steps-pure}

module _ (P : Policy) where
  module _ {A B : Type 0} where
    result_cases :
        (f : B → Bool) (k : Result A → Exec B)
        → ((a : A) → Steps P f false (k (ok a)))
        → ((e : GoError) → Steps P f (is_unauthorized e) (k (err e)))
        → (r : Result A) → Steps P f (flagged never r) (k r)
    unfolding flagged
    result_cases f k good failed (ok a) = good a
    result_cases f k good failed (err e) = failed e

    -- What follows an attempted call, with the handler of its error.
    pub Steps-handle :
        (f : B → Bool) (m : Exec A) (k : A → Exec B) (h : GoError → Exec B)
        → Stops P m
        → ((a : A) → Steps P f false (k a))
        → ((e : GoError) → Steps P f (is_unauthorized e) (h e))
        → Steps P f false (attempt m >>= λ r. elim r [ ok a ↦ k a | err e ↦ h e ])
    Steps-handle f m k h hm good failed =
        Steps-bind P (flagged never) f false (attempt m) (λ r. elim r [ ok a ↦ k a | err e ↦ h e ])
          (Steps-attempt P never false m hm)
          (result_cases f (λ r. elim r [ ok a ↦ k a | err e ↦ h e ]) good failed)

    -- Code that notes the result of an attempted call in its state.
    pub Steps-note :
        (f : B → Bool) (m : Exec A) (k : Result A → B)
        → Stops P m
        → ((e : GoError) → is_unauthorized e ≡ true → f (k (err e)) ≡ true)
        → Steps P f false (attempt m >>= λ r. pure (k r))
    Steps-note f m k hm noted =
        Steps-bind P (flagged never) f false (attempt m) (λ r. pure (k r))
          (Steps-attempt P never false m hm)
          (result_cases f (λ r. pure (k r)) (λ a. Steps-pure P f false _ (λ q. cc))
            (λ e. Steps-pure P f (is_unauthorized e) _ (noted e)))

    pub Stops-option :
        (o : Option A) (m : Exec B) (k : A → Exec B)
        → Stops P m
        → ((a : A) → Stops P (k a))
        → Stops P (elim o [ none ↦ m | some a ↦ k a ])
    Stops-option none m k hm hk = hm
    Stops-option (some a) m k hm hk = hk a

    pub Steps-list :
        (f : B → Bool) (b : Bool) (xs : List A) (m : Exec B) (k : A → List A → Exec B)
        → (xs ≡ [] → Steps P f b m)
        → ((x : A) (xs' : List A) → xs ≡ x ∷ xs' → Steps P f b (k x xs'))
        → Steps P f b (elim xs [ [] ↦ m | x ∷ xs' ↦ k x xs' ])
    Steps-list f b [] m k hm hk = hm refl
    Steps-list f b (x ∷ xs) m k hm hk = hk x xs refl

    pub Stops-list :
        (xs : List A) (m : Exec B) (k : A → List A → Exec B)
        → Stops P m
        → ((x : A) (xs : List A) → Stops P (k x xs))
        → Stops P (elim xs [ [] ↦ m | x ∷ xs' ↦ k x xs' ])
    Stops-list [] m k hm hk = hm
    Stops-list (x ∷ xs) m k hm hk = hk x xs
