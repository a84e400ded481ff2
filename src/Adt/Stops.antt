-- ===== src/Adt/Stops.antt =====
-- Actions that call nothing more once a call has been answered with 401, and whose calls are all
-- allowed. The release of a lock is left out: its 401 need not stop an action.
use adtler.Prelude.{
  ◌≡◌, ◌∙◌, sym, ◌⊎◌, inl, inr, refl, Bool, true, false, not, ◌||◌, [], ◌∷◌, if◌then◌else◌, all,
  All, Text, ||_true, Bool-cases,
}
use adtler.Adt.{
  GoError, is_unauthorized, as_adt, Result, ok, err, Call, unlock_object, delete_object, Event, Log,
  Exec, is_rejected, pure, raise, lift, perform, wrap_result, wrap_error, attempt, continue, ◌>>=◌,
}

unfoldable pub is_unlock : Call → Bool
is_unlock (unlock_object uri handle) = true
is_unlock _ = false

unfoldable pub is_delete : Call → Bool
is_delete (delete_object uri request) = true
is_delete _ = false

-- An event behind which calls may follow.
unfoldable pub is_fine : Event → Bool
unfolding is_unlock
is_fine ev = not ev.rejected || is_unlock ev.call

abbrev pub calm : Log → Bool
calm = all is_fine

-- No call follows one that was answered with 401, but for the release of a lock.
unfoldable pub quiet : Log → Bool
quiet [] = true
quiet (ev ∷ log) = calm log

-- Which calls an action may make, and whether it has to stop behind a 401.
pub record Policy : Type 1 where
  pub allows : Call → Type 0
  pub strict : Bool

-- Every call is allowed.
abbrev pub any_call : Policy
any_call = record { allows = λ c. Unit; strict = true }

abbrev pub CallsAllowed : Policy → Log → Type 0
CallsAllowed P = All (λ (ev : Event). P.allows ev.call)

-- A log behind which calls may follow where `stopped` is false.
pub record Ready (P : Policy) (stopped : Bool) (log : Log) : Type 0 where
  pub allowed : CallsAllowed P log
  pub quietly : P.strict ≡ true → quiet log ≡ true
  pub open_end : P.strict ≡ true → (calm log ≡ true) ⊎ (stopped ≡ true)

-- Whether a result tells of a 401: by its error, or by `f`.
unfoldable pub flagged : {A : Type 0} → (A → Bool) → Result A → Bool
flagged f (ok a) = f a
flagged f (err e) = is_unauthorized e

-- `stopped` tells of a 401 before the action, and its result of one behind it.
pub record Steps (P : Policy) {A : Type 0} (f : A → Bool) (stopped : Bool) (m : Exec A)
    : Type 0 where
  pub at : (log : Log) → Ready P stopped log → Ready P (flagged f (m log).0) (m log).1

abbrev pub never : {A : Type 0} → A → Bool
never _ = false

-- For an action behind which nothing is called, whatever it returns.
abbrev pub ended : {A : Type 0} → A → Bool
ended _ = true

module _ (P : Policy) where
  abbrev pub Stops : {A : Type 0} → Exec A → Type 0
  Stops m = Steps P never false m

  pub Ready-weaken :
      (a c : Bool) (log : Log) → (a ≡ true → c ≡ true) → Ready P a log → Ready P c log
  Ready-weaken a c log h r = record {
    allowed = r.allowed;
    quietly = r.quietly;
    open_end = λ strict. elim (r.open_end strict) [ inl q ↦ inl q | inr q ↦ inr (h q) ];
  }

  pub Ready-calm : (log : Log) → Ready P false log → P.strict ≡ true → calm log ≡ true
  Ready-calm log r strict = elim (r.open_end strict) [ inl q ↦ q | inr q ↦ absurd (cc q) ]

  Ready-relax : P.strict ≡ false → (a c : Bool) (log : Log) → Ready P a log → Ready P c log
  Ready-relax lax a c log r = record {
    allowed = r.allowed;
    quietly = r.quietly;
    open_end = λ strict. absurd (cc (lax, strict));
  }

  pub Ready-start : Ready P false []
  unfolding quiet
  Ready-start = record { allowed = tt; quietly = λ _. refl; open_end = λ _. inl refl }

  module _ {A : Type 0} where
    is_rejected-flagged : (r : Result A) → is_rejected r ≡ flagged never r
    unfolding is_rejected flagged
    is_rejected-flagged (ok a) = refl
    is_rejected-flagged (err e) = refl

    pub Steps-pure :
        (f : A → Bool) (b : Bool) (a : A) → (b ≡ true → f a ≡ true) → Steps P f b (pure a)
    unfolding pure flagged
    Steps-pure f b a h = record { at = λ log r. Ready-weaken b (f a) log h r }

    pub Steps-raise :
        (f : A → Bool) (b : Bool) (e : GoError)
        → (b ≡ true → is_unauthorized e ≡ true)
        → Steps P f b (raise {A = A} e)
    unfolding raise flagged
    Steps-raise f b e h = record { at = λ log r. Ready-weaken b (is_unauthorized e) log h r }

    pub Stops-pure : (a : A) → Stops (pure a)
    Stops-pure a = Steps-pure never false a (λ q. q)

    pub Stops-raise : (e : GoError) → Stops (raise {A = A} e)
    Stops-raise e = Steps-raise never false e (λ q. cc)

    pub Steps-lift :
        (f : A → Bool) (b : Bool) (r : Result A)
        → (b ≡ true → flagged f r ≡ true)
        → Steps P f b (lift r)
    unfolding lift
    Steps-lift f b r q = record { at = λ log h. Ready-weaken b (flagged f r) log q h }

    -- Behind a value nothing is called.
    pub Steps-end : (b : Bool) (a : A) → Steps P ended b (pure a)
    Steps-end b a = Steps-pure ended b a (λ q. refl)

    pub Stops-lift : (r : Result A) → Stops (lift r)
    unfolding lift
    Stops-lift r = record { at = λ log h. Ready-weaken false (flagged never r) log (λ q. cc) h }

    pub Stops-perform : (c : Call) (answer : Log → Result A) → P.allows c → Stops (perform c answer)
    unfolding perform quiet is_fine
    Stops-perform c answer e = record {
      at = λ log h. record {
        allowed = (e, h.allowed);
        quietly = Ready-calm log h;
        open_end = λ strict. elim (Bool-cases (is_rejected (answer log))) [
          | inl x ↦ inr (sym (is_rejected-flagged (answer log)) ∙ x)
          | inr x ↦ inl (rw x (Ready-calm log h strict))
        ];
      };
    }

    is_unauthorized-wrap_result :
        (t : Text) (f : A → Bool) (r : Result A) → flagged f (wrap_result t r) ≡ flagged f r
    unfolding wrap_result is_unauthorized as_adt flagged
    is_unauthorized-wrap_result t f (ok a) = refl
    is_unauthorized-wrap_result t f (err e) = refl

    pub Steps-wrap_error :
        (f : A → Bool) (b : Bool) (t : Text) (m : Exec A)
        → Steps P f b m
        → Steps P f b (wrap_error t m)
    unfolding wrap_error
    Steps-wrap_error f b t m s = record {
      at = λ log h. let same = is_unauthorized-wrap_result t f (m log).0 in rw same (s.at log h);
    }

    pub Steps-if :
        (f : A → Bool) (b : Bool) (t : Bool) (m n : Exec A)
        → (t ≡ true → Steps P f b m)
        → (t ≡ false → Steps P f b n)
        → Steps P f b (if t then m else n)
    Steps-if f b true m n hm hn = hm refl
    Steps-if f b false m n hm hn = hn refl

    pub Steps-attempt :
        (f : A → Bool) (b : Bool) (m : Exec A) → Steps P f b m → Steps P (flagged f) b (attempt m)
    unfolding attempt flagged
    Steps-attempt f b m s = record { at = λ log h. s.at log h }

    -- The release of a lock whose failure is passed over.
    pub Stops-attempt_unlock :
        (c : Call) (answer : Log → Result (Unit {0})) (a : A)
        → is_unlock c ≡ true
        → P.allows c
        → Stops (attempt (perform c answer) >>= λ r. pure a)
    unfolding attempt perform ◌>>=◌ pure quiet is_fine flagged continue
    Stops-attempt_unlock c answer a e q = record {
      at = λ log h. record {
        allowed = (q, h.allowed);
        quietly = Ready-calm log h;
        open_end = λ strict.
            inl (rw (e, ||_true (not (is_rejected (answer log)))) (Ready-calm log h strict));
      };
    }

    -- Without the duty to stop, it does not matter what the results tell.
    pub Steps-relax :
        P.strict ≡ false
        → (f g : A → Bool) (b c : Bool) (m : Exec A) → Steps P f b m
        → Steps P g c m
    Steps-relax lax f g b c m s = record {
      at = λ log r. Ready-relax lax _ _ _ (s.at log (Ready-relax lax c b log r));
    }

  module _ {A B : Type 0} where
    Steps-continue :
        (f : A → Bool) (g : B → Bool) (r : Result A) (k : A → Exec B) (log : Log)
        → ((a : A) → Steps P g (f a) (k a))
        → Ready P (flagged f r) log
        → Ready P (flagged g (continue r k log).0) (continue r k log).1
    unfolding continue flagged
    Steps-continue f g (ok a) k log hk h = (hk a).at log h
    Steps-continue f g (err e) k log hk h = h

    pub Steps-bind :
        (f : A → Bool) (g : B → Bool) (b : Bool) (m : Exec A) (k : A → Exec B)
        → Steps P f b m
        → ((a : A) → Steps P g (f a) (k a))
        → Steps P g b (m >>= k)
    unfolding ◌>>=◌
    Steps-bind f g b m k hm hk = record {
      at = λ log h. Steps-continue f g (m log).0 k (m log).1 hk (hm.at log h);
    }

    pub Stops-bind :
        (m : Exec A) (k : A → Exec B) → Stops m → ((a : A) → Stops (k a)) → Stops (m >>= k)
    Stops-bind m k hm hk = Steps-bind never never false m k hm hk

  module _ {A : Type 0} where
    pub Stops-wrap_error : (t : Text) (m : Exec A) → Stops m → Stops (wrap_error t m)
    Stops-wrap_error t m s = Steps-wrap_error never false t m s

    pub Stops-if : (t : Bool) (m n : Exec A) → Stops m → Stops n → Stops (if t then m else n)
    Stops-if t m n hm hn = Steps-if never false t m n (λ _. hm) (λ _. hn)

pub ruleset stops_rules =
    (Stops-pure, Stops-raise, Stops-lift, Stops-perform, Stops-wrap_error, Stops-if, Stops-bind)
