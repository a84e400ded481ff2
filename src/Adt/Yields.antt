-- ===== src/Adt/Yields.antt =====
-- What holds of the value that an action returns, if it returns one.
use adtler.Prelude.{◌≡◌, refl, subst, Bool, true, false, Option, none, some, if◌then◌else◌, Text}
use adtler.Adt.{
  GoError, Result, ok, err, Call, Log, Exec, pure, raise, lift, perform, wrap_result, wrap_error,
  attempt, continue, ◌>>=◌,
}
use adtler.Adt.Stops.{Policy, Steps, Ready, flagged}

pub record Yields {A : Type 0} (Q : A → Type 0) (m : Exec A) : Type 0 where
  pub at : (log : Log) (a : A) → (m log).0 ≡ ok a → Q a

ok_injective : {A : Type 0} (Q : A → Type 0) (a a' : A) → Q a → ok a ≡ ok a' → Q a'
ok_injective Q a a' q h = subst Q (cc) q

module _ {A : Type 0} (Q : A → Type 0) where
  pub Yields-pure : (a : A) → Q a → Yields Q (pure a)
  unfolding pure
  Yields-pure a q = record { at = λ log a' h. ok_injective Q a a' q h }

  pub Yields-raise : (e : GoError) → Yields Q (raise e)
  unfolding raise
  Yields-raise e = record { at = λ log a' h. absurd (cc h) }

  pub Yields-lift : (r : Result A) → ((a : A) → r ≡ ok a → Q a) → Yields Q (lift r)
  unfolding lift
  Yields-lift r q = record { at = λ log a' h. q a' h }

  pub Yields-perform :
      (c : Call) (answer : Log → Result A)
      → ((log : Log) (a : A) → answer log ≡ ok a → Q a)
      → Yields Q (perform c answer)
  unfolding perform
  Yields-perform c answer q = record { at = q }

  wrap_result-ok : (t : Text) (r : Result A) (a : A) → wrap_result t r ≡ ok a → r ≡ ok a
  unfolding wrap_result
  wrap_result-ok t (ok b) a h = h
  wrap_result-ok t (err e) a h = absurd (cc h)

  pub Yields-wrap_error : (t : Text) (m : Exec A) → Yields Q m → Yields Q (wrap_error t m)
  unfolding wrap_error
  Yields-wrap_error t m y = record { at = λ log a h. y.at log a (wrap_result-ok t (m log).0 a h) }

  pub Yields-if :
      (t : Bool) (m n : Exec A)
      → (t ≡ true → Yields Q m)
      → (t ≡ false → Yields Q n)
      → Yields Q (if t then m else n)
  Yields-if true m n hm hn = hm refl
  Yields-if false m n hm hn = hn refl

module _ {A B : Type 0} (Q : B → Type 0) where
  pub Yields-option :
      (o : Option A) (m : Exec B) (k : A → Exec B)
      → (o ≡ none → Yields Q m)
      → ((a : A) → o ≡ some a → Yields Q (k a))
      → Yields Q (elim o [ none ↦ m | some a ↦ k a ])
  Yields-option none m k hm hk = hm refl
  Yields-option (some a) m k hm hk = hk a refl

  -- Code that notes the result of an attempted call in its state.
  pub Yields-note :
      (m : Exec A) (k : Result A → B)
      → ((log : Log) → Q (k (m log).0))
      → Yields Q (attempt m >>= λ r. pure (k r))
  unfolding attempt pure ◌>>=◌ continue
  Yields-note m k q = record { at = λ log a h. ok_injective Q (k (m log).0) a (q log) h }

  handled :
      (k : A → Exec B) (h : GoError → Exec B) (r : Result A) (log : Log) (b : B)
      → ((a : A) → r ≡ ok a → Yields Q (k a))
      → ((e : GoError) → Yields Q (h e))
      → (elim r as (λ _. Exec B) [ ok a ↦ k a | err e ↦ h e ] log).0 ≡ ok b
      → Q b
  handled k h (ok a) log b hk hh q = (hk a refl).at log b q
  handled k h (err e) log b hk hh q = (hh e).at log b q

  -- What follows an attempted call, with the handler of its error.
  pub Yields-handle :
      (m : Exec A) (k : A → Exec B) (h : GoError → Exec B)
      → ((log : Log) (a : A) → (m log).0 ≡ ok a → Yields Q (k a))
      → ((e : GoError) → Yields Q (h e))
      → Yields Q (attempt m >>= λ r. elim r [ ok a ↦ k a | err e ↦ h e ])
  unfolding attempt ◌>>=◌ continue
  Yields-handle m k h hk hh = record {
    at = λ log b q. handled k h (m log).0 (m log).1 b (hk log) hh q;
  }

module _ {A B : Type 0} (R : A → Type 0) (Q : B → Type 0) where
  Yields-continue :
      (r : Result A) (k : A → Exec B) (log : Log) (b : B)
      → ((a : A) → r ≡ ok a → R a)
      → ((a : A) → R a → Yields Q (k a))
      → (continue r k log).0 ≡ ok b
      → Q b
  unfolding continue
  Yields-continue (ok a) k log b hr hk h = (hk a (hr a refl)).at log b h
  Yields-continue (err e) k log b hr hk h = absurd (cc h)

  pub Yields-bind :
      (m : Exec A) (k : A → Exec B)
      → Yields R m
      → ((a : A) → R a → Yields Q (k a))
      → Yields Q (m >>= k)
  unfolding ◌>>=◌
  Yields-bind m k hm hk = record {
    at = λ log b h. Yields-continue (m log).0 k (m log).1 b (hm.at log) hk h;
  }

-- An action whose calls are allowed because of what an earlier one has returned.
module _ (P : Policy) {A B : Type 0} where
  Steps-continue_with :
      (f : A → Bool) (g : B → Bool) (Q : A → Type 0) (r : Result A) (k : A → Exec B) (log : Log)
      → ((a : A) → r ≡ ok a → Q a)
      → ((a : A) → Q a → Steps P g (f a) (k a))
      → Ready P (flagged f r) log
      → Ready P (flagged g (continue r k log).0) (continue r k log).1
  unfolding continue flagged
  Steps-continue_with f g Q (ok a) k log q hk h = (hk a (q a refl)).at log h
  Steps-continue_with f g Q (err e) k log q hk h = h

  pub Steps-bind_with :
      (f : A → Bool) (g : B → Bool) (b : Bool) (Q : A → Type 0) (m : Exec A) (k : A → Exec B)
      → Steps P f b m
      → Yields Q m
      → ((a : A) → Q a → Steps P g (f a) (k a))
      → Steps P g b (m >>= k)
  unfolding ◌>>=◌
  Steps-bind_with f g b Q m k hm y hk = record {
    at = λ log h. Steps-continue_with f g Q (m log).0 k (m log).1 (y.at log) hk (hm.at log h);
  }
