-- ===== src/Adt/Gives.antt =====
-- Actions that return a value whatever is answered, and what holds of it.
use adtler.Prelude.{
  ◌≡◌, refl, subst, Bool, true, false, List, [], ◌∷◌, Option, none, some, if◌then◌else◌,
}
use adtler.Adt.{Result, ok, err, Log, Exec, pure, lift, attempt, continue, ◌>>=◌}

pub record Gives {A : Type 0} (Q : A → Type 0) (m : Exec A) : Type 0 where
  pub at : (log : Log) → (a : A) × ((m log).0 ≡ ok a) × Q a

module _ {A : Type 0} (Q : A → Type 0) where
  pub Gives-pure : (a : A) → Q a → Gives Q (pure a)
  unfolding pure
  Gives-pure a q = record { at = λ log. (a, refl, q) }

  pub Gives-lift : (r : Result A) (a : A) → r ≡ ok a → Q a → Gives Q (lift r)
  unfolding lift
  Gives-lift r a e q = record { at = λ log. (a, e, q) }

  pub Gives-if :
      (t : Bool) (m n : Exec A)
      → (t ≡ true → Gives Q m)
      → (t ≡ false → Gives Q n)
      → Gives Q (if t then m else n)
  Gives-if true m n hm hn = hm refl
  Gives-if false m n hm hn = hn refl

module _ {A : Type 0} (R Q : A → Type 0) where
  pub Gives-weaken : (m : Exec A) → ((a : A) → R a → Q a) → Gives R m → Gives Q m
  Gives-weaken m f g = record { at = λ log. let (a, e, r) = g.at log in (a, e, f a r) }

module _ {A B : Type 0} (Q : B → Type 0) where
  pub Gives-option :
      (o : Option A) (m : Exec B) (k : A → Exec B)
      → (o ≡ none → Gives Q m)
      → ((a : A) → o ≡ some a → Gives Q (k a))
      → Gives Q (elim o [ none ↦ m | some a ↦ k a ])
  Gives-option none m k hm hk = hm refl
  Gives-option (some a) m k hm hk = hk a refl

  pub Gives-list :
      (xs : List A) (m : Exec B) (k : A → List A → Exec B)
      → (xs ≡ [] → Gives Q m)
      → ((x : A) (xs' : List A) → xs ≡ x ∷ xs' → Gives Q (k x xs'))
      → Gives Q (elim xs [ [] ↦ m | x ∷ xs' ↦ k x xs' ])
  Gives-list [] m k hm hk = hm refl
  Gives-list (x ∷ xs) m k hm hk = hk x xs refl

  -- Code that notes the result of an attempted call in its state.
  pub Gives-note :
      (m : Exec A) (k : Result A → B)
      → ((r : Result A) → Q (k r))
      → Gives Q (attempt m >>= λ r. pure (k r))
  unfolding attempt pure ◌>>=◌ continue
  Gives-note m k q = record { at = λ log. (k (m log).0, refl, q (m log).0) }

module _ {A B : Type 0} (R : A → Type 0) (Q : B → Type 0) where
  Gives-continue :
      (r : Result A) (k : A → Exec B) (log : Log)
      → (a : A) × (r ≡ ok a) × R a
      → ((a : A) → R a → Gives Q (k a))
      → (b : B) × ((continue r k log).0 ≡ ok b) × Q b
  unfolding continue
  Gives-continue (ok a') k log (a, e, h) hk = (hk a' (subst R (cc) h)).at log
  Gives-continue (err e') k log (a, e, h) hk = absurd (cc e)

  pub Gives-bind :
      (m : Exec A) (k : A → Exec B)
      → Gives R m
      → ((a : A) → R a → Gives Q (k a))
      → Gives Q (m >>= k)
  unfolding ◌>>=◌
  Gives-bind m k hm hk = record { at = λ log. Gives-continue (m log).0 k (m log).1 (hm.at log) hk }
