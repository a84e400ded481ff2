-- ===== src/Adt/Steady.antt =====
-- Actions whose result does not depend on the calls that were made before.
use adtler.Prelude.{
  ◌≡◌, refl, ap, ◌∙◌, Bool, true, false, List, [], ◌∷◌, Option, none, some, if◌then◌else◌,
}
use adtler.Adt.{Result, ok, err, Call, Log, Exec, pure, perform, continue, ◌>>=◌}

pub record Steady {A : Type 0} (m : Exec A) : Type 0 where
  pub at : (log log' : Log) → (m log).0 ≡ (m log').0

module _ {A : Type 0} where
  pub Steady-pure : (a : A) → Steady (pure a)
  unfolding pure
  Steady-pure a = record { at = λ log log'. refl }

  pub Steady-perform :
      (c : Call) (answer : Log → Result A)
      → ((log log' : Log) → answer log ≡ answer log')
      → Steady (perform c answer)
  unfolding perform
  Steady-perform c answer same = record { at = same }

  pub Steady-if : (t : Bool) (m k : Exec A) → Steady m → Steady k → Steady (if t then m else k)
  Steady-if true m k hm hk = hm
  Steady-if false m k hm hk = hk

module _ {A B : Type 0} where
  pub Steady-option :
      (o : Option A) (m : Exec B) (k : A → Exec B)
      → Steady m
      → ((a : A) → Steady (k a))
      → Steady (elim o [ none ↦ m | some a ↦ k a ])
  Steady-option none m k hm hk = hm
  Steady-option (some a) m k hm hk = hk a

  pub Steady-list :
      (xs : List A) (m : Exec B) (k : A → List A → Exec B)
      → Steady m
      → ((x : A) (rest : List A) → Steady (k x rest))
      → Steady (elim xs [ [] ↦ m | x ∷ rest ↦ k x rest ])
  Steady-list [] m k hm hk = hm
  Steady-list (x ∷ rest) m k hm hk = hk x rest

  Steady-continue :
      (r : Result A) (f : A → Exec B) (log log' : Log)
      → ((a : A) → Steady (f a))
      → (continue r f log).0 ≡ (continue r f log').0
  unfolding continue
  Steady-continue (ok a) f log log' h = (h a).at log log'
  Steady-continue (err e) f log log' h = refl

  pub Steady-bind :
      (m : Exec A) (f : A → Exec B) → Steady m → ((a : A) → Steady (f a)) → Steady (m >>= f)
  unfolding ◌>>=◌
  Steady-bind m f hm hf = record {
    at = λ log log'.
        ap (λ r. (continue r f (m log).1).0) (hm.at log log')
        ∙ Steady-continue (m log').0 f (m log).1 (m log').1 hf;
  }

pub ruleset steady_rules = (Steady-pure, Steady-if, Steady-bind)
