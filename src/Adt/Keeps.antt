-- ===== src/Adt/Keeps.antt =====
-- What an action keeps true of the log.
use adtler.Prelude.{Bool, true, false, ◌∷◌, Option, none, some, if◌then◌else◌}
use adtler.Adt.{
  Result, ok, err, Call, Log, Exec, is_rejected, pure, lift, perform, attempt, continue, ◌>>=◌,
}

pub record Keeps (P : Log → Type 0) {A : Type 0} (m : Exec A) : Type 0 where
  pub at : (log : Log) → P log → P (m log).1

module _ (P : Log → Type 0) where
  module _ {A : Type 0} where
    pub Keeps-pure : (a : A) → Keeps P (pure a)
    unfolding pure
    Keeps-pure a = record { at = λ log h. h }

    pub Keeps-lift : (r : Result A) → Keeps P (lift r)
    unfolding lift
    Keeps-lift r = record { at = λ log h. h }

    pub Keeps-perform :
        (c : Call) (answer : Log → Result A)
        → ((log : Log) (rejected : Bool)
            → P log
            → P (record { call = c; rejected = rejected } ∷ log))
        → Keeps P (perform c answer)
    unfolding perform
    Keeps-perform c answer h = record { at = λ log. h log (is_rejected (answer log)) }

    pub Keeps-if : (t : Bool) (m n : Exec A) → Keeps P m → Keeps P n → Keeps P (if t then m else n)
    Keeps-if true m n hm hn = hm
    Keeps-if false m n hm hn = hn

    pub Keeps-attempt : (m : Exec A) → Keeps P m → Keeps P (attempt m)
    unfolding attempt
    Keeps-attempt m h = record { at = h.at }

  module _ {A B : Type 0} where
    pub Keeps-option :
        (o : Option A) (m : Exec B) (k : A → Exec B)
        → Keeps P m
        → ((a : A) → Keeps P (k a))
        → Keeps P (elim o [ none ↦ m | some a ↦ k a ])
    Keeps-option none m k hm hk = hm
    Keeps-option (some a) m k hm hk = hk a

    Keeps-continue :
        (r : Result A) (k : A → Exec B) (log : Log)
        → ((a : A) → Keeps P (k a))
        → P log
        → P (continue r k log).1
    unfolding continue
    Keeps-continue (ok a) k log hk h = (hk a).at log h
    Keeps-continue (err e) k log hk h = h

    pub Keeps-bind :
        (m : Exec A) (k : A → Exec B) → Keeps P m → ((a : A) → Keeps P (k a)) → Keeps P (m >>= k)
    unfolding ◌>>=◌
    Keeps-bind m k hm hk = record {
      at = λ log h. Keeps-continue (m log).0 k (m log).1 hk (hm.at log h);
    }

    pub Keeps-behind :
        (m : Exec A) (k : A → Exec B) (log : Log)
        → P (m log).1
        → ((a : A) → Keeps P (k a))
        → P ((m >>= k) log).1
    unfolding ◌>>=◌
    Keeps-behind m k log h hk = Keeps-continue (m log).0 k (m log).1 hk h
