-- ===== src/Session/Ends.antt =====
-- Rules for what an action on a session keeps, and for what holds of its result.
use adtler.Prelude.{◌≡◌, refl, sym, Bool, true, false, if◌then◌else◌}
use adtler.Session.{SessionError, Result, ok, err, Session, Act, pure, raise, continue, ◌>>=◌}

-- An action keeps `I`, whatever becomes of it, and its result has `Q`.
abbrev pub Ends :
    (Session → Type 0) → {A : Type 0} → (A → Session → Type 0) → Result A × Session → Type 0
Ends I {A} Q r = I r.1 × ((a : A) → r.0 ≡ ok a → Q a r.1)

pub ok_injective : {A : Type 0} (a b : A) → ok a ≡ ok b → a ≡ b
ok_injective a b e = cc

abbrev pub AnyResult : {A : Type 0} → A → Session → Type 0
AnyResult a s = Unit

module _ (I : Session → Type 0) where
  module _ {A : Type 0} where
    pub Ends-pure :
        (Q : A → Session → Type 0) (a : A) (s : Session) → I s → Q a s → Ends I Q (pure a s)
    unfolding pure
    Ends-pure Q a s i q = (i, λ b e. rw (sym (ok_injective a b e)) q)

    pub Ends-raise :
        (Q : A → Session → Type 0) (e : SessionError) (s : Session)
        → I s
        → Ends I Q (raise {A = A} e s)
    unfolding raise
    Ends-raise Q e s i = (i, λ b h. absurd (cc h))

    pub Ends-if :
        (Q : A → Session → Type 0) (t : Bool) (m k : Act A) (s : Session)
        → Ends I Q (m s)
        → Ends I Q (k s)
        → Ends I Q ((if t then m else k) s)
    Ends-if Q true m k s hm hk = hm
    Ends-if Q false m k s hm hk = hk

  module _ {A B : Type 0} where
    Ends-continue :
        (P : A → Session → Type 0) (Q : B → Session → Type 0) (f : A → Act B) (r : Result A)
        (s : Session)
        → Ends I P (r, s)
        → ((a : A) (s' : Session) → I s' → P a s' → Ends I Q (f a s'))
        → Ends I Q (continue r f s)
    unfolding continue
    Ends-continue P Q f (ok a) s h next = next a s h.0 (h.1 a refl)
    Ends-continue P Q f (err e) s h next = (h.0, λ b k. absurd (cc k))

    pub Ends-bind :
        (P : A → Session → Type 0) (Q : B → Session → Type 0) (m : Act A) (f : A → Act B)
        (s : Session)
        → Ends I P (m s)
        → ((a : A) (s' : Session) → I s' → P a s' → Ends I Q (f a s'))
        → Ends I Q ((m >>= f) s)
    unfolding ◌>>=◌
    Ends-bind P Q m f s h next = Ends-continue P Q f (m s).0 (m s).1 h next
