-- ===== src/Session/Steps.antt =====
-- Rules for what the requests of an action have in common, how many they are, and whether a request
-- follows a 401.
use adtler.Prelude.{
  ◌≡◌, ◌≤◌, ◌+◌, ◌⊎◌, inl, inr, refl, ℕ, Bool, true, false, not, List, [], ◌∷◌, ◌==◌, Option, none,
  some, if◌then◌else◌, all, All, length, arith, Bool-cases,
}
use adtler.Session.{
  Request, Response, SessionError, Result, ok, err, Exchange, Session, World, Act, Config, pure,
  raise, lift, attempt, continue, ◌>>=◌, is_unauthorized,
}
use adtler.Session.Calls.{answered, current, send}

unfoldable pub is_rejected : Exchange → Bool
is_rejected ex = elim ex.response [ none ↦ false | some r ↦ r.status == 401 ]

abbrev pub calm : List Exchange → Bool
calm = all (λ (ex : Exchange). not (is_rejected ex))

-- No request follows one that was answered with 401.
unfoldable pub quiet : List Exchange → Bool
quiet [] = true
quiet (ex ∷ log) = calm log

-- Which requests an action may send, and whether it has to stop behind a 401.
pub record Policy : Type 1 where
  pub allows : Request → Type 0
  pub strict : Bool

-- A log of at most `most` requests, behind which more may follow where `stopped` is false.
pub record Ready (P : Policy) (most : ℕ) (stopped : Bool) (log : List Exchange) : Type 0 where
  pub allowed : All (λ (ex : Exchange). P.allows ex.request) log
  pub count : length log ≤ most
  pub quietly : P.strict ≡ true → quiet log ≡ true
  pub open_end : P.strict ≡ true → (calm log ≡ true) ⊎ (stopped ≡ true)

unfoldable pub flagged : {A : Type 0} → (A → Bool) → Result A → Bool
flagged f (ok a) = f a
flagged f (err e) = is_unauthorized e

abbrev pub never : {A : Type 0} → A → Bool
never _ = false

abbrev pub rejects : Response → Bool
rejects r = r.status == 401

-- An action that sends at most `n` requests. `stopped` tells of a 401 before it, its result of one
-- behind it.
pub record Steps (P : Policy) {A : Type 0} (f : A → Bool) (n : ℕ) (stopped : Bool) (m : Act A)
    : Type 0 where
  pub at :
      (s : Session) (most : ℕ)
      → Ready P most stopped s.log
      → Ready P (most + n) (flagged f (m s).0) (m s).1.log

module _ (P : Policy) where
  Ready-weaken :
      (most n : ℕ) (a c : Bool) (log : List Exchange)
      → (P.strict ≡ true → a ≡ true → c ≡ true)
      → Ready P most a log
      → Ready P (most + n) c log
  Ready-weaken most n a c log h r = record {
    allowed = r.allowed;
    count = omega (arith, r.count);
    quietly = r.quietly;
    open_end = λ strict. elim (r.open_end strict) [ inl q ↦ inl q | inr q ↦ inr (h strict q) ];
  }

  Ready-flag :
      (most : ℕ) (a c : Bool) (log : List Exchange)
      → (a ≡ true → c ≡ true)
      → Ready P most a log
      → Ready P most c log
  Ready-flag most a c log h r = record {
    allowed = r.allowed;
    count = r.count;
    quietly = r.quietly;
    open_end = λ strict. elim (r.open_end strict) [ inl q ↦ inl q | inr q ↦ inr (h q) ];
  }

  Ready-relax :
      P.strict ≡ false
      → (most : ℕ) (a c : Bool) (log : List Exchange) → Ready P most a log
      → Ready P most c log
  Ready-relax lax most a c log r = record {
    allowed = r.allowed;
    count = r.count;
    quietly = r.quietly;
    open_end = λ strict. absurd (cc (lax, strict));
  }

  module _ {A : Type 0} where
    -- An action that sends nothing.
    pub Steps-silent :
        (f : A → Bool) (n : ℕ) (b : Bool) (m : Act A)
        → ((s : Session) → (m s).1.log ≡ s.log)
        → ((s : Session) → P.strict ≡ true → b ≡ true → flagged f (m s).0 ≡ true)
        → Steps P f n b m
    Steps-silent f n b m same h = record {
      at = λ s most r. rw (same s) (Ready-weaken most n b (flagged f (m s).0) s.log (h s) r);
    }

    pub Steps-pure :
        (f : A → Bool) (n : ℕ) (b : Bool) (a : A)
        → (P.strict ≡ true → b ≡ true → f a ≡ true)
        → Steps P f n b (pure a)
    unfolding pure flagged
    Steps-pure f n b a h = Steps-silent f n b (pure a) (λ s. refl) (λ s. h)

    pub Steps-raise :
        (f : A → Bool) (n : ℕ) (b : Bool) (e : SessionError)
        → (P.strict ≡ true → b ≡ true → is_unauthorized e ≡ true)
        → Steps P f n b (raise {A = A} e)
    unfolding raise flagged
    Steps-raise f n b e h = Steps-silent f n b (raise e) (λ s. refl) (λ s. h)

    pub Steps-if :
        (f : A → Bool) (n : ℕ) (b : Bool) (t : Bool) (m k : Act A)
        → (t ≡ true → Steps P f n b m)
        → (t ≡ false → Steps P f n b k)
        → Steps P f n b (if t then m else k)
    Steps-if f n b true m k hm hk = hm refl
    Steps-if f n b false m k hm hk = hk refl

    pub Steps-weaken :
        (f : A → Bool) (n : ℕ) (b c : Bool) (m : Act A)
        → (c ≡ true → b ≡ true)
        → Steps P f n b m
        → Steps P f n c m
    Steps-weaken f n b c m h st = record {
      at = λ s most r. st.at s most (Ready-flag most c b s.log h r);
    }

    -- Where an action need not stop, it does not matter what is told of a 401.
    pub Steps-relax :
        (f g : A → Bool) (n : ℕ) (b c : Bool) (m : Act A)
        → P.strict ≡ false
        → Steps P f n b m
        → Steps P g n c m
    Steps-relax f g n b c m lax st = record {
      at = λ s most r. Ready-relax lax _ _ _ _ (st.at s most (Ready-relax lax most c b s.log r));
    }

    -- Code behind the session's state.
    pub Steps-current :
        (g : A → Bool) (l : ℕ) (b : Bool) (k : Session → Act A)
        → ((s : Session) → Steps P g l b (k s))
        → Steps P g l b (current >>= k)
    unfolding current ◌>>=◌ continue
    Steps-current g l b k hk = record { at = λ s most r. (hk s).at s most r }

  module _ {A B : Type 0} where
    Steps-continue :
        (f : A → Bool) (g : B → Bool) (l : ℕ) (r : Result A) (k : A → Act B) (s : Session)
        (most : ℕ)
        → ((a : A) → Steps P g l (f a) (k a))
        → Ready P most (flagged f r) s.log
        → Ready P (most + l) (flagged g (continue r k s).0) (continue r k s).1.log
    unfolding continue flagged
    Steps-continue f g l (ok a) k s most hk h = (hk a).at s most h
    Steps-continue f g l (err e) k s most hk h = Ready-weaken most l _ _ s.log (λ _ q. q) h

    pub Steps-bind :
        (f : A → Bool) (g : B → Bool) (n l : ℕ) (b : Bool) (m : Act A) (k : A → Act B)
        → Steps P f n b m
        → ((a : A) → Steps P g l (f a) (k a))
        → Steps P g (n + l) b (m >>= k)
    unfolding ◌>>=◌
    Steps-bind f g n l b m k hm hk = record {
      at = λ s most r.
          let r' = Steps-continue f g l (m s).0 k (m s).1 (most + n) hk (hm.at s most r) in
          record {
            allowed = r'.allowed;
            count = omega (arith, r'.count);
            quietly = r'.quietly;
            open_end = r'.open_end;
          };
    }

    -- Code behind a computed result.
    pub Steps-lift :
        (g : B → Bool) (l : ℕ) (r : Result A) (k : A → Act B)
        → ((a : A) → r ≡ ok a → Steps P g l false (k a))
        → Steps P g l false (lift r >>= k)
    unfolding lift ◌>>=◌ continue flagged
    Steps-lift g l (ok a) k hk = record { at = λ s most h. (hk a refl).at s most h }
    Steps-lift g l (err e) k hk = record {
      at = λ s most h. Ready-weaken most l false _ s.log (λ _ q. absurd (cc q)) h;
    }

    -- Code that handles the error of an attempted action.
    handled :
        (f : B → Bool) (l : ℕ) (k : A → Act B) (h : SessionError → Act B) (r : Result A)
        (s : Session) (most : ℕ)
        → ((a : A) → Steps P f l false (k a))
        → ((e : SessionError) → Steps P f l (is_unauthorized e) (h e))
        → Ready P most (flagged never r) s.log
        → Ready P
            (most + l)
            (flagged f (elim r as (λ _. Act B) [ ok a ↦ k a | err e ↦ h e ] s).0)
            (elim r as (λ _. Act B) [ ok a ↦ k a | err e ↦ h e ] s).1.log
    unfolding flagged
    handled f l k h (ok a) s most hk hh r = (hk a).at s most r
    handled f l k h (err e) s most hk hh r = (hh e).at s most r

    pub Steps-handle :
        (f : B → Bool) (n l : ℕ) (m : Act A) (k : A → Act B) (h : SessionError → Act B)
        → Steps P never n false m
        → ((a : A) → Steps P f l false (k a))
        → ((e : SessionError) → Steps P f l (is_unauthorized e) (h e))
        → Steps P f (n + l) false (attempt m >>= λ r. elim r [ ok a ↦ k a | err e ↦ h e ])
    unfolding attempt ◌>>=◌ continue
    Steps-handle f n l m k h hm hk hh = record {
      at = λ s most r.
          let r' = handled f l k h (m s).0 (m s).1 (most + n) hk hh (hm.at s most r) in
          record {
            allowed = r'.allowed;
            count = omega (arith, r'.count);
            quietly = r'.quietly;
            open_end = r'.open_end;
          };
    }

  module _ (w : World) (cfg : Config) where
    sent :
        (req : Request) (a : Option Response)
        → not (is_rejected (record { request = req; response = a })) ≡ true
          ⊎ (flagged rejects (answered a) ≡ true)
    unfolding is_rejected answered flagged
    sent req none = inl refl
    sent req (some r) = elim (Bool-cases (r.status == 401)) [
      | inl x ↦ inr x
      | inr x ↦ inl (rw x refl)
    ]

    pub Steps-send : (req : Request) → P.allows req → Steps P rejects 1 false (send w cfg req)
    unfolding send quiet
    Steps-send req e = record {
      at = λ s most r. record {
        allowed = (e, r.allowed);
        count = omega (arith, r.count);
        quietly = λ strict. elim (r.open_end strict) [ inl q ↦ q | inr q ↦ absurd (cc q) ];
        open_end = λ strict. elim (r.open_end strict) [
          | inr q ↦ absurd (cc q)
          | inl q ↦ elim (sent req (w.answer s.log req)) [ inl x ↦ inl (rw x q) | inr x ↦ inr x ]
        ];
      };
    }
