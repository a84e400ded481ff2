-- ===== src/Session/Sent.antt =====
-- How many requests doReadWith and doMutateWith send, and whether one follows a 401.
use adtler.Prelude.{
  ◌≡◌, ◌≤◌, inl, inr, refl, ℕ, Bool, true, false, not, List, [], length, Text, arith,
}
use adtler.Session.{Config, Exchange, Session, World}
use adtler.Session.Calls.{can_refresh, do_read_with, do_mutate_with}
use adtler.Session.Steps.{Policy, Ready, quiet}
use adtler.Session.Requests.{do_read_with-Steps, do_mutate_with-Steps}

Ready-stop :
    (P : Policy) (most : ℕ) (b : Bool) (log : List Exchange)
    → Ready P most b log
    → Ready P most true log
Ready-stop P most b log r = record {
  allowed = r.allowed;
  count = r.count;
  quietly = r.quietly;
  open_end = λ _. inr refl;
}

module _ (w : World) (cfg : Config) where
  abbrev policy : Policy
  policy = record { allows = λ _. Unit {0}; strict = not (can_refresh w cfg) }

  basic : (t : Bool) → not t ≡ true → t ≡ false
  basic true h = cc
  basic false h = refl

  Ready-start : (P : Policy) → Ready P 0 false []
  unfolding quiet
  Ready-start P = record {
    allowed = tt;
    count = omega arith;
    quietly = λ _. refl;
    open_end = λ _. inl refl;
  }

  no_refresh : (t : Bool) → t ≡ false → not t ≡ true
  no_refresh t h = rw h

  module _ (method path body : Text) (headers : List (Text × Text)) (s : Session)
      (fresh : s.log ≡ []) where
    do_mutate_with-Ready :
        Ready policy 5 true (do_mutate_with w cfg method path body headers s).1.log
    do_mutate_with-Ready =
        let P = policy in
        Ready-stop P 5 _ _ (
          (do_mutate_with-Steps w cfg P (basic (can_refresh w cfg)) (λ token req h. tt) method path
              body headers (λ token csrf req h. tt)).at
            s 0 (rw fresh (Ready-start P)))

    pub do_mutate_with-AtMostFive :
        length (do_mutate_with w cfg method path body headers s).1.log ≤ 5
    do_mutate_with-AtMostFive = do_mutate_with-Ready.count

    -- Without a callback that refreshes the token, so under Basic Auth, doMutateWith sends nothing behind
    -- a request that was answered with 401.
    pub do_mutate_with-quiet :
        can_refresh w cfg ≡ false
        → quiet (do_mutate_with w cfg method path body headers s).1.log ≡ true
    do_mutate_with-quiet h = do_mutate_with-Ready.quietly (no_refresh (can_refresh w cfg) h)

  module _ (path : Text) (headers : List (Text × Text)) (s : Session) (fresh : s.log ≡ []) where
    do_read_with-Ready : Ready policy 5 true (do_read_with w cfg path headers s).1.log
    do_read_with-Ready =
        let P = policy in
        Ready-stop P 5 _ _ (
          (do_read_with-Steps w cfg P (basic (can_refresh w cfg)) (λ token req h. tt) path headers
              (λ token req h. tt)).at
            s 0 (rw fresh (Ready-start P)))

    -- Without a callback that refreshes the token, so under Basic Auth, doReadWith sends nothing behind a
    -- request that was answered with 401.
    pub do_read_with-quiet :
        can_refresh w cfg ≡ false → quiet (do_read_with w cfg path headers s).1.log ≡ true
    do_read_with-quiet h = do_read_with-Ready.quietly (no_refresh (can_refresh w cfg) h)
