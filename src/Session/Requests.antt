-- ===== src/Session/Requests.antt =====
-- What doReadWith and doMutateWith send: how many requests, which ones, and none behind a 401 that no
-- new token can mend.
use adtler.Prelude.{
  ◌≡◌, inl, inr, refl, ℕ, Bool, true, false, not, ◌&&◌, List, ◌==◌, Option, none, some, Text,
  text_eq, arith, Bool-cases,
}
use adtler.Session.{
  Config, Request, Response, SessionError, secure_cookies, Result, ok, err, World, pure, raise,
  ◌>>=◌, is_unauthorized, is_empty, set_auth,
}
use adtler.Session.Calls.{
  set_csrf_token, set_token, can_refresh, send, preflight, note_preflight, fetch_csrf_token,
  ask_refresh, refresh_after_401, fetch_unless_set, refresh_preflight, first_preflight, ensure_csrf,
  send_with_auth, read_request, retry_read, do_read_with, mutate_request, retry_mutate,
  after_mutate, do_mutate_with,
}
use adtler.Session.Steps.{
  Policy, Steps, flagged, never, rejects, Steps-silent, Steps-pure, Steps-raise, Steps-if,
  Steps-weaken, Steps-relax, Steps-bind, Steps-current, Steps-lift, Steps-handle, Steps-send,
}

not_both : (status : ℕ) (b : Bool) → (status == 403 && b) ≡ true → (status == 401) ≡ true → ⊥
not_both status b h k = ground arith

can_of : (a c : Bool) → a ≡ true → (a && not c) ≡ false → c ≡ true
can_of a c h k = ground arith

module _ (w : World) (cfg : Config) (P : Policy)
    (mended : P.strict ≡ true → can_refresh w cfg ≡ false)
    (greets : (token : Text) (req : Request)
      → set_auth cfg token (preflight w cfg) ≡ ok req
      → P.allows req) where
  note_preflight-Steps : (r : Response) → Steps P never 0 (rejects r) (note_preflight w cfg r)
  unfolding note_preflight set_csrf_token raise ◌>>=◌ flagged is_unauthorized
  note_preflight-Steps r = elim (Bool-cases (r.status == 401)) [
    | inl x ↦ rw x (Steps-silent P never 0 true _ (λ s. refl) (λ s _ _. x))
    | inr x ↦ rw x (Steps-silent P never 0 false _ (λ s. refl) (λ s _ q. q))
  ]

  fetch_csrf_token-Steps : Steps P never 1 false (fetch_csrf_token w cfg)
  unfolding fetch_csrf_token
  fetch_csrf_token-Steps = Steps-current P never 1 false _ (λ s.
      Steps-lift P never 1 (set_auth cfg s.token (preflight w cfg)) _ (λ req e.
        Steps-bind P rejects never 1 0 false (send w cfg req) _
          (Steps-send P w cfg req (greets s.token req e)) note_preflight-Steps))

  ask_refresh-Steps :
      (o : Option (Result Text)) → P.strict ≡ false → Steps P never 0 false (ask_refresh w cfg o)
  unfolding ask_refresh set_token pure raise flagged
  ask_refresh-Steps none lax = Steps-silent P never 0 false _ (λ s. refl) (λ s _ q. q)
  ask_refresh-Steps (some (ok t)) lax = Steps-silent P never 0 false _ (λ s. refl) (λ s _ q. q)
  ask_refresh-Steps (some (err e)) lax =
      Steps-silent P never 0 false _ (λ s. refl) (λ s strict _. absurd (cc (lax, strict)))

  refresh_after_401-Steps :
      (token : Text) → P.strict ≡ false → Steps P never 0 false (refresh_after_401 w cfg token)
  unfolding refresh_after_401
  refresh_after_401-Steps token lax = Steps-current P never 0 false _ (λ s.
      Steps-if P never 0 false (not (text_eq s.token token)) _ _
        (λ _. Steps-pure P never 0 false tt (λ _ q. q)) (λ _. ask_refresh-Steps _ lax))

  fetch_unless_set-Steps : Steps P never 1 false (fetch_unless_set w cfg)
  unfolding fetch_unless_set
  fetch_unless_set-Steps = Steps-current P never 1 false _ (λ s.
      Steps-if P never 1 false (not (is_empty s.csrf_token)) _ _
        (λ _. Steps-pure P never 1 false tt (λ _ q. q)) (λ _. fetch_csrf_token-Steps))

  not_strict : can_refresh w cfg ≡ true → P.strict ≡ false
  not_strict can = elim (Bool-cases P.strict) [ inr x ↦ x | inl x ↦ absurd (cc (mended x, can)) ]

  can_mend : (a c : Bool) → not (a && c) ≡ false → (a ≡ true) × (c ≡ true)
  can_mend a c h = ground arith

  refresh_preflight-Steps :
      (token : Text) (e : SessionError)
      → Steps P never 1 (is_unauthorized e) (refresh_preflight w cfg token e)
  unfolding refresh_preflight
  refresh_preflight-Steps token e =
      Steps-if P never 1 (is_unauthorized e) (not (is_unauthorized e && can_refresh w cfg)) _ _
        (λ _. Steps-raise P never 1 (is_unauthorized e) e (λ _ q. q))
        (λ h.
          let lax = not_strict (can_mend (is_unauthorized e) (can_refresh w cfg) h).1 in
          Steps-relax P never never 1 false (is_unauthorized e) _ lax (
            Steps-bind P never never 0 1 false (refresh_after_401 w cfg token) _
              (refresh_after_401-Steps token lax) (λ _. fetch_unless_set-Steps)))

  first_preflight-Steps : Steps P never 2 false (first_preflight w cfg)
  unfolding first_preflight
  first_preflight-Steps = Steps-current P never 2 false _ (λ s.
      Steps-handle P never 1 1 (fetch_csrf_token w cfg) (λ done. pure tt)
        (λ e. refresh_preflight w cfg s.token e) fetch_csrf_token-Steps
        (λ done. Steps-pure P never 1 false tt (λ _ q. q)) (λ e. refresh_preflight-Steps s.token e))

  ensure_csrf-Steps : Steps P never 2 false (ensure_csrf w cfg)
  unfolding ensure_csrf
  ensure_csrf-Steps = Steps-current P never 2 false _ (λ s.
      Steps-if P never 2 false (not (is_empty s.csrf_token)) _ _
        (λ _. Steps-pure P never 2 false tt (λ _ q. q)) (λ _. first_preflight-Steps))

  send_with_auth-Steps :
      (req : Request)
      → ((token : Text) (req' : Request) → set_auth cfg token req ≡ ok req' → P.allows req')
      → Steps P rejects 1 false (send_with_auth w cfg req)
  unfolding send_with_auth
  send_with_auth-Steps req allows = Steps-current P rejects 1 false _ (λ s.
      Steps-lift P rejects 1 (set_auth cfg s.token req) _
        (λ req' e. Steps-send P w cfg req' (allows s.token req' e)))

  -- The last answer is returned, and nothing follows.
  abbrev answers : Response → Bool
  answers r = true

  module _ (path : Text) (headers : List (Text × Text))
      (reads : (token : Text) (req : Request)
        → set_auth cfg token (read_request w cfg path headers) ≡ ok req
        → P.allows req) where
    retry_read-Steps :
        (token : Text)
        → P.strict ≡ false
        → Steps P answers 2 false (retry_read w cfg token path headers)
    unfolding retry_read
    retry_read-Steps token lax =
        Steps-bind P never answers 0 2 false (refresh_after_401 w cfg token) _
          (refresh_after_401-Steps token lax)
          (λ _.
            Steps-bind P never answers 1 1 false (fetch_csrf_token w cfg) _ fetch_csrf_token-Steps
              (λ _.
                Steps-relax P rejects answers 1 false false _ lax (send_with_auth-Steps _ reads)))

    pub do_read_with-Steps : Steps P answers 5 false (do_read_with w cfg path headers)
    unfolding do_read_with
    do_read_with-Steps =
        Steps-bind P never answers 2 3 false (ensure_csrf w cfg) _ ensure_csrf-Steps (λ _.
          Steps-current P answers 3 false _ (λ s.
            Steps-bind P rejects answers 1 2 false
              (send_with_auth w cfg (read_request w cfg path headers)) _
              (send_with_auth-Steps _ reads)
              (λ r.
                Steps-if P answers 2 _ (not (r.status == 401 && can_refresh w cfg)) _ _
                  (λ _. Steps-pure P answers 2 _ r (λ _ _. refl))
                  (λ h.
                    let lax = not_strict (can_mend (r.status == 401) (can_refresh w cfg) h).1 in
                    Steps-relax P answers answers 2 false _ _ lax (retry_read-Steps s.token lax)))))

  module _ (method path body : Text) (headers : List (Text × Text))
      (mutates : (token csrf : Text) (req : Request)
        → set_auth cfg token (mutate_request w cfg method path body headers csrf) ≡ ok req
        → P.allows req) where
    retry_mutate-Steps : Steps P answers 2 false (retry_mutate w cfg method path body headers)
    unfolding retry_mutate
    retry_mutate-Steps =
        Steps-bind P never answers 1 1 false (fetch_csrf_token w cfg) _ fetch_csrf_token-Steps (λ _.
          Steps-current P answers 1 false _ (λ s.
            Steps-bind P rejects answers 1 0 false
              (send_with_auth w cfg (mutate_request w cfg method path body headers s.csrf_token)) _
              (send_with_auth-Steps _ (λ token. mutates token s.csrf_token))
              (λ r.
                Steps-if P answers 0 (rejects r) (r.status == 403 && s.has_secure_cookies) _ _
                  (λ h.
                    Steps-raise P answers 0 (rejects r) secure_cookies
                      (λ _ q. absurd (not_both r.status s.has_secure_cookies h q)))
                  (λ _. Steps-pure P answers 0 (rejects r) r (λ _ _. refl)))))

    after_mutate-Steps :
        (token : Text) (r : Response)
        → Steps P answers 2 (rejects r) (after_mutate w cfg method path body headers token r)
    unfolding after_mutate
    after_mutate-Steps token r =
        Steps-if P answers 2 (rejects r) (r.status == 401 && not (can_refresh w cfg)) _ _
          (λ _. Steps-pure P answers 2 (rejects r) r (λ _ _. refl))
          (λ h.
            Steps-if P answers 2 (rejects r) (r.status == 401) _ _
              (λ x.
                let lax = not_strict (can_of (r.status == 401) (can_refresh w cfg) x h) in
                Steps-relax P answers answers 2 false (rejects r) _ lax (
                  Steps-bind P never answers 0 2 false (refresh_after_401 w cfg token) _
                    (refresh_after_401-Steps token lax) (λ _. retry_mutate-Steps)))
              (λ x.
                Steps-if P answers 2 (rejects r) (r.status == 403) _ _
                  (λ _. Steps-weaken P answers 2 false (rejects r) _ (λ q. cc) retry_mutate-Steps)
                  (λ _. Steps-pure P answers 2 (rejects r) r (λ _ _. refl))))

    pub do_mutate_with-Steps :
        Steps P answers 5 false (do_mutate_with w cfg method path body headers)
    unfolding do_mutate_with
    do_mutate_with-Steps =
        Steps-bind P never answers 2 3 false (ensure_csrf w cfg) _ ensure_csrf-Steps (λ _.
          Steps-current P answers 3 false _ (λ s.
            Steps-bind P rejects answers 1 2 false
              (send_with_auth w cfg (mutate_request w cfg method path body headers s.csrf_token)) _
              (send_with_auth-Steps _ (λ token. mutates token s.csrf_token))
              (λ r. after_mutate-Steps s.token r)))
