-- ===== src/Session/Unresolved.antt =====
-- A user or a password that is still a placeholder is never sent.
use adtler.Prelude.{
  ◌≡◌, ◌⊎◌, inl, inr, refl, ap, ◌∙◌, true, not, ◌||◌, List, [], Text, codes, Bool-cases,
  if◌then◌else◌,
}
use adtler.Session.{
  Config, Request, unresolved, Result, ok, err, Session, World, Act, pure, raise, lift, attempt,
  continue, ◌>>=◌, is_placeholder, check_resolved, both_resolved, set_auth, is_empty,
  is_unauthorized,
}
use adtler.Session.Calls.{
  current, preflight, fetch_csrf_token, refresh_preflight, first_preflight, ensure_csrf,
  send_with_auth, mutate_request, do_mutate_with,
}

module _ (w : World) (cfg : Config) where
  -- The field that is refused.
  abbrev pub refused_field : Text
  refused_field = if is_placeholder cfg.user then codes "user" else codes "password"

  module _ (held : (is_placeholder cfg.user || is_placeholder cfg.password) ≡ true) where
    set_auth-refused : (req : Request) → set_auth cfg [] req ≡ err (unresolved refused_field)
    unfolding set_auth check_resolved both_resolved
    set_auth-refused req = elim (Bool-cases (is_placeholder cfg.user)) [
      | inl x ↦ rw x refl
      | inr x ↦ elim (Bool-cases (is_placeholder cfg.password)) [
        | inl y ↦ rw (x, y) refl
        | inr y ↦ absurd (cc (rw (x, y) at held))
      ]
    ]

    module _ (s : Session) (no_token : s.token ≡ []) where
      abbrev Refused : {A : Type 0} → Act A → Type 0
      Refused {A} m = ◌≡◌ {A = Result A × Session} (m s) (err (unresolved refused_field), s)

      set_auth-now : (req : Request) → set_auth cfg s.token req ≡ err (unresolved refused_field)
      set_auth-now req = ap (λ t. set_auth cfg t req) no_token ∙ set_auth-refused req

      fetch_csrf_token-Refused : Refused (fetch_csrf_token w cfg)
      unfolding fetch_csrf_token current lift ◌>>=◌ continue
      fetch_csrf_token-Refused = rw (set_auth-now (preflight w cfg)) refl

      send_with_auth-Refused : (req : Request) → Refused (send_with_auth w cfg req)
      unfolding send_with_auth current lift ◌>>=◌ continue
      send_with_auth-Refused req = rw (set_auth-now req) refl

      Refused-bind : {A B : Type 0} (m : Act A) (k : A → Act B) → Refused m → Refused (m >>= k)
      unfolding ◌>>=◌ continue
      Refused-bind m k h = rw h refl

      first_preflight-Refused : Refused (first_preflight w cfg)
      unfolding first_preflight current attempt ◌>>=◌ continue refresh_preflight is_unauthorized
          raise
      first_preflight-Refused = rw fetch_csrf_token-Refused refl

      -- The session has a CSRF token, or the preflight is refused.
      ensure_csrf-cases : (ensure_csrf w cfg s ≡ (ok tt, s)) ⊎ Refused (ensure_csrf w cfg)
      unfolding ensure_csrf current ◌>>=◌ continue pure
      ensure_csrf-cases = elim (Bool-cases (not (is_empty s.csrf_token))) [
        | inl x ↦ inl (rw x refl)
        | inr x ↦ inr (rw x first_preflight-Refused)
      ]

      -- Without an OAuth token, doMutateWith sends nothing and leaves the session as it is where the
      -- user or the password is an unresolved placeholder. The error names the first such field.
      pub do_mutate_with-unresolved :
          (method path body : Text) (headers : List (Text × Text))
          → do_mutate_with w cfg method path body headers s ≡ (err (unresolved refused_field), s)
      unfolding do_mutate_with ◌>>=◌ continue current
      do_mutate_with-unresolved method path body headers = elim ensure_csrf-cases [
        | inr h ↦ rw h refl
        | inl h ↦ rw h (
            rw (send_with_auth-Refused (mutate_request w cfg method path body headers s.csrf_token))
              refl)
      ]
