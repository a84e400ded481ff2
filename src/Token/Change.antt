-- ===== src/Token/Change.antt =====
-- What changes the token: a callback that has returned one.
use adtler.Prelude.{
  ℕ, ◌≡◌, ◌≢◌, ◌⊎◌, inl, inr, Bool, true, false, none, Text, arith, ◌==◌, Bool-cases,
}
use adtler.Token.{
  new_token, failed, panics, finishing, TokenSource, new_token_source, update, set_phase,
  begin_refresh, callback_done, publish, close_done, Step, begin_step, callback_step, publish_step,
  close_step, wake_step, cancel_step, Reachable, start, next,
}
use adtler.Token.Outcome.{Reachable-Settled}

-- The step in which the callback of request `r` returns the token `t` and no error.
abbrev pub HandsOver : {can : Bool} {s s' : TokenSource} → Step can s s' → ℕ → Text → Type 0
HandsOver (begin_step r' sent was made) r t = ⊥
HandsOver (callback_step r' sent k was made) r t = (r' ≡ r) × (k ≡ new_token t)
HandsOver (publish_step r' u p was made) r t = ⊥
HandsOver (close_step r' p was made) r t = ⊥
HandsOver (wake_step r' c was done made) r t = ⊥
HandsOver (cancel_step r' c was made) r t = ⊥

-- It is one of the steps of the interleaving.
abbrev pub Returned :
    {can : Bool} {first : Text} {s : TokenSource} → Reachable can first s → ℕ → Text → Type 0
Returned (start e) r t = ⊥
Returned (next reached step) r t = HandsOver step r t ⊎ Returned reached r t

-- What stands as a result behind the callback, with no error, is what the callback has returned.
finishing-Returned :
    (can : Bool) (first : Text) {s : TokenSource} (reached : Reachable can first s) (r : ℕ)
    (t : Text)
    → s.phase r ≡ finishing t false
    → s.call_err r ≡ none
    → Returned reached r t
unfolding new_token_source set_phase update begin_refresh callback_done publish close_done
finishing-Returned can first (start e) r t at fine = absurd (ground (arith, e))
finishing-Returned can first (next reached (begin_step r' sent was made)) r t at fine =
    inr (finishing-Returned can first reached r t (ground arith) (ground arith))
finishing-Returned can first (next reached (callback_step r' sent (new_token u) was made)) r t at
      fine =
    elim (Bool-cases (r == r')) [
      | inl e ↦ inl (ground arith, ground arith)
      | inr e ↦ inr (finishing-Returned can first reached r t (ground arith) (ground arith))
    ]
finishing-Returned can first (next reached (callback_step r' sent (failed x) was made)) r t at
      fine =
    inr (finishing-Returned can first reached r t (ground arith) (ground arith))
finishing-Returned can first (next reached (callback_step r' sent panics was made)) r t at fine =
    inr (finishing-Returned can first reached r t (ground arith) (ground arith))
finishing-Returned can first (next reached (publish_step r' u p was made)) r t at fine =
    inr (finishing-Returned can first reached r t (ground arith) (ground arith))
finishing-Returned can first (next reached (close_step r' p was made)) r t at fine =
    inr (finishing-Returned can first reached r t (ground arith) (ground arith))
finishing-Returned can first (next reached (wake_step r' c was done made)) r t at fine =
    inr (finishing-Returned can first reached r t (ground arith) (ground arith))
finishing-Returned can first (next reached (cancel_step r' c was made)) r t at fine =
    inr (finishing-Returned can first reached r t (ground arith) (ground arith))

-- Under any interleaving the token changes only to a token that the callback of a request has
-- returned without an error, when that request's refresh ends; no refresh is in flight then.
pub Reachable-token_change :
    (can : Bool) (first : Text) (s s' : TokenSource) (reached : Reachable can first s)
    → Step can s s'
    → s'.token ≢ s.token
    → (r : ℕ) × Returned reached r s'.token
      × (s.phase r ≡ finishing s'.token false)
      × (s.call_err r ≡ none)
      × (s'.inflight ≡ none)
unfolding set_phase update begin_refresh callback_done publish close_done
Reachable-token_change can first s s' reached (begin_step r sent was made) other =
    absurd (ground (arith, other))
Reachable-token_change can first s s' reached (callback_step r sent (new_token t) was made) other =
    absurd (ground (arith, other))
Reachable-token_change can first s s' reached (callback_step r sent (failed x) was made) other =
    absurd (ground (arith, other))
Reachable-token_change can first s s' reached (callback_step r sent panics was made) other =
    absurd (ground (arith, other))
Reachable-token_change can first s s' reached (publish_step r t false was made) other =
    let at : s.phase r ≡ finishing s'.token false = ground (arith, other) in
    let fine : s.call_err r ≡ none = ground (arith, other) in
    (r, finishing-Returned can first reached r s'.token at fine, at, fine, ground arith)
Reachable-token_change can first s s' reached (publish_step r t true was made) other =
    let inv = Reachable-Settled can first s reached in
    absurd (ground (arith, other, inv.unwinding r t was))
Reachable-token_change can first s s' reached (close_step r p was made) other =
    absurd (ground (arith, other))
Reachable-token_change can first s s' reached (wake_step r c was done made) other =
    absurd (ground (arith, other))
Reachable-token_change can first s s' reached (cancel_step r c was made) other =
    absurd (ground (arith, other))
