-- ===== src/Token/Release.antt =====
-- How the requests that wait on a refresh go on.
use adtler.Prelude.{
  ℕ, ◌≡◌, ◌≢◌, ◌⊎◌, inl, inr, refl, Bool, true, false, Option, some, Text, [], arith,
}
use adtler.Token.{
  RefreshError, aborted, context_done, Callback, new_token, failed, panics, Phase, idle, waiting,
  running, finishing, closing, returned, panicked, TokenSource, update, set_phase, begin_refresh,
  callback_done, publish, close_done, Step, begin_step, callback_step, publish_step, close_step,
  wake_step, cancel_step, Reachable,
}
use adtler.Token.Exclusion.{busy, Reachable-Consistent}
use adtler.Token.Outcome.{Reachable-Settled}

-- Under any interleaving, a request that waits on another one's refresh and returns, other than with
-- its context's error, returns what that request has returned from the refresh, or
-- errRefreshAborted where that request's callback has panicked.
pub Reachable-shared_outcome :
    (can : Bool) (first : Text) (s s' : TokenSource) (r c : ℕ) (e : Option RefreshError)
    → Reachable can first s
    → Step can s s'
    → s.phase r ≡ waiting c
    → s'.phase r ≡ returned e
    → e ≢ some context_done
    → (s'.phase c ≡ returned e) ⊎ ((s'.phase c ≡ panicked) × (e ≡ some aborted))
unfolding set_phase update begin_refresh callback_done publish close_done
Reachable-shared_outcome can first s s' r c e reached (begin_step r' sent was made) h h' live =
    absurd (ground arith)
Reachable-shared_outcome can first s s' r c e reached (callback_step r' sent (new_token t) was made)
      h h' live =
    absurd (ground arith)
Reachable-shared_outcome can first s s' r c e reached (callback_step r' sent (failed x) was made) h
      h' live =
    absurd (ground arith)
Reachable-shared_outcome can first s s' r c e reached (callback_step r' sent panics was made) h h'
      live =
    absurd (ground arith)
Reachable-shared_outcome can first s s' r c e reached (publish_step r' t p was made) h h' live =
    absurd (ground arith)
Reachable-shared_outcome can first s s' r c e reached (close_step r' p was made) h h' live =
    absurd (ground arith)
Reachable-shared_outcome can first s s' r c e reached (wake_step r' c' was done made) h h' live =
    let inv = Reachable-Settled can first s reached in ground (arith, inv.ended c)
Reachable-shared_outcome can first s s' r c e reached (cancel_step r' c' was made) h h' live =
    absurd (ground (arith, live))

-- A step of request `c` on its way out of the callback, which does `k`, or the waking of request `r`:
-- no step of another request, and no context that ends.
abbrev pub Serves : {can : Bool} {s s' : TokenSource} → ℕ → ℕ → Callback → Step can s s' → Type 0
Serves r c k (begin_step r' sent was made) = ⊥
Serves r c k (callback_step r' sent k' was made) = (r' ≡ c) × (k' ≡ k)
Serves r c k (publish_step r' t p was made) = r' ≡ c
Serves r c k (close_step r' p was made) = r' ≡ c
Serves r c k (wake_step r' c' was done made) = r' ≡ r
Serves r c k (cancel_step r' c' was made) = ⊥

-- Such steps one after another.
pub data Steps (can : Bool) (r c : ℕ) (k : Callback) : TokenSource → TokenSource → Type 0 where
  here : {s : TokenSource} → Steps can r c k s s
  then_step :
      {s s' s'' : TokenSource} (m : Step can s s')
      → Serves r c k m
      → Steps can r c k s' s''
      → Steps can r c k s s''

abbrev pub Returns : Bool → ℕ → ℕ → Callback → TokenSource → Type 0
Returns can r c k s =
    (s' : TokenSource) × Steps can r c k s s'
    × ((e : Option RefreshError) × (s'.phase r ≡ returned e))

module _ (can : Bool) (r c : ℕ) (k : Callback) where
  done-Returns :
      (s : TokenSource) → s.phase r ≡ waiting c → s.call_done c ≡ true → Returns can r c k s
  unfolding set_phase update
  done-Returns s h done = (
    set_phase r (returned (s.call_err c)) s,
    then_step (wake_step r c h done refl) refl here,
    (s.call_err c, ground arith),
  )

  after_step-Returns :
      (s s' : TokenSource) (step : Step can s s')
      → Serves r c k step
      → Returns can r c k s'
      → Returns can r c k s
  after_step-Returns s s' step serves (end, steps, result) =
      (end, then_step step serves steps, result)

  closing-Returns :
      (s : TokenSource) (p : Bool)
      → s.phase r ≡ waiting c
      → s.phase c ≡ closing p
      → Returns can r c k s
  unfolding close_done update
  closing-Returns s p h at =
      after_step-Returns s (close_done c p s) (close_step c p at refl) refl
        (done-Returns (close_done c p s) (ground arith) (ground arith))

  finishing-Returns :
      (s : TokenSource) (t : Text) (p : Bool)
      → s.phase r ≡ waiting c
      → s.phase c ≡ finishing t p
      → Returns can r c k s
  unfolding publish update
  finishing-Returns s t p h at =
      after_step-Returns s (publish c t p s) (publish_step c t p at refl) refl
        (closing-Returns (publish c t p s) p (ground arith) (ground arith))

  running-Returns :
      (s : TokenSource) (t : Text) (k' : Callback)
      → k' ≡ k
      → s.phase r ≡ waiting c
      → s.phase c ≡ running t
      → Returns can r c k s
  unfolding callback_done set_phase update
  running-Returns s t (new_token u) same h at =
      let s' = callback_done c (new_token u) s in
      after_step-Returns s s' (callback_step c t (new_token u) at refl) (refl, same)
        (finishing-Returns s' u false (ground arith) (ground arith))
  running-Returns s t (failed x) same h at =
      let s' = callback_done c (failed x) s in
      after_step-Returns s s' (callback_step c t (failed x) at refl) (refl, same)
        (finishing-Returns s' [] false (ground arith) (ground arith))
  running-Returns s t panics same h at =
      let s' = callback_done c panics s in
      after_step-Returns s s' (callback_step c t panics at refl) (refl, same)
        (finishing-Returns s' [] true (ground arith) (ground arith))

  busy-Returns :
      (s : TokenSource) (p : Phase)
      → s.phase r ≡ waiting c
      → s.phase c ≡ p
      → busy p ≡ true
      → Returns can r c k s
  unfolding busy
  busy-Returns s idle h at live = absurd (cc live)
  busy-Returns s (waiting d) h at live = absurd (cc live)
  busy-Returns s (running t) h at live = running-Returns s t k refl h at
  busy-Returns s (finishing t p) h at live = finishing-Returns s t p h at
  busy-Returns s (closing p) h at live = closing-Returns s p h at
  busy-Returns s (returned e) h at live = absurd (cc live)
  busy-Returns s panicked h at live = absurd (cc live)

-- No request waits for ever: from any state that an interleaving reaches and in which it waits on
-- another one's refresh, whatever the callback does once it ends, panics included, the steps of that
-- request out of the callback and the waking of the waiting one lead to a state in which the waiting
-- one has returned, with no step of another request and no context that ends.
pub Reachable-Returns :
    (can : Bool) (first : Text) (s : TokenSource) (r c : ℕ) (k : Callback)
    → Reachable can first s
    → s.phase r ≡ waiting c
    → Returns can r c k s
Reachable-Returns can first s r c k reached h =
    let inv = Reachable-Consistent can first s reached in
    elim (inv.awaited r c h) [
      | inl done ↦ done-Returns can r c k s h done
      | inr live ↦ busy-Returns can r c k s (s.phase c) h refl live
    ]
