-- ===== src/Token.antt =====
-- adt/tokensource.go: the OAuth token that sessions share, and its refresh after a 401. Requests are
-- numbered, and a refreshCall is named by the request that creates it: one request creates at most one.
pub mod Exclusion
pub mod Outcome
pub mod Release
pub mod Change
use adtler.Prelude.{
  ℕ, ◌≡◌, ◌≢◌, Bool, true, false, not, Option, none, some, ◌==◌, if◌then◌else◌, Text, text_eq, List,
  [],
}

pub data RefreshError : Type 0 where
  -- errRefreshAborted
  aborted : RefreshError
  -- the callback's error
  refresh_failed : Text → RefreshError
  -- ctx.Err()
  context_done : RefreshError

-- What the callback does.
pub data Callback : Type 0 where
  new_token : Text → Callback
  failed : Text → Callback
  panics : Callback

-- Where a request is in refreshAfter401.
pub data Phase : Type 0 where
  idle : Phase
  -- in the select, on the call of the request
  waiting : ℕ → Phase
  -- in the callback, with the token
  running : Text → Phase
  -- behind the callback, before the lock of the deferred function: newToken, and whether it panics
  finishing : Text → Bool → Phase
  -- behind that lock, before close(call.done)
  closing : Bool → Phase
  -- `none` is the nil error
  returned : Option RefreshError → Phase
  panicked : Phase

-- A tokenSource with its calls, and the requests. `none` is nil for an error and for inflight.
pub record TokenSource : Type 0 where
  pub token : Text
  pub inflight : Option ℕ
  pub call_err : ℕ → Option RefreshError
  pub call_done : ℕ → Bool
  pub phase : ℕ → Phase

unfoldable pub update {ℓ} : {A : Type ℓ} → (ℕ → A) → ℕ → A → ℕ → A
update f r a j = if j == r then a else f j

unfoldable pub new_token_source : Text → TokenSource
new_token_source t = record {
  token = t;
  inflight = none;
  call_err = λ r. none;
  call_done = λ r. false;
  phase = λ r. idle;
}

unfoldable pub set_phase : ℕ → Phase → TokenSource → TokenSource
unfolding update
set_phase r p s = record s { phase = update s.phase r p }

-- refreshAfter401 up to the release of the lock, or up to the return where it returns before.
unfoldable pub begin_refresh : Bool → ℕ → Text → TokenSource → TokenSource
unfolding set_phase update text_eq
begin_refresh can_refresh r sent s =
    if not can_refresh
    then set_phase r (returned none) s
    else if not (text_eq s.token sent)
    then set_phase r (returned none) s
    else elim s.inflight [
      | some c ↦ set_phase r (waiting c) s
      | none ↦ record s {
        inflight = some r;
        call_err = update s.call_err r (some aborted);
        call_done = update s.call_done r false;
        phase = update s.phase r (running sent);
      }
    ]

-- What the callback's end does to call.err, and newToken.
unfoldable pub callback_done : ℕ → Callback → TokenSource → TokenSource
unfolding update
callback_done r (new_token t) s = record s {
  call_err = update s.call_err r none;
  phase = update s.phase r (finishing t false);
}
callback_done r (failed e) s = record s {
  call_err = update s.call_err r (some (refresh_failed e));
  phase = update s.phase r (finishing [] false);
}
callback_done r panics s = set_phase r (finishing [] true) s

-- The deferred function under its lock.
unfoldable pub publish : ℕ → Text → Bool → TokenSource → TokenSource
unfolding update
publish r t panicking s = record s {
  token = elim (s.call_err r) [ none ↦ t | some e ↦ s.token ];
  inflight = none;
  phase = update s.phase r (closing panicking);
}

-- close(call.done), and the return behind the deferred function.
unfoldable pub close_done : ℕ → Bool → TokenSource → TokenSource
unfolding update
close_done r panicking s = record s {
  call_done = update s.call_done r true;
  phase = update s.phase r (if panicking then panicked else returned (s.call_err r));
}

-- One step of one request. Any order of these is an interleaving.
pub data Step (can_refresh : Bool) (s : TokenSource) : TokenSource → Type 0 where
  begin_step :
      (r : ℕ) (sent : Text) {s' : TokenSource}
      → s.phase r ≡ idle
      → s' ≡ begin_refresh can_refresh r sent s
      → Step can_refresh s s'
  callback_step :
      (r : ℕ) (sent : Text) (k : Callback) {s' : TokenSource}
      → s.phase r ≡ running sent
      → s' ≡ callback_done r k s
      → Step can_refresh s s'
  publish_step :
      (r : ℕ) (t : Text) (panicking : Bool) {s' : TokenSource}
      → s.phase r ≡ finishing t panicking
      → s' ≡ publish r t panicking s
      → Step can_refresh s s'
  close_step :
      (r : ℕ) (panicking : Bool) {s' : TokenSource}
      → s.phase r ≡ closing panicking
      → s' ≡ close_done r panicking s
      → Step can_refresh s s'
  wake_step :
      (r c : ℕ) {s' : TokenSource}
      → s.phase r ≡ waiting c
      → s.call_done c ≡ true
      → s' ≡ set_phase r (returned (s.call_err c)) s
      → Step can_refresh s s'
  cancel_step :
      (r c : ℕ) {s' : TokenSource}
      → s.phase r ≡ waiting c
      → s' ≡ set_phase r (returned (some context_done)) s
      → Step can_refresh s s'

-- What interleavings reach.
pub data Reachable (can_refresh : Bool) (first : Text) : TokenSource → Type 0 where
  start : {s : TokenSource} → s ≡ new_token_source first → Reachable can_refresh first s
  next :
      {s s' : TokenSource}
      → Reachable can_refresh first s
      → Step can_refresh s s'
      → Reachable can_refresh first s'
