-- ===== src/Token/Outcome.antt =====
-- What the requests that share a refresh return, and what changes the token.
use adtler.Prelude.{ℕ, ◌≡◌, ◌⊎◌, Bool, true, Option, some, Text, arith}
use adtler.Token.{
  RefreshError, aborted, context_done, Callback, new_token, failed, panics, idle, waiting, running,
  finishing, closing, returned, panicked, TokenSource, update, new_token_source, set_phase,
  begin_refresh, callback_done, publish, close_done, Step, begin_step, callback_step, publish_step,
  close_step, wake_step, cancel_step, Reachable, start, next,
}

-- How a call that is done has ended: its request has returned the call's error, or has panicked and left errRefreshAborted.
abbrev pub Ended : TokenSource → ℕ → Type 0
Ended s c =
    (s.phase c ≡ returned (s.call_err c)) ⊎ ((s.phase c ≡ panicked) × (s.call_err c ≡ some aborted))

pub record Settled (s : TokenSource) : Type 0 where
  pub opened : (r : ℕ) (t : Text) → s.phase r ≡ running t → s.call_err r ≡ some aborted
  pub unwinding : (r : ℕ) (t : Text) → s.phase r ≡ finishing t true → s.call_err r ≡ some aborted
  pub unwound : (r : ℕ) → s.phase r ≡ closing true → s.call_err r ≡ some aborted
  pub ended : (c : ℕ) → s.call_done c ≡ true → Ended s c

new_token_source-Settled : (t : Text) → Settled (new_token_source t)
unfolding new_token_source
new_token_source-Settled t = record {
  opened = λ r t h. absurd (cc h);
  unwinding = λ r t h. absurd (cc h);
  unwound = λ r h. absurd (cc h);
  ended = λ c h. absurd (cc h);
}

module _ (r : ℕ) (s : TokenSource) (inv : Settled s) where
  begin_refresh-Settled :
      (can : Bool) (sent : Text) → s.phase r ≡ idle → Settled (begin_refresh can r sent s)
  unfolding begin_refresh set_phase update
  begin_refresh-Settled can sent e = record {
    opened = λ j t h. ground (arith, inv.opened j t);
    unwinding = λ j t h. ground (arith, inv.unwinding j t);
    unwound = λ j h. ground (arith, inv.unwound j);
    ended = λ c h. ground (arith, inv.ended c);
  }

  callback_done-Settled :
      (sent : Text) (k : Callback) → s.phase r ≡ running sent → Settled (callback_done r k s)
  unfolding callback_done set_phase update
  callback_done-Settled sent (new_token t) e = record {
    opened = λ j t h. ground (arith, inv.opened j t);
    unwinding = λ j t h. ground (arith, inv.unwinding j t);
    unwound = λ j h. ground (arith, inv.unwound j);
    ended = λ c h. ground (arith, inv.ended c);
  }
  callback_done-Settled sent (failed x) e = record {
    opened = λ j t h. ground (arith, inv.opened j t);
    unwinding = λ j t h. ground (arith, inv.unwinding j t);
    unwound = λ j h. ground (arith, inv.unwound j);
    ended = λ c h. ground (arith, inv.ended c);
  }
  callback_done-Settled sent panics e = record {
    opened = λ j t h. ground (arith, inv.opened j t);
    unwinding = λ j t h. ground (arith, inv.unwinding j t, inv.opened r sent);
    unwound = λ j h. ground (arith, inv.unwound j);
    ended = λ c h. ground (arith, inv.ended c);
  }

  publish-Settled : (t : Text) (p : Bool) → s.phase r ≡ finishing t p → Settled (publish r t p s)
  unfolding publish update
  publish-Settled t p e = record {
    opened = λ j t h. ground (arith, inv.opened j t);
    unwinding = λ j t h. ground (arith, inv.unwinding j t);
    unwound = λ j h. ground (arith, inv.unwound j, inv.unwinding r t);
    ended = λ c h. ground (arith, inv.ended c);
  }

  close_done-Settled : (p : Bool) → s.phase r ≡ closing p → Settled (close_done r p s)
  unfolding close_done update
  close_done-Settled p e = record {
    opened = λ j t h. ground (arith, inv.opened j t);
    unwinding = λ j t h. ground (arith, inv.unwinding j t);
    unwound = λ j h. ground (arith, inv.unwound j);
    ended = λ c h. ground (arith, inv.ended c, inv.unwound r);
  }

  leave-Settled :
      (c : ℕ) (x : Option RefreshError)
      → s.phase r ≡ waiting c
      → Settled (set_phase r (returned x) s)
  unfolding set_phase update
  leave-Settled c x e = record {
    opened = λ j t h. ground (arith, inv.opened j t);
    unwinding = λ j t h. ground (arith, inv.unwinding j t);
    unwound = λ j h. ground (arith, inv.unwound j);
    ended = λ c' h. ground (arith, inv.ended c');
  }

module _ (can : Bool) where
  Step-Settled : (s s' : TokenSource) → Settled s → Step can s s' → Settled s'
  Step-Settled s s' inv (begin_step r sent e made) =
      rw made (begin_refresh-Settled r s inv can sent e)
  Step-Settled s s' inv (callback_step r sent k e made) =
      rw made (callback_done-Settled r s inv sent k e)
  Step-Settled s s' inv (publish_step r t p e made) = rw made (publish-Settled r s inv t p e)
  Step-Settled s s' inv (close_step r p e made) = rw made (close_done-Settled r s inv p e)
  Step-Settled s s' inv (wake_step r c e done made) =
      rw made (leave-Settled r s inv c (s.call_err c) e)
  Step-Settled s s' inv (cancel_step r c e made) =
      rw made (leave-Settled r s inv c (some context_done) e)

  pub Reachable-Settled : (first : Text) (s : TokenSource) → Reachable can first s → Settled s
  Reachable-Settled first s (start e) = rw e (new_token_source-Settled first)
  Reachable-Settled first s (next {s = before} reached step) =
      Step-Settled before s (Reachable-Settled first before reached) step
