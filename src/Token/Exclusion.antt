-- ===== src/Token/Exclusion.antt =====
-- One refresh at a time, and no request that waits for ever.
use adtler.Prelude.{ℕ, ◌≡◌, ◌⊎◌, refl, Bool, true, false, Option, some, Text, text_eq_iff, arith}
use adtler.Token.{
  RefreshError, context_done, Callback, new_token, failed, panics, Phase, idle, waiting, running,
  finishing, closing, returned, panicked, TokenSource, update, new_token_source, set_phase,
  begin_refresh, callback_done, publish, close_done, Step, begin_step, callback_step, publish_step,
  close_step, wake_step, cancel_step, Reachable, start, next,
}

-- The request has the refresh that `inflight` names.
unfoldable pub holds : Phase → Bool
holds idle = false
holds (waiting c) = false
holds (running t) = true
holds (finishing t p) = true
holds (closing p) = false
holds (returned e) = false
holds panicked = false

-- The request will still close its call.
unfoldable pub busy : Phase → Bool
busy idle = false
busy (waiting c) = false
busy (running t) = true
busy (finishing t p) = true
busy (closing p) = true
busy (returned e) = false
busy panicked = false

pub record Consistent (s : TokenSource) : Type 0 where
  pub held : (r : ℕ) → holds (s.phase r) ≡ true → s.inflight ≡ some r
  pub served : (c : ℕ) → s.inflight ≡ some c → holds (s.phase c) ≡ true
  pub current : (r : ℕ) (sent : Text) → s.phase r ≡ running sent → s.token ≡ sent
  pub awaited :
      (r c : ℕ) → s.phase r ≡ waiting c → (s.call_done c ≡ true) ⊎ (busy (s.phase c) ≡ true)

holds→busy : (p : Phase) → holds p ≡ true → busy p ≡ true
unfolding holds busy
holds→busy idle h = absurd (cc h)
holds→busy (waiting c) h = absurd (cc h)
holds→busy (running t) h = refl
holds→busy (finishing t p) h = refl
holds→busy (closing p) h = absurd (cc h)
holds→busy (returned e) h = absurd (cc h)
holds→busy panicked h = absurd (cc h)

new_token_source-Consistent : (t : Text) → Consistent (new_token_source t)
unfolding new_token_source holds
new_token_source-Consistent t = record {
  held = λ r h. absurd (cc h);
  served = λ c h. absurd (cc h);
  current = λ r sent h. absurd (cc h);
  awaited = λ r c h. absurd (cc h);
}

begin_refresh-Consistent :
    (can : Bool) (r : ℕ) (sent : Text) (s : TokenSource)
    → s.phase r ≡ idle
    → Consistent s
    → Consistent (begin_refresh can r sent s)
unfolding begin_refresh set_phase update holds busy
begin_refresh-Consistent can r sent s e inv = record {
  held = λ j h. ground (arith, inv.held j);
  served = λ c h. ground (arith, inv.served c);
  current = λ j t h. ground (arith, inv.current j t, text_eq_iff s.token sent);
  awaited = λ j c h. ground (arith, inv.awaited j c, inv.served c, holds→busy (s.phase c));
}

module _ (r : ℕ) (s : TokenSource) (inv : Consistent s) where
  callback_done-Consistent :
      (sent : Text) (k : Callback) → s.phase r ≡ running sent → Consistent (callback_done r k s)
  unfolding callback_done set_phase update holds busy
  callback_done-Consistent sent (new_token t) e = record {
    held = λ j h. ground (arith, inv.held j);
    served = λ c h. ground (arith, inv.served c);
    current = λ j t h. ground (arith, inv.current j t);
    awaited = λ j c h. ground (arith, inv.awaited j c);
  }
  callback_done-Consistent sent (failed x) e = record {
    held = λ j h. ground (arith, inv.held j);
    served = λ c h. ground (arith, inv.served c);
    current = λ j t h. ground (arith, inv.current j t);
    awaited = λ j c h. ground (arith, inv.awaited j c);
  }
  callback_done-Consistent sent panics e = record {
    held = λ j h. ground (arith, inv.held j);
    served = λ c h. ground (arith, inv.served c);
    current = λ j t h. ground (arith, inv.current j t);
    awaited = λ j c h. ground (arith, inv.awaited j c);
  }

  publish-Consistent :
      (t : Text) (p : Bool) → s.phase r ≡ finishing t p → Consistent (publish r t p s)
  unfolding publish update holds busy
  publish-Consistent t p e =
      let mine : s.inflight ≡ some r = inv.held r (rw e refl) in
      record {
        held = λ j h. ground (arith, inv.held j);
        served = λ c h. absurd (cc h);
        current = λ j t' h. let other = inv.held j in ground arith;
        awaited = λ j c h. ground (arith, inv.awaited j c);
      }

  close_done-Consistent : (p : Bool) → s.phase r ≡ closing p → Consistent (close_done r p s)
  unfolding close_done update holds busy
  close_done-Consistent p e = record {
    held = λ j h. ground (arith, inv.held j);
    served = λ c h. ground (arith, inv.served c);
    current = λ j t h. ground (arith, inv.current j t);
    awaited = λ j c h. ground (arith, inv.awaited j c);
  }

  -- A waiting request leaves.
  leave-Consistent :
      (c : ℕ) (x : Option RefreshError)
      → s.phase r ≡ waiting c
      → Consistent (set_phase r (returned x) s)
  unfolding set_phase update holds busy
  leave-Consistent c x e = record {
    held = λ j h. ground (arith, inv.held j);
    served = λ c h. ground (arith, inv.served c);
    current = λ j t h. ground (arith, inv.current j t);
    awaited = λ j c' h. ground (arith, inv.awaited j c');
  }

module _ (can : Bool) where
  Step-Consistent : (s s' : TokenSource) → Consistent s → Step can s s' → Consistent s'
  Step-Consistent s s' inv (begin_step r sent e made) =
      rw made (begin_refresh-Consistent can r sent s e inv)
  Step-Consistent s s' inv (callback_step r sent k e made) =
      rw made (callback_done-Consistent r s inv sent k e)
  Step-Consistent s s' inv (publish_step r t p e made) = rw made (publish-Consistent r s inv t p e)
  Step-Consistent s s' inv (close_step r p e made) = rw made (close_done-Consistent r s inv p e)
  Step-Consistent s s' inv (wake_step r c e done made) =
      rw made (leave-Consistent r s inv c (s.call_err c) e)
  Step-Consistent s s' inv (cancel_step r c e made) =
      rw made (leave-Consistent r s inv c (some context_done) e)

  pub Reachable-Consistent : (first : Text) (s : TokenSource) → Reachable can first s → Consistent s
  Reachable-Consistent first s (start e) = rw e (new_token_source-Consistent first)
  Reachable-Consistent first s (next {s = before} reached step) =
      Step-Consistent before s (Reachable-Consistent first before reached) step

-- Under any interleaving at most one request runs the refresh callback, and it runs it with the
-- current token.
pub Reachable-one_refresh :
    (can : Bool) (first : Text) (s : TokenSource) (r r' : ℕ) (sent sent' : Text)
    → Reachable can first s
    → s.phase r ≡ running sent
    → s.phase r' ≡ running sent'
    → (r ≡ r') × (sent ≡ s.token)
unfolding holds
Reachable-one_refresh can first s r r' sent sent' reached e e' =
    let inv = Reachable-Consistent can first s reached in
    let mine = inv.held r (rw e refl) in
    let theirs = inv.held r' (rw e' refl) in
    let now = inv.current r sent e in (ground arith, ground arith)
