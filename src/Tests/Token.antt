-- ===== src/Tests/Token.antt =====
-- adt/tokensource.go: requests 0 and 1 get a 401 for the same token; request 0 refreshes, 1 waits.
use adtler.Prelude.{ℕ, ◌≡◌, ◌⊎◌, refl, true, false, none, some, Text, codes, []}
use adtler.Token.{
  aborted, refresh_failed, new_token, failed, panics, finishing, returned, panicked, TokenSource,
  new_token_source, set_phase, begin_refresh, callback_done, publish, close_done, begin_step,
  callback_step, publish_step, close_step, wake_step, Reachable, start, next,
}
use adtler.Token.Exclusion.{Reachable-one_refresh}
use adtler.Token.Release.{Returns, Reachable-shared_outcome, Reachable-Returns}
use adtler.Token.Change.{Returned, Reachable-token_change}

abbrev old : Text
old = codes "old"

abbrev new : Text
new = codes "new"

abbrev fresh : TokenSource
fresh = new_token_source old

abbrev refreshing : TokenSource
refreshing = begin_refresh true 0 old fresh

abbrev joined : TokenSource
joined = begin_refresh true 1 old refreshing

joined-Reachable : Reachable true old joined
unfolding new_token_source begin_refresh
joined-Reachable =
    next (next (start refl) (begin_step 0 old refl refl)) (begin_step 1 old refl refl)

abbrev succeeded : TokenSource
succeeded = callback_done 0 (new_token new) joined

succeeded-Reachable : Reachable true old succeeded
unfolding new_token_source begin_refresh callback_done
succeeded-Reachable = next joined-Reachable (callback_step 0 old (new_token new) refl refl)

abbrev stored : TokenSource
stored = publish 0 new false succeeded

abbrev closed : TokenSource
closed = close_done 0 false (publish 0 [] false (callback_done 0 (failed (codes "no")) joined))

closed-Reachable : Reachable true old closed
unfolding new_token_source begin_refresh callback_done publish close_done
closed-Reachable =
    next
      (next (next joined-Reachable (callback_step 0 old (failed (codes "no")) refl refl))
        (publish_step 0 [] false refl refl))
      (close_step 0 false refl refl)

Reachable-one_refresh_example : (◌≡◌ {A = ℕ} 0 0) × (old ≡ joined.token)
unfolding new_token_source begin_refresh
Reachable-one_refresh_example =
    Reachable-one_refresh true old joined 0 0 old old joined-Reachable refl refl

Reachable-Returns_example : Returns true 1 0 panics joined
unfolding new_token_source begin_refresh
Reachable-Returns_example = Reachable-Returns true old joined 1 0 panics joined-Reachable refl

abbrev woken : TokenSource
woken = set_phase 1 (returned (some (refresh_failed (codes "no")))) closed

Reachable-shared_outcome_example :
    (woken.phase 0 ≡ returned (some (refresh_failed (codes "no"))))
    ⊎ ((woken.phase 0 ≡ panicked) × (some (refresh_failed (codes "no")) ≡ some aborted))
unfolding new_token_source begin_refresh callback_done publish close_done set_phase
Reachable-shared_outcome_example =
    Reachable-shared_outcome true old closed woken 1 0 (some (refresh_failed (codes "no")))
      closed-Reachable (wake_step 1 0 refl refl refl) refl refl (λ h. cc h)

Reachable-token_change_example :
    (r : ℕ) × Returned succeeded-Reachable r stored.token
    × (succeeded.phase r ≡ finishing stored.token false)
    × (succeeded.call_err r ≡ none)
    × (stored.inflight ≡ none)
unfolding new_token_source begin_refresh callback_done publish
Reachable-token_change_example =
    Reachable-token_change true old succeeded stored succeeded-Reachable
      (publish_step 0 new false refl refl) (λ h. cc h)
