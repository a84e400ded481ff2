-- ===== src/Release/Quiet.antt =====
-- The release of adt/transport.go sends nothing behind a 401.
use adtler.Prelude.{◌≡◌, refl, sym, subst, Bool, true, false, List, [], ◌∷◌, if◌then◌else◌, Text}
use adtler.Adt.{
  GoError, is_unauthorized, Result, ok, err, get_transport_tasks, get_transport_info, Log, Exec,
  pure, raise, perform, attempt, continue, ◌>>=◌,
}
use adtler.Adt.Stops.{
  any_call, Ready, Ready-start, Steps, Stops, never, ended, flagged, quiet, Ready-weaken,
  Stops-pure, Stops-perform,
}
use adtler.Adt.Handling.{Steps-note}
use adtler.Release.Stopping.{release_transport_direct-Stops, release_with_tasks-Stops}
use adtler.Release.{
  ReleaseClient, ReleaseResult, result_of, after_tasks, release_failed, release_transport,
  release_transport_verified,
}

is_failed : {A : Type 0} → Result A → Bool
is_failed (ok a) = false
is_failed (err e) = true

-- An action behind whose error nothing may be called, whatever the error.
record Closes {A : Type 0} (b : Bool) (m : Exec A) : Type 0 where
  at : (log : Log) → Ready any_call b log → Ready any_call (is_failed (m log).0) (m log).1

module _ {A : Type 0} where
  Closes-raise : (b : Bool) (e : GoError) → Closes b (raise {A = A} e)
  unfolding raise is_failed
  Closes-raise b e = record { at = λ log h. Ready-weaken any_call b true log (λ _. refl) h }

  Closes-if :
      (t u : Bool) (m n : Exec A)
      → (t ≡ true → Closes u m)
      → (t ≡ false → Closes u n)
      → Closes u (if t then m else n)
  Closes-if true u m n hm hn = hm refl
  Closes-if false u m n hm hn = hn refl

  Closes-calm : (b : Bool) (m : Exec A) → b ≡ false → Closes false m → Closes b m
  Closes-calm b m h s = subst (λ c. Closes c m) (sym h) s

  flagged-is_failed : (r : Result A) → flagged never r ≡ true → is_failed r ≡ true
  unfolding flagged is_failed
  flagged-is_failed (ok a) h = h
  flagged-is_failed (err e) h = refl

  Closes-of-Stops : (m : Exec A) → Stops any_call m → Closes false m
  Closes-of-Stops m s = record {
    at = λ log h. Ready-weaken any_call _ _ _ (flagged-is_failed (m log).0) (s.at log h);
  }

module _ (b : ReleaseClient) where
  after_tasks-Closes :
      (number : Text) (with_tasks : Bool) (e : GoError) (r : Result (List Text))
      → Closes (flagged never r) (after_tasks b number with_tasks e r)
  unfolding after_tasks flagged
  after_tasks-Closes number with_tasks e (err e') = Closes-raise _ e
  after_tasks-Closes number with_tasks e (ok []) = Closes-raise _ e
  after_tasks-Closes number with_tasks e (ok (task ∷ tasks)) =
      Closes-of-Stops _ (release_with_tasks-Stops b number with_tasks (task ∷ tasks))

  -- An action's result, as a value, goes to the next one.
  Closes-attempt :
      {A B : Type 0} (m : Exec A) (k : Result A → Exec B)
      → Stops any_call m
      → ((r : Result A) → Closes (flagged never r) (k r))
      → Closes false (attempt m >>= k)
  unfolding attempt ◌>>=◌ continue
  Closes-attempt m k s h = record { at = λ log q. (h (m log).0).at (m log).1 (s.at log q) }

  release_failed-Closes :
      (number : Text) (with_tasks : Bool) (e : GoError)
      → Closes (is_unauthorized e) (release_failed b number with_tasks e)
  unfolding release_failed
  release_failed-Closes number with_tasks e =
      Closes-if (is_unauthorized e) (is_unauthorized e) _ _ (λ _. Closes-raise _ e)
        (λ x. Closes-calm _ _ x (
          Closes-attempt (perform (get_transport_tasks number) (λ log. b.tasks log number)) _
            (Stops-perform any_call _ _ tt) (after_tasks-Closes number with_tasks e)))

  after_release-Closes :
      (number : Text) (with_tasks : Bool) (r : Result (Unit {0}))
      → Closes
          (flagged never r)
          (elim r [ ok done ↦ pure tt | err e ↦ release_failed b number with_tasks e ])
  unfolding flagged
  after_release-Closes number with_tasks (ok done) = Closes-of-Stops _ (Stops-pure any_call tt)
  after_release-Closes number with_tasks (err e) = release_failed-Closes number with_tasks e

  release_transport-Closes :
      (number : Text) (with_tasks : Bool) → Closes false (release_transport b number with_tasks)
  unfolding release_transport
  release_transport-Closes number with_tasks =
      Closes-attempt _ _ (release_transport_direct-Stops b number)
        (after_release-Closes number with_tasks)

  -- Behind the release, only its status is read.
  verified-Ready :
      (number : Text) (r : Result (Unit {0})) (k : Exec ReleaseResult) (log : Log)
      → Steps any_call ended false k
      → Ready any_call (is_failed r) log
      → quiet (continue r (λ _. k) log).1 ≡ true
  unfolding continue is_failed
  verified-Ready number (ok done) k log s h = (s.at log h).quietly refl
  verified-Ready number (err e) k log s h = h.quietly refl

-- Whatever SAP answers, the release of a request, with or without its tasks, sends nothing behind
-- a request that was answered with 401: no job, no poll, no task, and no read of the status.
pub release_transport_verified-quiet :
    (b : ReleaseClient) (number : Text) (with_tasks : Bool)
    → quiet (release_transport_verified b number with_tasks []).1 ≡ true
unfolding release_transport_verified ◌>>=◌
release_transport_verified-quiet b number with_tasks =
    verified-Ready b number (release_transport b number with_tasks []).0 _ _
      (Steps-note any_call ended (perform (get_transport_info number) (λ log. b.info log number))
        (result_of number) (Stops-perform any_call _ _ tt) (λ _ _. refl))
      ((release_transport-Closes b number with_tasks).at [] (Ready-start any_call))
