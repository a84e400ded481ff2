-- ===== src/Release/Stopping.antt =====
-- The actions of adt/transport.go's release that stop behind a 401 with its error.
use adtler.Prelude.{
  ◌≡◌, refl, sym, subst, ◌∙◌, inl, inr, ℕ, zero, suc, Bool, true, false, List, [], ◌∷◌, Option,
  none, some, ltb, leb, ◌==◌, Text, codes, Bool-cases, arith,
}
use adtler.Adt.{wrap, as_adt, is_unauthorized, Result, ok, err, Call, Log, Exec, wrap_error}
use adtler.Adt.Stops.{
  any_call, Steps, Stops, never, flagged, quiet, is_fine, Steps-raise, Steps-if, Steps-bind,
  Steps-wrap_error, Ready-calm, Stops-lift, Stops-pure, Stops-raise, Stops-bind, Stops-wrap_error,
  Stops-if,
}
use adtler.Release.{
  message, Reply, BackgroundRun, ReleaseClient, is_refused, is_refusal, send, first_link,
  check_release_response, adt_error, read_address, fetch_release_result, finished, after_poll, poll,
  poll_background_release, polled_or_checked, post_release, release_fallback,
  release_transport_direct, release_tasks, release_with_tasks,
}

is_refusal-flagged : (r : Result Reply) → is_refusal r ≡ flagged is_refused r
unfolding is_refusal flagged
is_refusal-flagged (ok a) = refl
is_refusal-flagged (err e) = refl

send-Steps :
    (c : Call) (answer : Log → Result Reply) → Steps any_call is_refused false (send c answer)
unfolding send quiet is_fine
send-Steps c answer = record {
  at = λ log h. record {
    allowed = (tt, h.allowed);
    quietly = Ready-calm any_call log h;
    open_end = λ strict. elim (Bool-cases (is_refusal (answer log))) [
      | inl x ↦ inr (sym (is_refusal-flagged (answer log)) ∙ x)
      | inr x ↦ inl (rw x (Ready-calm any_call log h strict))
    ];
  };
}

-- What follows an answer with another status.
after-Steps :
    {B : Type 0} (r : Reply) (m : Exec B)
    → is_refused r ≡ false
    → Stops any_call m
    → Steps any_call never (is_refused r) m
after-Steps r m h s = subst (λ b. Steps any_call never b m) (sym h) s

not_refused : (r : Reply) → leb 400 r.status ≡ false → is_refused r ≡ false
unfolding is_refused
not_refused r h = ground arith

server_error : (r : Reply) → leb 500 r.status ≡ true → is_refused r ≡ false
unfolding is_refused
server_error r h = ground arith

other_status : (r : Reply) → (r.status == 401) ≡ false → is_refused r ≡ false
unfolding is_refused
other_status r h = h

succeeded : (r : Reply) → ltb r.status 400 ≡ true → is_refused r ≡ false
unfolding is_refused
succeeded r h = ground arith

module _ (b : ReleaseClient) where
  wrapped_error :
      (t : Text) (r : Reply) → is_refused r ≡ true → is_unauthorized (wrap t (adt_error b r)) ≡ true
  unfolding is_refused is_unauthorized as_adt adt_error
  wrapped_error t r h = h

  own_error : (r : Reply) → is_refused r ≡ true → is_unauthorized (adt_error b r) ≡ true
  unfolding is_refused is_unauthorized as_adt adt_error
  own_error r h = h

  read_address-Steps :
      (t : Text) (uri : Text) → Steps any_call is_refused false (wrap_error t (read_address b uri))
  unfolding read_address
  read_address-Steps t uri = Steps-wrap_error any_call is_refused false t _ (send-Steps _ _)

  fetch_release_result-Stops :
      (number uri : Text) → Stops any_call (fetch_release_result b number uri)
  unfolding fetch_release_result
  fetch_release_result-Stops number uri =
      Steps-bind any_call is_refused never false _ _ (read_address-Steps _ uri) (λ r.
        Steps-if any_call never (is_refused r) (r.status == 401) _ _
          (λ h.
            Steps-raise any_call never (is_refused r) _
              (wrapped_error (message number (codes " result")) r))
          (λ h.
            after-Steps r _ (other_status r h)
              (Stops-lift any_call (check_release_response b number r.body))))

  finished-Stops : (number : Text) (uri : Option Text) → Stops any_call (finished b number uri)
  unfolding finished
  finished-Stops number none = Stops-pure any_call tt
  finished-Stops number (some uri) = fetch_release_result-Stops number uri

  after_poll-Stops :
      (number : Text) (again : Exec (Unit {0})) (run : Option BackgroundRun)
      → Stops any_call again
      → Stops any_call (after_poll b number again run)
  unfolding after_poll
  after_poll-Stops number again none h = Stops-raise any_call _
  after_poll-Stops number again (some run) h =
      Stops-if any_call _ _ _ (finished-Stops number (first_link (codes "result") run.links))
        (Stops-if any_call _ _ _ (Stops-raise any_call _) h)

  poll-Stops : (n : ℕ) (number uri : Text) → Stops any_call (poll b n number uri)
  unfolding poll
  poll-Stops zero number uri = Stops-raise any_call _
  poll-Stops (suc n) number uri =
      Steps-bind any_call is_refused never false _ _ (read_address-Steps _ uri) (λ r.
        Steps-if any_call never (is_refused r) (leb 500 r.status) _ _
          (λ h. after-Steps r _ (server_error r h) (poll-Stops n number uri))
          (λ _.
            Steps-if any_call never (is_refused r) (leb 400 r.status) _ _
              (λ h.
                Steps-raise any_call never (is_refused r) _
                  (wrapped_error (message number (codes " poll")) r))
              (λ h.
                after-Steps r _ (not_refused r h)
                  (after_poll-Stops number _ (b.poll_of r.body) (poll-Stops n number uri)))))

  poll_background_release-Stops :
      (number uri : Text) → Stops any_call (poll_background_release b number uri)
  unfolding poll_background_release
  poll_background_release-Stops number uri = record {
    at = λ log h. (poll-Stops (b.polls log) number uri).at log h;
  }

  polled_or_checked-Stops :
      (number body : Text) (uri : Option Text)
      → Stops any_call (polled_or_checked b number body uri)
  unfolding polled_or_checked
  polled_or_checked-Stops number body none = Stops-lift any_call _
  polled_or_checked-Stops number body (some uri) = poll_background_release-Stops number uri

  post_release-Steps :
      (number job : Text) → Steps any_call is_refused false (post_release b number job)
  unfolding post_release
  post_release-Steps number job = Steps-wrap_error any_call is_refused false _ _ (send-Steps _ _)

  release_fallback-Stops : (number : Text) → Stops any_call (release_fallback b number)
  unfolding release_fallback
  release_fallback-Stops number =
      Steps-bind any_call is_refused never false _ _ (post_release-Steps number _) (λ r.
        Steps-if any_call never (is_refused r) (leb 400 r.status) _ _
          (λ h. Steps-raise any_call never (is_refused r) _ (own_error (record r { body = [] })))
          (λ h. after-Steps r _ (not_refused r h) (Stops-lift any_call _)))

  pub release_transport_direct-Stops :
      (number : Text) → Stops any_call (release_transport_direct b number)
  unfolding release_transport_direct
  release_transport_direct-Stops number =
      Steps-bind any_call is_refused never false _ _ (post_release-Steps number _) (λ r.
        Steps-if any_call never (is_refused r) (ltb r.status 400) _ _
          (λ h. after-Steps r _ (succeeded r h) (polled_or_checked-Stops number r.body _))
          (λ _.
            Steps-if any_call never (is_refused r) (r.status == 401) _ _
              (λ h.
                Steps-raise any_call never (is_refused r) _ (wrapped_error (message number []) r))
              (λ h. after-Steps r _ (other_status r h) (release_fallback-Stops number))))

  release_tasks-Stops : (tasks : List Text) → Stops any_call (release_tasks b tasks)
  unfolding release_tasks
  release_tasks-Stops [] = Stops-pure any_call tt
  release_tasks-Stops (task ∷ tasks) =
      Stops-bind any_call _ _ (Stops-wrap_error any_call _ _ (release_transport_direct-Stops task))
        (λ _. release_tasks-Stops tasks)

  pub release_with_tasks-Stops :
      (number : Text) (with_tasks : Bool) (tasks : List Text)
      → Stops any_call (release_with_tasks b number with_tasks tasks)
  unfolding release_with_tasks
  release_with_tasks-Stops number false tasks = Stops-raise any_call _
  release_with_tasks-Stops number true tasks =
      Stops-bind any_call _ _ (release_tasks-Stops tasks)
        (λ _. release_transport_direct-Stops number)
