-- ===== src/Release.antt =====
-- adt/transport.go: the release of a request, with the fallback, the tasks and the background run.
pub mod Stopping
pub mod Quiet
use adtler.Prelude.{
  ℕ, zero, suc, Bool, true, false, not, ◌&&◌, ◌||◌, List, [], ◌∷◌, ◌++◌, Option, none, some, ltb,
  leb, ◌==◌, if◌then◌else◌, Text, codes, text_eq, to_lower, join,
}
use adtler.Errors.{AdtError}
use adtler.Adt.{
  GoError, adt, plain, wrap, is_unauthorized, Result, ok, err, Call, get_transport_tasks, post_job,
  get_address, get_transport_info, Log, Exec, pure, raise, lift, perform, wrap_error, attempt,
  ◌>>=◌, ◌>>◌,
}
use adtler.Patch.Substitute.{contains}
use adtler.Transport.Listing.{TransportState, unknown}

pub record Reply : Type 0 where
  pub status : ℕ
  pub body : Text

pub record RunLink : Type 0 where
  pub rel : Text
  pub href : Text

pub record BackgroundRun : Type 0 where
  pub status : Text
  pub links : List RunLink

-- The messages are pairs of a type and a text.
pub record CheckReport : Type 0 where
  pub status : Text
  pub status_text : Text
  pub messages : List (Text × Text)

-- The client's calls, functions of the calls made before, the number of polls before the context
-- ends the wait, and the XML decoder's view of a body, none where it fails.
pub record ReleaseClient : Type 0 where
  pub post : Log → Text → Text → Result Reply
  pub read : Log → Text → Result Reply
  pub tasks : Log → Text → Result (List Text)
  pub info : Log → Text → Result (Option (TransportState × Text))
  pub polls : Log → ℕ
  pub run_of : Text → Option BackgroundRun
  pub poll_of : Text → Option BackgroundRun
  pub report_of : Text → Option CheckReport
  pub error_of : Text → AdtError

pub record ReleaseResult : Type 0 where
  pub transport : Text
  pub state : TransportState
  pub raw_status : Text

unfoldable pub is_refused : Reply → Bool
is_refused r = r.status == 401

unfoldable pub is_refusal : Result Reply → Bool
unfolding is_refused is_unauthorized
is_refusal (ok r) = is_refused r
is_refusal (err e) = is_unauthorized e

abbrev pub message : Text → Text → Text
message number suffix = codes "ReleaseTransport " ++ (number ++ suffix)

-- A request whose answer is a value whatever its status.
unfoldable pub send : Call → (Log → Result Reply) → Exec Reply
unfolding is_refusal
send c answer log = (answer log, record { call = c; rejected = is_refusal (answer log) } ∷ log)

unfoldable pub first_link : Text → List RunLink → Option Text
unfolding contains text_eq
first_link rel [] = none
first_link rel (link ∷ links) =
    let rest = first_link rel links in
    if contains link.rel rel && not (text_eq link.href []) then some link.href else rest

unfoldable pub error_messages : List (Text × Text) → Text
unfolding text_eq
error_messages [] = []
error_messages ((kind, text) ∷ messages) =
    let rest = error_messages messages in
    if text_eq kind (codes "E") then codes ": " ++ (text ++ rest) else rest

unfoldable pub check_report : Text → Option CheckReport → Result (Unit {0})
unfolding text_eq error_messages
check_report number none = ok tt
check_report number (some r) =
    if text_eq r.status [] || text_eq r.status (codes "released")
    then ok tt
    else err (
        plain (
          codes "ReleaseTransport "
          ++ (number ++ (codes " failed: " ++ (r.status_text ++ error_messages r.messages)))))

unfoldable pub poll_link : Option BackgroundRun → Option Text
unfolding text_eq first_link
poll_link none = none
poll_link (some run) = if text_eq run.status [] then none else first_link (codes "self") run.links

unfoldable pub result_of : Text → Result (Option (TransportState × Text)) → ReleaseResult
result_of number (ok none) = record { transport = number; state = unknown; raw_status = [] }
result_of number (ok (some (state, raw))) = record {
  transport = number;
  state = state;
  raw_status = raw;
}
result_of number (err e) = record { transport = number; state = unknown; raw_status = [] }

module _ (b : ReleaseClient) where
  unfoldable pub check_release_response : Text → Text → Result (Unit {0})
  unfolding check_report
  check_release_response number [] = ok tt
  check_release_response number (c ∷ body) = check_report number (b.report_of (c ∷ body))

  -- none is ""
  unfoldable pub parse_background_run_poll_uri : Text → Option Text
  unfolding poll_link
  parse_background_run_poll_uri [] = none
  parse_background_run_poll_uri (c ∷ body) = poll_link (b.run_of (c ∷ body))

  -- The error that parseADTError makes of an answer.
  unfoldable pub adt_error : Reply → GoError
  adt_error r = adt (record (b.error_of r.body) { status_code = r.status })

  unfoldable pub read_address : Text → Exec Reply
  unfolding send
  read_address uri = send (get_address uri) (λ log. b.read log uri)

  unfoldable pub fetch_release_result : Text → Text → Exec (Unit {0})
  unfolding read_address wrap_error adt_error raise check_release_response lift ◌>>=◌
  fetch_release_result number uri =
      wrap_error (message number (codes " result")) (read_address uri) >>= λ r.
      if r.status == 401
      then raise (wrap (message number (codes " result")) (adt_error r))
      else lift (check_release_response number r.body)

  unfoldable pub finished : Text → Option Text → Exec (Unit {0})
  unfolding fetch_release_result pure
  finished number none = pure tt
  finished number (some uri) = fetch_release_result number uri

  -- The poll's answer; `again` polls on.
  unfoldable pub after_poll : Text → Exec (Unit {0}) → Option BackgroundRun → Exec (Unit {0})
  unfolding text_eq to_lower first_link finished raise
  after_poll number again none = raise (plain (codes "parsing poll response"))
  after_poll number again (some run) =
      if text_eq (to_lower run.status) (codes "finished")
      then finished number (first_link (codes "result") run.links)
      else if text_eq (to_lower run.status) (codes "failed")
          || text_eq (to_lower run.status) (codes "processnotstarted")
      then raise (plain (codes "background run status: " ++ run.status))
      else again

  -- Where no poll is left, the context has ended.
  unfoldable pub poll : ℕ → Text → Text → Exec (Unit {0})
  unfolding read_address wrap_error adt_error after_poll raise ◌>>=◌
  poll zero number uri = raise (plain (codes "context ended"))
  poll (suc n) number uri =
      let again = poll n number uri in
      wrap_error (message number (codes " poll")) (read_address uri) >>= λ r.
      if leb 500 r.status
      then again
      else if leb 400 r.status
      then raise (wrap (message number (codes " poll")) (adt_error r))
      else after_poll number again (b.poll_of r.body)

  unfoldable pub poll_background_release : Text → Text → Exec (Unit {0})
  unfolding poll
  poll_background_release number uri log = poll (b.polls log) number uri log

  unfoldable pub polled_or_checked : Text → Text → Option Text → Exec (Unit {0})
  unfolding poll_background_release check_release_response lift
  polled_or_checked number body none = lift (check_release_response number body)
  polled_or_checked number body (some uri) = poll_background_release number uri

  unfoldable pub post_release : Text → Text → Exec Reply
  unfolding send wrap_error
  post_release number job =
      wrap_error (message number []) (send (post_job number job) (λ log. b.post log number job))

  -- /releasejobs. checkResponse reads the body again, which has been read and closed: it finds it empty.
  unfoldable pub release_fallback : Text → Exec (Unit {0})
  unfolding post_release adt_error raise check_release_response lift ◌>>=◌
  release_fallback number = post_release number (codes "releasejobs") >>= λ r.
      if leb 400 r.status
      then raise (adt_error (record r { body = [] }))
      else lift (check_release_response number r.body)

  unfoldable pub release_transport_direct : Text → Exec (Unit {0})
  unfolding post_release parse_background_run_poll_uri polled_or_checked adt_error release_fallback
      raise ◌>>=◌
  release_transport_direct number = post_release number (codes "newreleasejobs") >>= λ r.
      if ltb r.status 400
      then polled_or_checked number r.body (parse_background_run_poll_uri r.body)
      else if r.status == 401
      then raise (wrap (message number []) (adt_error r))
      else release_fallback number

  unfoldable pub release_tasks : List Text → Exec (Unit {0})
  unfolding release_transport_direct wrap_error pure ◌>>=◌
  release_tasks [] = pure tt
  release_tasks (task ∷ tasks) = do
    wrap_error (codes "ReleaseTransport: releasing task " ++ (task ++ codes " failed"))
        (release_transport_direct task)
    release_tasks tasks

  -- The request has tasks that are not released.
  unfoldable pub release_with_tasks : Text → Bool → List Text → Exec (Unit {0})
  unfolding release_tasks release_transport_direct raise ◌>>=◌ join
  release_with_tasks number false tasks =
      raise (plain (number ++ (codes " has unreleased tasks: " ++ join tasks (codes ", "))))
  release_with_tasks number true tasks = do release_tasks tasks; release_transport_direct number

  unfoldable pub after_tasks : Text → Bool → GoError → Result (List Text) → Exec (Unit {0})
  unfolding release_with_tasks raise
  after_tasks number with_tasks e (err e') = raise e
  after_tasks number with_tasks e (ok []) = raise e
  after_tasks number with_tasks e (ok (task ∷ tasks)) =
      release_with_tasks number with_tasks (task ∷ tasks)

  -- The release has failed.
  unfoldable pub release_failed : Text → Bool → GoError → Exec (Unit {0})
  unfolding is_unauthorized perform attempt after_tasks raise ◌>>=◌
  release_failed number with_tasks e =
      if is_unauthorized e
      then raise e
      else attempt (perform (get_transport_tasks number) (λ log. b.tasks log number))
        >>= after_tasks number with_tasks e

  unfoldable pub release_transport : Text → Bool → Exec (Unit {0})
  unfolding release_transport_direct release_failed attempt pure ◌>>=◌
  release_transport number with_tasks = do
    r ← attempt (release_transport_direct number)
    elim r [ ok done ↦ pure tt | err e ↦ release_failed number with_tasks e ]

  unfoldable pub release_transport_verified : Text → Bool → Exec ReleaseResult
  unfolding release_transport perform attempt pure result_of ◌>>=◌
  release_transport_verified number with_tasks = do
    release_transport number with_tasks
    r ← attempt (perform (get_transport_info number) (λ log. b.info log number))
    pure (result_of number r)
