-- ===== src/Session/Calls.antt =====
-- ensureCSRF, doReadWith, doMutateWith and Logout of adt/client.go.
use adtler.Prelude.{
  Bool, not, ◌&&◌, List, [], ◌∷◌, ◌++◌, Option, none, some, is_some, ltb, leb, ◌==◌, if◌then◌else◌,
  Text, codes, text_eq, to_lower, cut_at,
}
use adtler.Session.{
  Config, Request, Response, SessionError, transport_failed, status_error, secure_cookies, Result,
  ok, err, Exchange, Session, World, Act, pure, raise, lift, attempt, ◌>>=◌, ◌>>◌, is_empty,
  set_auth, is_unauthorized, has_secure_cookie_on_http, request_to,
}

unfoldable pub answered : Option Response → Result Response
answered none = err transport_failed
answered (some r) = ok r

unfoldable pub current : Act Session
current s = (ok s, s)

unfoldable pub set_csrf_token : Text → Act (Unit {0})
set_csrf_token t s = (ok tt, record s { csrf_token = t })

unfoldable pub set_token : Text → Act (Unit {0})
set_token t s = (ok tt, record s { token = t })

-- The document of a successful answer is kept.
unfoldable pub discovered : Response → Option Text → Option Text
unfolding is_empty
discovered r old =
    if leb 200 r.status && (ltb r.status 300 && not (is_empty r.body)) then some r.body else old

-- `path` up to the query, and the query with its question mark.
unfoldable pub split_query : Text → Text × Text
unfolding cut_at
split_query path = elim (cut_at b'?' path) [
  | none ↦ (path, [])
  | some (before, query) ↦ (before, b'?' ∷ query)
]

-- The text before the first "//", and the text behind it.
unfoldable pub cut_slashes : Text → Option (Text × Text)
cut_slashes [] = none
cut_slashes (c ∷ []) = none
cut_slashes (c ∷ d ∷ s) =
    let rest = cut_slashes (d ∷ s) in
    if c == b'/' && d == b'/'
    then some ([], s)
    else elim rest [ none ↦ none | some (before, after) ↦ some (c ∷ before, after) ]

-- The name up to the next slash, and the rest from the slash on.
unfoldable pub split_object : Text → Text × Text
unfolding cut_at
split_object s = elim (cut_at b'/' s) [ none ↦ (s, []) | some (name, rest) ↦ (name, b'/' ∷ rest) ]

unfoldable pub encode_object : Text → Text → Text → Text
unfolding split_object to_lower
encode_object before space after =
    let (name, suffix) = split_object after in
    before ++ (codes "/%2f" ++ (to_lower space ++ (codes "%2f" ++ (to_lower name ++ suffix))))

unfoldable pub encode_namespace : Text → Text
unfolding cut_slashes cut_at encode_object
encode_namespace path = elim (cut_slashes path) [
  | none ↦ path
  | some (before, rest) ↦ elim (cut_at b'/' rest) [
    | none ↦ path
    | some (space, after) ↦ encode_object before space after
  ]
]

unfoldable pub encode_namespace_path : Text → Text
unfolding split_query encode_namespace
encode_namespace_path path = let (p, query) = split_query path in encode_namespace p ++ query

module _ (w : World) (cfg : Config) where
  unfoldable pub can_refresh : Bool
  can_refresh = is_some w.refresh

  unfoldable pub send : Request → Act Response
  unfolding answered
  send req s = (
    answered (w.answer s.log req),
    record s { log = record { request = req; response = w.answer s.log req } ∷ s.log },
  )

  unfoldable pub preflight : Request
  unfolding request_to
  preflight = record (request_to (codes "GET") (cfg.host ++ codes "/sap/bc/adt/discovery")) {
    csrf_token = some (codes "Fetch");
    headers = (codes "Accept", codes "application/atomsvc+xml, */*") ∷ [];
  }

  unfoldable pub note_preflight : Response → Act (Unit {0})
  unfolding set_csrf_token raise discovered has_secure_cookie_on_http ◌>>=◌
  note_preflight r = if r.status == 401 then set_csrf_token [] >> raise (status_error r) else λ s. (
    ok tt,
    record s {
      discovery = discovered r s.discovery;
      csrf_token = r.csrf_token;
      has_secure_cookies = has_secure_cookie_on_http cfg.host r.set_cookies;
    },
  )

  unfoldable pub fetch_csrf_token : Act (Unit {0})
  unfolding current lift set_auth send preflight note_preflight ◌>>=◌
  fetch_csrf_token = do
    s ← current
    req ← lift (set_auth cfg s.token preflight)
    r ← send req
    note_preflight r

  -- The callback is asked only where the token is still the rejected one.
  unfoldable pub ask_refresh : Option (Result Text) → Act (Unit {0})
  unfolding set_token raise pure
  ask_refresh none = pure tt
  ask_refresh (some (ok t)) = set_token t
  ask_refresh (some (err e)) = raise e

  unfoldable pub refresh_with :
      Option (List Exchange → Text → Result Text) → Text → Session → Option (Result Text)
  refresh_with none sent s = none
  refresh_with (some f) sent s = some (f s.log sent)

  unfoldable pub refresh_after_401 : Text → Act (Unit {0})
  unfolding current pure text_eq ask_refresh refresh_with ◌>>=◌
  refresh_after_401 sent = do
    s ← current
    if not (text_eq s.token sent) then pure tt else ask_refresh (refresh_with w.refresh sent s)

  unfoldable pub fetch_unless_set : Act (Unit {0})
  unfolding current is_empty fetch_csrf_token pure ◌>>=◌
  fetch_unless_set = do
    s ← current
    if not (is_empty s.csrf_token) then pure tt else fetch_csrf_token

  -- What follows a failed preflight.
  unfoldable pub refresh_preflight : Text → SessionError → Act (Unit {0})
  unfolding is_unauthorized can_refresh raise refresh_after_401 fetch_unless_set ◌>>=◌
  refresh_preflight sent e =
      if not (is_unauthorized e && can_refresh)
      then raise e
      else do refresh_after_401 sent; fetch_unless_set

  unfoldable pub first_preflight : Act (Unit {0})
  unfolding current attempt fetch_csrf_token refresh_preflight pure ◌>>=◌
  first_preflight = do
    s ← current
    r ← attempt fetch_csrf_token
    elim r [ ok done ↦ pure tt | err e ↦ refresh_preflight s.token e ]

  unfoldable pub ensure_csrf : Act (Unit {0})
  unfolding current is_empty first_preflight pure ◌>>=◌
  ensure_csrf = do s ← current; if not (is_empty s.csrf_token) then pure tt else first_preflight

  -- A request with the credentials that are current.
  unfoldable pub send_with_auth : Request → Act Response
  unfolding current lift set_auth send ◌>>=◌
  send_with_auth req = do s ← current; authorized ← lift (set_auth cfg s.token req); send authorized

  unfoldable pub read_request : Text → List (Text × Text) → Request
  unfolding request_to encode_namespace_path
  read_request path headers =
      record (request_to (codes "GET") (cfg.host ++ encode_namespace_path path)) {
        headers = headers;
      }

  unfoldable pub retry_read : Text → Text → List (Text × Text) → Act Response
  unfolding refresh_after_401 fetch_csrf_token send_with_auth read_request ◌>>=◌
  retry_read sent path headers = do
    refresh_after_401 sent
    fetch_csrf_token
    send_with_auth (read_request path headers)

  unfoldable pub do_read_with : Text → List (Text × Text) → Act Response
  unfolding ensure_csrf current send_with_auth can_refresh read_request retry_read pure ◌>>=◌
  do_read_with path headers = do
    ensure_csrf
    s ← current
    r ← send_with_auth (read_request path headers)
    if not (r.status == 401 && can_refresh) then pure r else retry_read s.token path headers

  unfoldable pub mutate_request : Text → Text → Text → List (Text × Text) → Text → Request
  unfolding request_to encode_namespace_path
  mutate_request method path body headers csrf =
      record (request_to method (cfg.host ++ encode_namespace_path path)) {
        csrf_token = some csrf;
        headers = headers;
        body = body;
      }

  -- The second attempt, with the token of a new preflight.
  unfoldable pub retry_mutate : Text → Text → Text → List (Text × Text) → Act Response
  unfolding fetch_csrf_token current send_with_auth mutate_request raise pure ◌>>=◌
  retry_mutate method path body headers = do
    fetch_csrf_token
    s ← current
    r ← send_with_auth (mutate_request method path body headers s.csrf_token)
    if r.status == 403 && s.has_secure_cookies then raise secure_cookies else pure r

  unfoldable pub after_mutate :
      Text → Text → Text → List (Text × Text) → Text → Response → Act Response
  unfolding can_refresh refresh_after_401 retry_mutate pure ◌>>=◌
  after_mutate method path body headers sent r =
      if r.status == 401 && not can_refresh
      then pure r
      else if r.status == 401
      then refresh_after_401 sent >> retry_mutate method path body headers
      else if r.status == 403
      then retry_mutate method path body headers
      else pure r

  unfoldable pub do_mutate_with : Text → Text → Text → List (Text × Text) → Act Response
  unfolding ensure_csrf current send_with_auth mutate_request after_mutate ◌>>=◌
  do_mutate_with method path body headers = do
    ensure_csrf
    s ← current
    r ← send_with_auth (mutate_request method path body headers s.csrf_token)
    after_mutate method path body headers s.token r

  unfoldable pub end_session : Response → Act (Unit {0})
  unfolding set_csrf_token raise pure ◌>>=◌
  end_session r = do set_csrf_token []; if r.status == 401 then raise (status_error r) else pure tt

  unfoldable pub logout : Act (Unit {0})
  unfolding send_with_auth request_to end_session ◌>>=◌
  logout = do
    r ← send_with_auth (request_to (codes "GET") (cfg.host ++ codes "/sap/public/bc/icf/logoff"))
    end_session r
