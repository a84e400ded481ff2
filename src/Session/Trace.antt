-- ===== src/Session/Trace.antt =====
-- What doMutateWith sends, request by request, with the tokens that are current then.
use adtler.Prelude.{◌≡◌, List, [], ◌∷◌, ◌==◌, Option, none, some, if◌then◌else◌, Text}
use adtler.Session.{Config, Request, Response, Result, ok, Exchange, Session, World, set_auth}
use adtler.Session.Calls.{preflight, mutate_request}
use adtler.Session.Ends.{Ends}

-- The CSRF token behind a preflight's answer.
abbrev pub csrf_after : Option Response → Text → Text
csrf_after none csrf = csrf
csrf_after (some r) csrf = if r.status == 401 then [] else r.csrf_token

module _ (w : World) (cfg : Config) (method path body : Text) (headers : List (Text × Text)) where
  -- What has been sent since the first session, the last request first, and the OAuth token and the CSRF
  -- token that are current behind it.
  pub data Sends (first : Session) : List Exchange → Text → Text → Type 0 where
    nothing_sent : Sends first first.log first.token first.csrf_token
    preflight_sent :
        {log : List Exchange} {token csrf : Text} (req : Request)
        → Sends first log token csrf
        → set_auth cfg token (preflight w cfg) ≡ ok req
        → Sends first
            (record { request = req; response = w.answer log req } ∷ log)
            token
            (csrf_after (w.answer log req) csrf)
    request_sent :
        {log : List Exchange} {token csrf : Text} (req : Request)
        → Sends first log token csrf
        → set_auth cfg token (mutate_request w cfg method path body headers csrf) ≡ ok req
        → Sends first (record { request = req; response = w.answer log req } ∷ log) token csrf
    token_refreshed :
        {log : List Exchange} {token csrf : Text} (f : List Exchange → Text → Result Text)
        (new : Text)
        → Sends first log token csrf
        → w.refresh ≡ some f
        → f log token ≡ ok new
        → Sends first log new csrf

  -- The answer is that to the caller's request, which was sent last and with the tokens that are current.
  pub record AnsweredLast (r : Response) (s : Session) : Type 0 where
    pub req : Request
    pub before : List Exchange
    pub last : s.log ≡ record { request = req; response = some r } ∷ before
    pub authorized :
        set_auth cfg s.token (mutate_request w cfg method path body headers s.csrf_token) ≡ ok req

  module _ (first : Session) where
    abbrev SentTo : Session → Type 0
    SentTo s = Sends first s.log s.token s.csrf_token
