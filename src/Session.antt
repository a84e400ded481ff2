-- ===== src/Session.antt =====
-- The requests of adt/client.go: credentials, the CSRF token, and what is sent again. One call at a
-- time; the token source is that of adt/tokensource.go without other requests. Cookies are left out.
pub mod Calls
pub mod Steps
pub mod Requests
pub mod Sent
pub mod Ends
pub mod Trace
pub mod Unresolved
use adtler.Prelude.{
  ◌+◌, ◌-◌, Bool, true, false, not, ◌&&◌, ◌||◌, List, [], ◌∷◌, ◌++◌, Option, none, some, ltb, leb,
  ◌==◌, is_some, if◌then◌else◌, any, all, ℕ, length, take, drop, Text, codes, text_eq, to_upper,
  to_lower, trim_space, has_prefix,
}
use adtler.Patch.Substitute.{contains}

-- sapmcpconfig.SAPSystem, with the fields that are read.
pub record Config : Type 0 where
  pub host : Text
  pub user : Text
  pub password : Text
  pub client : Text
  pub language : Text

pub data Credentials : Type 0 where
  no_credentials : Credentials
  basic : Text → Text → Credentials
  bearer : Text → Credentials

-- A header is `none` where it is not set. `headers` are those of the caller.
pub record Request : Type 0 where
  pub method : Text
  pub url : Text
  pub credentials : Credentials
  pub sap_client : Option Text
  pub sap_language : Option Text
  pub accept_language : Option Text
  pub csrf_token : Option Text
  pub headers : List (Text × Text)
  pub body : Text

pub record Response : Type 0 where
  pub status : ℕ
  pub csrf_token : Text
  pub set_cookies : List Text
  pub body : Text

pub data SessionError : Type 0 where
  -- errors.Is ErrUnresolvedPlaceholder: the field
  unresolved : Text → SessionError
  -- the error of http.Client.Do
  transport_failed : SessionError
  -- the error that checkResponse makes of a response
  status_error : Response → SessionError
  refresh_failed : Text → SessionError
  secure_cookies : SessionError

pub data Result (A : Type 0) : Type 0 where
  ok : A → Result A
  err : SessionError → Result A

-- A request, and the response to it, if there was one.
pub record Exchange : Type 0 where
  pub request : Request
  pub response : Option Response

-- The fields of httpClient that change, with the token of its token source, and what has been sent,
-- the last request first.
pub record Session : Type 0 where
  pub csrf_token : Text
  pub has_secure_cookies : Bool
  pub discovery : Option Text
  pub token : Text
  pub log : List Exchange

-- What SAP answers, and the callback that refreshes a token, if there is one.
pub record World : Type 0 where
  pub answer : List Exchange → Request → Option Response
  pub refresh : Option (List Exchange → Text → Result Text)

abbrev pub Act : Type 0 → Type 0
Act A = Session → Result A × Session

module _ {A : Type 0} where
  unfoldable pub pure : A → Act A
  pure a s = (ok a, s)

  unfoldable pub raise : SessionError → Act A
  raise e s = (err e, s)

  unfoldable pub lift : Result A → Act A
  lift r s = (r, s)

  -- The error as a value, for code that goes on behind it.
  unfoldable pub attempt : Act A → Act (Result A)
  attempt m s = (ok (m s).0, (m s).1)

module _ {A B : Type 0} where
  unfoldable pub continue : Result A → (A → Act B) → Act B
  continue (ok a) f s = f a s
  continue (err e) f s = (err e, s)

  infixl 10 ◌>>=◌ ◌>>◌
  unfoldable pub ◌>>=◌ : Act A → (A → Act B) → Act B
  unfolding continue
  ◌>>=◌ m f s = continue (m s).0 f (m s).1

  abbrev pub ◌>>◌ : Act A → Act B → Act B
  m >> n = m >>= λ _. n

-- envPlaceholderRe: ${env:VAR} and nothing else
unfoldable pub is_letter : ℕ → Bool
is_letter c = (leb b'A' c && leb c b'Z') || (leb b'a' c && leb c b'z') || c == b'_'

unfoldable pub is_variable_end : Text → Bool
unfolding is_letter
is_variable_end [] = false
is_variable_end (c ∷ []) = c == b'}'
is_variable_end (c ∷ d ∷ s) = (is_letter c || (leb b'0' c && leb c b'9')) && is_variable_end (d ∷ s)

unfoldable pub is_variable : Text → Bool
unfolding is_letter is_variable_end
is_variable [] = false
is_variable (c ∷ s) = is_letter c && is_variable_end s

unfoldable pub is_placeholder : Text → Bool
unfolding has_prefix is_variable
is_placeholder value = has_prefix value (codes "${env:") && is_variable (drop 6 value)

unfoldable pub check_resolved : Text → Text → Result (Unit {0})
unfolding is_placeholder
check_resolved field value = if is_placeholder value then err (unresolved field) else ok tt

unfoldable pub is_empty : Text → Bool
is_empty [] = true
is_empty (c ∷ s) = false

unfoldable pub unless_empty : Text → Option Text
unless_empty [] = none
unless_empty (c ∷ s) = some (c ∷ s)

-- The logon client and language. Accept-Language takes a tag of two letters only.
unfoldable pub set_language : Text → Request → Request
unfolding is_empty to_upper to_lower
set_language lang req = if is_empty lang then req else record req {
  sap_language = some (to_upper lang);
  accept_language = if length lang == 2 then some (to_lower lang) else req.accept_language;
}

unfoldable pub set_logon : Config → Credentials → Request → Request
unfolding unless_empty set_language trim_space
set_logon cfg credentials req =
    set_language (trim_space cfg.language)
      (record req { credentials = credentials; sap_client = unless_empty cfg.client })

unfoldable pub both_resolved :
    Config → Result (Unit {0}) → Result (Unit {0}) → Request → Result Request
unfolding set_logon
both_resolved cfg (err e) password req = err e
both_resolved cfg (ok user) (err e) req = err e
both_resolved cfg (ok user) (ok password) req = ok (set_logon cfg (basic cfg.user cfg.password) req)

unfoldable pub set_auth : Config → Text → Request → Result Request
unfolding set_logon check_resolved both_resolved
set_auth cfg [] req =
    both_resolved cfg (check_resolved (codes "user") cfg.user)
      (check_resolved (codes "password") cfg.password) req
set_auth cfg (c ∷ token) req = ok (set_logon cfg (bearer (c ∷ token)) req)

unfoldable pub is_unauthorized : SessionError → Bool
is_unauthorized (status_error r) = r.status == 401
is_unauthorized (unresolved field) = false
is_unauthorized transport_failed = false
is_unauthorized (refresh_failed t) = false
is_unauthorized secure_cookies = false

unfoldable pub has_secure_cookie_on_http : Text → List Text → Bool
unfolding has_prefix contains to_lower
has_secure_cookie_on_http host cookies =
    if has_prefix host (codes "https://")
    then false
    else any (λ (c : Text). contains (to_lower c) (codes "; secure")) cookies

unfoldable pub request_to : Text → Text → Request
request_to method url = record {
  method = method;
  url = url;
  credentials = no_credentials;
  sap_client = none;
  sap_language = none;
  accept_language = none;
  csrf_token = none;
  headers = [];
  body = [];
}
