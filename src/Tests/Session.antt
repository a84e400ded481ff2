-- ===== src/Tests/Session.antt =====
-- adt/client.go against a system that answers the preflight with a CSRF token.
use adtler.Prelude.{
  ◌≡◌, refl, ℕ, ◌==◌, ◌||◌, true, false, [], ◌∷◌, none, some, Text, codes, if◌then◌else◌, length,
}
use adtler.Session.{
  Config, Response, unresolved, err, Session, World, has_secure_cookie_on_http, is_placeholder,
}
use adtler.Session.Calls.{can_refresh, encode_namespace_path, do_read_with, do_mutate_with}
use adtler.Session.Steps.{quiet}
use adtler.Session.Sent.{do_mutate_with-quiet, do_read_with-quiet}
use adtler.Session.Unresolved.{refused_field, do_mutate_with-unresolved}

abbrev config : Config
config = record {
  host = codes "https://sap";
  user = codes "DEV";
  password = codes "secret";
  client = codes "001";
  language = codes "en";
}

abbrev response : ℕ → Response
response status = record { status = status; csrf_token = codes "t1"; set_cookies = []; body = [] }

-- The preflight succeeds; the first other request gets the status, and later ones 200.
abbrev world : ℕ → World
world status = record {
  answer = λ log req. some (response (if length log == 1 then status else 200));
  refresh = none;
}

abbrev fresh : Session
fresh = record {
  csrf_token = [];
  has_secure_cookies = false;
  discovery = none;
  token = [];
  log = [];
}

abbrev path : Text
path = codes "/sap/bc/adt/programs/programs//ABC/REP?lockHandle=a//b"

encoded :
    encode_namespace_path path ≡ codes "/sap/bc/adt/programs/programs/%2fabc%2frep?lockHandle=a//b"
unfolding encode_namespace_path
encoded = refl

secure : has_secure_cookie_on_http (codes "http://sap") (codes "a=1; Path=/; Secure" ∷ []) ≡ true
unfolding has_secure_cookie_on_http
secure = refl

retried : length (do_mutate_with (world 403) config (codes "PUT") path [] [] fresh).1.log ≡ 4
unfolding do_mutate_with
retried = refl

no_refresh : can_refresh (world 401) config ≡ false
unfolding can_refresh
no_refresh = refl

do_mutate_with-quiet_example :
    quiet (do_mutate_with (world 401) config (codes "PUT") path [] [] fresh).1.log ≡ true
do_mutate_with-quiet_example =
    do_mutate_with-quiet (world 401) config (codes "PUT") path [] [] fresh refl no_refresh

do_read_with-quiet_example : quiet (do_read_with (world 401) config path [] fresh).1.log ≡ true
do_read_with-quiet_example = do_read_with-quiet (world 401) config path [] fresh refl no_refresh

abbrev unset : Config
unset = record config { password = codes "${env:SAP_PASSWORD}" }

unset_password : (is_placeholder unset.user || is_placeholder unset.password) ≡ true
unfolding is_placeholder
unset_password = refl

do_mutate_with-unresolved_example :
    do_mutate_with (world 200) unset (codes "PUT") path [] [] fresh
    ≡ (err (unresolved (refused_field (world 200) unset)), fresh)
do_mutate_with-unresolved_example =
    do_mutate_with-unresolved (world 200) unset unset_password fresh refl (codes "PUT") path [] []
