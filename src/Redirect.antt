-- ===== src/Redirect.antt =====
-- adt/redirect.go: which redirects an http.Client of the package follows.
pub mod Chain
use adtler.Prelude.{
  ℕ, Bool, true, false, not, ◌&&◌, ◌||◌, List, [], ◌∷◌, Option, none, some, ltb, if◌then◌else◌,
  length, Text, codes, text_eq, equal_fold,
}

-- What the code reads of a *url.URL; hostname is what its method Hostname returns.
pub record Url : Type 0 where
  pub scheme : Text
  pub host : Text
  pub hostname : Text

pub data RedirectError : Type 0 where
  -- from, to, and whether the error has the hint on HTTPS
  cross_origin : Url → Url → Bool → RedirectError
  too_many : RedirectError
  -- `via[0]` of an empty list, which panics; net/http never passes one
  no_request : RedirectError

abbrev pub max_redirects : ℕ
max_redirects = 10

unfoldable pub https_hint : Url → Url → Bool
unfolding text_eq equal_fold
https_hint origin url =
    text_eq origin.scheme (codes "http")
    && text_eq url.scheme (codes "https")
    && equal_fold url.hostname origin.hostname

unfoldable pub cross_origin_to : Url → Url → Bool
unfolding text_eq equal_fold
cross_origin_to origin url =
    not (text_eq url.scheme origin.scheme) || not (equal_fold url.host origin.host)

-- `none` where the redirect is followed
unfoldable pub same_origin_redirect : Url → List Url → Option RedirectError
unfolding https_hint cross_origin_to
same_origin_redirect url [] = some no_request
same_origin_redirect url (origin ∷ via) =
    if cross_origin_to origin url
    then some (cross_origin origin url (https_hint origin url))
    else if not (ltb (length (origin ∷ via)) max_redirects)
    then some too_many
    else none
