-- ===== src/Redirect/Chain.antt =====
-- The requests that one request is redirected to.
use adtler.Prelude.{
  suc, ◌≤◌, ◌≡◌, refl, true, List, [], ◌∷◌, ◌++◌, none, length, length-append, All, All-append,
  text_eq_iff, equal_fold, equal_fold_refl, arith,
}
use adtler.Redirect.{Url, same_origin_redirect, cross_origin_to}

-- The requests sent, the first one first: each further one has passed the check against those before.
pub data Chain (origin : Url) : List Url → Type 0 where
  single : Chain origin (origin ∷ [])
  follow :
      (url : Url) (via : List Url)
      → Chain origin (origin ∷ via)
      → same_origin_redirect url (origin ∷ via) ≡ none
      → Chain origin (origin ∷ (via ++ (url ∷ [])))

abbrev pub SameOrigin : Url → Url → Type 0
SameOrigin origin url = (url.scheme ≡ origin.scheme) × (equal_fold url.host origin.host ≡ true)

passed :
    (origin url : Url) (via : List Url)
    → same_origin_redirect url (origin ∷ via) ≡ none
    → SameOrigin origin url × (suc (suc (length via)) ≤ 10)
unfolding same_origin_redirect cross_origin_to
passed origin url via h =
    let scheme = text_eq_iff url.scheme origin.scheme in
    ((ground arith, ground arith), ground arith)

-- However often a request is redirected, every request of the chain goes to the scheme and, letter
-- case aside, the host of the first one, and there are at most ten.
pub Chain-SameOrigin :
    (origin : Url) (urls : List Url)
    → Chain origin urls
    → All (SameOrigin origin) urls × (length urls ≤ 10)
Chain-SameOrigin origin urls single = (((refl, equal_fold_refl origin.host), tt), omega arith)
Chain-SameOrigin origin urls (follow url via chain allowed) =
    let before = Chain-SameOrigin origin (origin ∷ via) chain in
    let now = passed origin url via allowed in
    let few = now.1 in
    (
      ((before.0).0, All-append (SameOrigin origin) via (url ∷ []) (before.0).1 (now.0, tt)),
      omega (arith, length-append {A = Url} via (url ∷ [])),
    )
