-- ===== src/Tests/Redirect.antt =====
-- adt/redirect.go: a redirect to the same host in capitals is followed.
use adtler.Prelude.{◌≤◌, ◌≡◌, refl, [], ◌∷◌, none, codes, All, length}
use adtler.Redirect.{Url, same_origin_redirect}
use adtler.Redirect.Chain.{single, follow, SameOrigin, Chain-SameOrigin}

abbrev first : Url
first = record { scheme = codes "https"; host = codes "sap:44300"; hostname = codes "sap" }

abbrev second : Url
second = record { scheme = codes "https"; host = codes "SAP:44300"; hostname = codes "SAP" }

followed : same_origin_redirect second (first ∷ []) ≡ none
unfolding same_origin_redirect
followed = refl

Chain-SameOrigin_example :
    All (SameOrigin first) (first ∷ second ∷ []) × (length (first ∷ second ∷ []) ≤ 10)
Chain-SameOrigin_example =
    Chain-SameOrigin first (first ∷ second ∷ []) (follow second [] single followed)
