-- ===== src/Patch/Substitute.antt =====
-- The functions of Go's `strings` that applySearchReplace of adt/patch.go calls, for a search text
-- that is not empty, and its toCRLF.
use adtler.Prelude.{
  ℕ, zero, suc, ◌-◌, Bool, true, false, ◌||◌, [], ◌∷◌, ◌++◌, if◌then◌else◌, length, drop, Text,
  has_prefix,
}

-- strings.Contains
unfoldable pub contains : Text → Text → Bool
unfolding has_prefix
contains [] search = has_prefix [] search
contains (c ∷ s) search = has_prefix (c ∷ s) search || contains s search

-- strings.Replace with limit 1
unfoldable pub replace_once : Text → Text → Text → Text
unfolding has_prefix
replace_once [] search replacement = []
replace_once (c ∷ s) search replacement =
    let rest = replace_once s search replacement in
    if has_prefix (c ∷ s) search then replacement ++ drop (length search) (c ∷ s) else c ∷ rest

-- strings.ReplaceAll. The number is how many characters of an occurrence are still to be passed over.
unfoldable pub replace_skipping : Text → Text → ℕ → Text → Text
unfolding has_prefix
replace_skipping search replacement skip [] = []
replace_skipping search replacement (suc skip) (c ∷ s) = replace_skipping search replacement skip s
replace_skipping search replacement zero (c ∷ s) = elim (has_prefix (c ∷ s) search) [
  | true ↦ replacement ++ replace_skipping search replacement (length search - 1) s
  | false ↦ c ∷ replace_skipping search replacement zero s
]

unfoldable pub replace_all : Text → Text → Text → Text
unfolding replace_skipping
replace_all s search replacement = replace_skipping search replacement 0 s

abbrev pub cr_lf : Text
cr_lf = 13 ∷ 10 ∷ []

abbrev pub lf : Text
lf = 10 ∷ []

unfoldable pub to_crlf : Text → Text
unfolding replace_all
to_crlf s = replace_all (replace_all s cr_lf lf) lf cr_lf
