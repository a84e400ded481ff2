-- ===== src/Tests/TextElements.antt =====
-- adt/textelements.go on two selection texts.
use adtler.Prelude.{◌≡◌, refl, List, [], ◌∷◌, ◌++◌, codes, arith, is_space}
use adtler.TextElements.{SelectionText, parse_selection_texts, format_selection_texts}
use adtler.TextElements.Selections.{parse_selection_texts-format_selection_texts}

abbrev clock : SelectionText
clock = record { name = codes "CLK"; text = codes "clock = on" }

abbrev texts : List SelectionText
texts = clock ∷ record { name = codes "P"; text = [] } ∷ []

written : format_selection_texts (clock ∷ []) ≡ codes "CLK     =clock = on" ++ (10 ∷ [])
unfolding format_selection_texts
written = refl

parse_selection_texts-format_selection_texts_example :
    parse_selection_texts (format_selection_texts texts) ≡ texts
unfolding is_space
parse_selection_texts-format_selection_texts_example =
    parse_selection_texts-format_selection_texts texts (ground arith)
