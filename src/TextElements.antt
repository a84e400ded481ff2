-- ===== src/TextElements.antt =====
-- adt/textelements.go: the text format of selection texts.
pub mod Selections
use adtler.Prelude.{
  ℕ, zero, suc, ◌-◌, List, [], ◌∷◌, ◌++◌, Option, none, some, ◌==◌, if◌then◌else◌, length, Text,
  split, trim_right, trim_space,
}

pub record SelectionText : Type 0 where
  pub name : Text
  pub text : Text

-- strings.Index of '=', as the text before it and the text behind it.
unfoldable pub cut_equals : Text → Option (Text × Text)
cut_equals [] = none
cut_equals (c ∷ s) =
    let rest = cut_equals s in
    if c == b'='
    then some ([], s)
    else elim rest [ none ↦ none | some (before, after) ↦ some (c ∷ before, after) ]

-- One line of the loop: without '=', or with nothing before it, it is skipped.
unfoldable pub parse_selection_line : Text → Option SelectionText
unfolding cut_equals trim_right trim_space
parse_selection_line line = elim (cut_equals (trim_right (λ c. c == 13) line)) [
  | none ↦ none
  | some ([], after) ↦ none
  | some (c ∷ before, after) ↦ some (record { name = trim_space (c ∷ before); text = after })
]

unfoldable pub parse_selection_lines : List Text → List SelectionText
unfolding parse_selection_line
parse_selection_lines [] = []
parse_selection_lines (line ∷ lines) =
    let rest = parse_selection_lines lines in
    elim (parse_selection_line line) [ none ↦ rest | some t ↦ t ∷ rest ]

unfoldable pub parse_selection_texts : Text → List SelectionText
unfolding parse_selection_lines split
parse_selection_texts source = parse_selection_lines (split source 10)

-- The padding of %-8s.
unfoldable pub blanks : ℕ → Text
blanks zero = []
blanks (suc n) = b' ' ∷ blanks n

unfoldable pub pad_name : Text → Text
unfolding blanks
pad_name name = name ++ blanks (8 - length name)

unfoldable pub format_selection_texts : List SelectionText → Text
unfolding pad_name
format_selection_texts [] = []
format_selection_texts (s ∷ rest) =
    (pad_name s.name ++ (b'=' ∷ s.text)) ++ (10 ∷ format_selection_texts rest)
