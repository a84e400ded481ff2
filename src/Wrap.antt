-- ===== src/Wrap.antt =====
-- adt/query_wrap.go: re-wrapping overlong SQL lines for the ADT data preview.
-- A text is the list of its runes. `quote` is the delimiter of the open literal, 0 outside.
pub mod Chars
pub mod Bounds
pub mod Words
pub mod Comments
pub mod Stars
use adtler.Prelude.{
  ℕ, ◌+◌, Bool, true, false, not, ◌&&◌, ◌||◌, List, [], ◌∷◌, ◌++◌, Option, none, some, any, ◌⊎◌,
  inl, inr, Text, codes, ltb, leb, ◌==◌, if◌then◌else◌, length, take, has_prefix, join, split,
  text_eq, trim_left, trim_suffix,
}

abbrev pub data_preview_max_line : ℕ
data_preview_max_line = 255

abbrev pub data_preview_wrap_width : ℕ
data_preview_wrap_width = 200

pub data WrapError : Type 0 where
  unterminated_literal : Text → WrapError
  unsplittable_token : ℕ → Text → WrapError

pub data Wrapped {ℓ} (A : Type ℓ) : Type ℓ where
  ok : A → Wrapped A
  err : ℕ → WrapError → Wrapped A

-- the closure `flush`, with `words` and `cur` passed
unfoldable pub flush : List Text → Text → List Text
flush words [] = words
flush words (c ∷ cur) = words ++ (c ∷ cur) ∷ []

-- One round of the loop, but for the escape in a template: the end at a comment, or the next state.
pub data Step : Type 0 where
  stop : List Text → Step
  more : List Text → Text → ℕ → Step

unfoldable pub step : List Text → Text → ℕ → ℕ → Step
unfolding flush
step words cur quote r =
    if not (quote == 0)
    then more words (cur ++ r ∷ []) (if r == quote then 0 else quote)
    else if r == b'\'' || r == b'`' || r == b'|'
    then more words (cur ++ r ∷ []) r
    else if r == b'"'
    then stop (flush words cur)
    else if r == b' ' || r == b'\t'
    then more (flush words cur) [] 0
    else more words (cur ++ r ∷ []) 0

unfoldable pub is_escape : ℕ → ℕ → Bool
is_escape quote r = quote == b'|' && r == b'\\'

-- the rest of the loop after a round
abbrev pub resume : Step → (List Text → Text → ℕ → List Text × Bool) → List Text × Bool
resume (stop ws) rest = (ws, false)
resume (more ws c q) rest = rest ws c q

unfoldable pub scan : Text → List Text → Text → ℕ → List Text × Bool
scan [] words cur quote = (flush words cur, not (quote == 0))
scan (r ∷ []) words cur quote = resume (step words cur quote r) (scan [])
scan (r ∷ s ∷ rs) words cur quote = elim (is_escape quote r) [
  | true ↦ scan rs words (cur ++ r ∷ s ∷ []) quote
  | false ↦ resume (step words cur quote r) (scan (s ∷ rs))
]

unfoldable pub sql_words : Text → List Text × Bool
unfolding scan step flush is_escape
sql_words line = scan line [] [] 0

-- `words[len(words)-1] += " " + w`
unfoldable pub append_last : List Text → Text → List Text
append_last [] w = []
append_last (v ∷ []) w = (v ++ b' ' ∷ w) ∷ []
append_last (u ∷ v ∷ vs) w = u ∷ append_last (v ∷ vs) w

-- a word that starts with '*' is glued to the word before it
unfoldable pub glue_word : List Text → Text → List Text
unfolding append_last has_prefix
glue_word words w =
    if has_prefix w (b'*' ∷ []) && ltb 0 (length words)
    then append_last words w
    else words ++ w ∷ []

unfoldable pub glue_stars : List Text → List Text → List Text
unfolding glue_word
glue_stars words [] = words
glue_stars words (w ∷ ws) = glue_stars (glue_word words w) ws

-- the greedy loop
pub record Packing : Type 0 where
  pub cur : Text
  pub cur_len : ℕ
  pub on_line : ℕ
  pub out : List Text

unfoldable pub pack_word : Packing → Text → Packing
pack_word p w =
    let broken =
      if ltb 0 p.on_line && ltb data_preview_wrap_width (p.cur_len + 1 + length w)
      then (record { cur = b' ' ∷ []; cur_len = 1; on_line = 0; out = p.out ++ p.cur ∷ [] })
      else p in
    let spaced =
      if ltb 0 broken.on_line
      then (record broken { cur = broken.cur ++ b' ' ∷ []; cur_len = broken.cur_len + 1 })
      else broken in
    record spaced {
      cur = spaced.cur ++ w;
      cur_len = spaced.cur_len + length w;
      on_line = spaced.on_line + 1;
    }

unfoldable pub pack : Packing → List Text → List Text
unfolding pack_word
pack p [] = if ltb 0 p.on_line then p.out ++ p.cur ∷ [] else p.out
pack p (w ∷ ws) = pack (pack_word p w) ws

unfoldable pub is_blank : ℕ → Bool
is_blank c = c == b' ' || c == b'\t'

-- the indent that `wrapSQLLine` starts with: one space where `TrimLeft` would cut something
unfoldable pub indent : Text → Text
unfolding is_blank trim_left text_eq
indent line = if text_eq (trim_left is_blank line) line then [] else b' ' ∷ []

unfoldable pub token_preview : Text → Text
token_preview s = if leb (length s) 30 then s else take 30 s ++ codes "…"

unfoldable pub last_or : Text → List Text → Text
last_or d [] = d
last_or d (w ∷ ws) = last_or w ws

-- the loop over the lines packed; `rawWords` is not empty where a line overflows
unfoldable pub check_lines : Bool → List Text → List Text → Option WrapError
unfolding token_preview last_or trim_left
check_lines unterminated raw [] = none
check_lines unterminated raw (l ∷ ls) =
    if leb (length l) data_preview_max_line
    then check_lines unterminated raw ls
    else if unterminated
    then some (unterminated_literal (token_preview (last_or [] raw)))
    else let token = trim_left (λ c. c == b' ') l in
      some (unsplittable_token (length token) (token_preview token))

unfoldable pub pack_line : Text → List Text → List Text
unfolding pack glue_stars indent
pack_line line raw =
    pack (record { cur = indent line; cur_len = length (indent line); on_line = 0; out = [] })
      (glue_stars [] raw)

unfoldable pub wrap_sql_line : Text → List Text ⊎ WrapError
unfolding pack_line check_lines sql_words has_prefix
wrap_sql_line line =
    if has_prefix line (b'*' ∷ [])
    then inl []
    else let (raw, unterminated) = sql_words line in
      let out = pack_line line raw in
      elim (check_lines unterminated raw out) [ none ↦ inl out | some e ↦ inr e ]

-- one round of the loop over the lines
unfoldable pub wrap_if_long : Text → List Text ⊎ WrapError
unfolding wrap_sql_line trim_suffix
wrap_if_long raw =
    let line = trim_suffix b'\r' raw in
    if leb (length line) data_preview_max_line then inl (line ∷ []) else wrap_sql_line line

-- the loop over the lines, from line number `i + 1` on
unfoldable pub wrap_lines : ℕ → List Text → Wrapped (List Text)
unfolding wrap_if_long
wrap_lines i [] = ok []
wrap_lines i (raw ∷ rest) = elim (wrap_if_long raw) [
  | inr e ↦ err (i + 1) e
  | inl ls ↦ elim (wrap_lines (i + 1) rest) [
    | ok more_lines ↦ ok (ls ++ more_lines)
    | err n e ↦ err n e
  ]
]

unfoldable pub is_too_long : Text → Bool
unfolding trim_suffix
is_too_long line = ltb data_preview_max_line (length (trim_suffix b'\r' line))

unfoldable pub wrap_long_sql_lines : Text → Wrapped Text
unfolding is_too_long wrap_lines split join
wrap_long_sql_lines sql =
    let lines = split sql b'\n' in
    if any is_too_long lines
    then (elim (wrap_lines 0 lines) [ ok out ↦ ok (join out (b'\n' ∷ [])) | err n e ↦ err n e ])
    else ok sql
