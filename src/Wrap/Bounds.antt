-- ===== src/Wrap/Bounds.antt =====
-- Every line that `wrapLongSQLLines` returns is short enough for the data preview.
use adtler.Prelude.{
  ℕ, ◌+◌, ◌≡◌, ◌≢◌, refl, Bool, true, false, List, [], ◌∷◌, ◌++◌, none, arith, All, All-append,
  All-map, any, Text, ◌≤◌, leb, ◌⊎◌, inl, inr, Bool-cases, Option-cases, has_prefix, length, join,
  split, trim_suffix, Lacks, split-Lacks, split-join, trim_suffix-All, length-trim_suffix-le,
}
use adtler.Wrap.{
  WrapError, Wrapped, ok, err, sql_words, pack_line, check_lines, wrap_sql_line, wrap_if_long,
  wrap_lines, is_too_long, wrap_long_sql_lines, data_preview_max_line,
}
use adtler.Wrap.Chars.{sql_words-AllIn, pack_line-AllIn}

abbrev pub Fits : Text → Type 0
Fits l = length l ≤ data_preview_max_line

abbrev newline : ℕ
newline = b'\n'

-- A line with neither a newline nor too many characters.
abbrev IsGood : Text → Type 0
IsGood l = Fits l × Lacks newline l

check_lines-Fits :
    (unterminated : Bool) (raw ls : List Text)
    → check_lines unterminated raw ls ≡ none
    → All (Lacks newline) ls
    → All IsGood ls
unfolding check_lines
check_lines-Fits u raw [] e h = tt
check_lines-Fits u raw (l ∷ ls) e (h, hs) =
    let fits : leb (length l) data_preview_max_line ≡ true = ground arith in
    ((ground arith, h), check_lines-Fits u raw ls (rw (fits, check_lines) at e) hs)

wrap_sql_line-IsGood :
    (line : Text) (out : List Text)
    → wrap_sql_line line ≡ inl out
    → Lacks newline line
    → All IsGood out
unfolding wrap_sql_line
wrap_sql_line-IsGood line out e h = elim (Bool-cases (has_prefix line (b'*' ∷ []))) [
  | inl star ↦ let nil : out ≡ [] = ground arith in rw nil tt
  | inr live ↦
      elim (Option-cases
        (check_lines (sql_words line).1 (sql_words line).0 (pack_line line (sql_words line).0))) [
          | inl fine ↦
              let same : pack_line line (sql_words line).0 ≡ out = ground arith in
              rw (← same) (
                check_lines-Fits (sql_words line).1 (sql_words line).0 _ fine (
                  pack_line-AllIn (λ c. c ≢ newline) line (sql_words line).0 (omega arith)
                    (sql_words-AllIn (λ c. c ≢ newline) line h)))
          | inr (er, bad) ↦ absurd (ground arith)
        ]
]

wrap_if_long-IsGood :
    (raw : Text) (out : List Text) → wrap_if_long raw ≡ inl out → Lacks newline raw → All IsGood out
unfolding wrap_if_long
wrap_if_long-IsGood raw out e h =
    let line = trim_suffix b'\r' raw in
    let lacks : Lacks newline line = trim_suffix-All (λ c. c ≢ newline) b'\r' raw h in
    elim (Bool-cases (leb (length line) data_preview_max_line)) [
      | inl short ↦
          let same : line ∷ [] ≡ out = ground arith in rw (← same) ((ground arith, lacks), tt)
      | inr long ↦ wrap_sql_line-IsGood line out (ground arith) lacks
    ]

-- A successful run of the loop wrapped each line.
pub wrap_lines-eq-ok :
    (i : ℕ) (raw : Text) (rest out : List Text)
    → wrap_lines i (raw ∷ rest) ≡ ok out
    → (ls more : List Text) × (wrap_if_long raw ≡ inl ls)
      × (wrap_lines (i + 1) rest ≡ ok more)
      × (out ≡ ls ++ more)
unfolding wrap_lines
wrap_lines-eq-ok i raw rest out e = go (wrap_if_long raw) (wrap_lines (i + 1) rest) refl refl
  where
    go :
        (w : List Text ⊎ WrapError) (r : Wrapped (List Text))
        → wrap_if_long raw ≡ w
        → wrap_lines (i + 1) rest ≡ r
        → (ls more : List Text) × (wrap_if_long raw ≡ inl ls)
          × (wrap_lines (i + 1) rest ≡ ok more)
          × (out ≡ ls ++ more)
    go (inr x) r p q = absurd (ground arith)
    go (inl ls) (err n x) p q = absurd (ground arith)
    go (inl ls) (ok more) p q = (ls, more, p, q, ground arith)

wrap_lines-IsGood :
    (i : ℕ) (raws out : List Text)
    → wrap_lines i raws ≡ ok out
    → All (Lacks newline) raws
    → All IsGood out
wrap_lines-IsGood i [] out e h = let nil : out ≡ [] = unfold wrap_lines in ground arith in rw nil tt
wrap_lines-IsGood i (raw ∷ rest) out e (h, hs) =
    let (ls, more, one, others, same) = wrap_lines-eq-ok i raw rest out e in
    rw same (
      All-append IsGood ls more (wrap_if_long-IsGood raw ls one h)
        (wrap_lines-IsGood (i + 1) rest more others hs))

-- A line of a text, as the data preview counts it: without a '\r' at its end.
abbrev pub FitsTrimmed : Text → Type 0
FitsTrimmed l = Fits (trim_suffix b'\r' l)

short_of_not_any : (ls : List Text) → any is_too_long ls ≡ false → All FitsTrimmed ls
unfolding is_too_long
short_of_not_any [] e = tt
short_of_not_any (l ∷ ls) e = (ground arith, short_of_not_any ls (ground arith))

split-join-FitsTrimmed :
    (ls : List Text) → All IsGood ls → All FitsTrimmed (split (join ls (b'\n' ∷ [])) b'\n')
split-join-FitsTrimmed [] h = unfold split join trim_suffix in (omega arith, tt)
split-join-FitsTrimmed (l ∷ ls) h =
    rw (split-join l ls b'\n' (All-map {P = IsGood} {Q = Lacks newline} (λ x g. g.1) (l ∷ ls) h)) (
      All-map {P = IsGood} {Q = FitsTrimmed}
        (λ x g. omega (arith, g.0, length-trim_suffix-le b'\r' x)) (l ∷ ls) h)

-- If `wrapLongSQLLines` returns a text, every line of it (split at newlines, without a trailing
-- '\r') has at most 255 characters, whether the text was re-wrapped or returned unchanged.
pub wrap_long_sql_lines-fits :
    (sql out : Text) → wrap_long_sql_lines sql ≡ ok out → All FitsTrimmed (split out b'\n')
unfolding wrap_long_sql_lines
wrap_long_sql_lines-fits sql out e = elim (Bool-cases (any is_too_long (split sql b'\n'))) [
  | inr short ↦
      let same : sql ≡ out = ground arith in rw (← same) (short_of_not_any (split sql b'\n') short)
  | inl long ↦ go (wrap_lines 0 (split sql b'\n')) refl long
]
  where
    go :
        (w : Wrapped (List Text))
        → wrap_lines 0 (split sql b'\n') ≡ w
        → any is_too_long (split sql b'\n') ≡ true
        → All FitsTrimmed (split out b'\n')
    go (err n x) p long = absurd (ground arith)
    go (ok ls) p long =
        let same : join ls (b'\n' ∷ []) ≡ out = ground arith in
        rw (← same) (
          split-join-FitsTrimmed ls
            (wrap_lines-IsGood 0 (split sql b'\n') ls p (split-Lacks sql b'\n')))
