-- ===== src/Sql/Quoting.antt =====
-- A value written into a literal is read back as itself, and the literal ends where it should.
use adtler.Prelude.{
  ℕ, ◌∙◌, ap, ◌≡◌, refl, true, false, [], ◌∷◌, ◌++◌, Option, none, some, ◌==◌, if◌then◌else◌, Text,
  Bool-cases, inl, inr, ==_iff,
}
use adtler.Sql.{escape_value}

abbrev prepend : ℕ → Option (Text × Text) → Option (Text × Text)
prepend c none = none
prepend c (some (v, rest)) = some (c ∷ v, rest)

-- How ABAP SQL reads the inside of a literal: a doubled quote is a quote, a single one ends the
-- literal. The result is the value and the text behind the literal.
pub read_literal : Text → Option (Text × Text)
read_literal [] = none
read_literal (c ∷ []) = if c == b'\'' then some ([], []) else none
read_literal (c ∷ d ∷ s) = elim (c == b'\'') [
  | true ↦ elim (d == b'\'') [ true ↦ prepend b'\'' (read_literal s) | false ↦ some ([], d ∷ s) ]
  | false ↦ prepend c (read_literal (d ∷ s))
]

-- The text behind the literal does not go on with a quote.
abbrev pub Ends : Text → Type 0
Ends [] = Unit
Ends (c ∷ s) = (c == b'\'') ≡ false

read_literal-end : (rest : Text) → Ends rest → read_literal (b'\'' ∷ rest) ≡ some ([], rest)
unfolding read_literal
read_literal-end [] h = refl
read_literal-end (d ∷ s) h = rw (h, read_literal)

read_literal-plain :
    (c : ℕ) (v rest : Text)
    → (c == b'\'') ≡ false
    → read_literal (c ∷ (escape_value v ++ b'\'' ∷ rest))
      ≡ prepend c (read_literal (escape_value v ++ b'\'' ∷ rest))
read_literal-plain c v rest h = go (escape_value v)
  where
    go :
        (t : Text)
        → read_literal (c ∷ (t ++ b'\'' ∷ rest)) ≡ prepend c (read_literal (t ++ b'\'' ∷ rest))
    go [] = unfold read_literal in rw (h, read_literal)
    go (d ∷ t) = unfold read_literal in rw (h, read_literal)

read_literal-quote : (t : Text) → read_literal (b'\'' ∷ b'\'' ∷ t) ≡ prepend b'\'' (read_literal t)
unfolding read_literal
read_literal-quote t = refl

-- Whatever a value holds, quotes included, the literal that `EscapeValue` writes for it is read as
-- that value, and reading stops at the closing quote: no value can end its literal early.
pub read_literal-escape_value :
    (v rest : Text) → Ends rest → read_literal (escape_value v ++ b'\'' ∷ rest) ≡ some (v, rest)
unfolding escape_value
read_literal-escape_value [] rest h = read_literal-end rest h
read_literal-escape_value (c ∷ v) rest h = elim (Bool-cases (c == b'\'')) [
  | inl quote ↦
      let same : c ≡ b'\'' = (==_iff c b'\'').0 quote in
      rw (quote, same)
        (read_literal-quote _ ∙ ap (prepend b'\'') (read_literal-escape_value v rest h))
  | inr plain ↦ rw (plain, read_literal-plain c v rest plain, read_literal-escape_value v rest h)
]
