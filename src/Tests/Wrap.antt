-- ===== src/Tests/Wrap.antt =====
-- adt/query_wrap.go at a long SELECT.
use adtler.Prelude.{
  ℕ, zero, suc, ◌≡◌, refl, false, List, [], ◌∷◌, ◌++◌, All, inl, inr, ◌⊎◌, Text, codes, join, split,
  length,
}
use adtler.Wrap.{WrapError, Wrapped, ok, err, sql_words, wrap_sql_line, wrap_long_sql_lines}
use adtler.Wrap.Bounds.{FitsTrimmed, wrap_long_sql_lines-fits}
use adtler.Wrap.Words.Greedy.{sql_words-wrap_sql_line}
use adtler.Wrap.Stars.{wrap_sql_line-IsSafe}
use adtler.Wrap.Comments.{IsSafe}

abbrev repeat : ℕ → Text → Text
repeat zero t = []
repeat (suc n) t = t ++ repeat n t

-- 261 characters, with a literal that holds blanks.
abbrev long_line : Text
long_line =
    codes "SELECT * FROM T WHERE N = 'a  b'" ++ repeat 19 (codes " AND F = '1'") ++ codes "\r"

abbrev text_of : Wrapped Text → Text
text_of (ok t) = t
text_of (err n e) = []

abbrev lines_of : List Text ⊎ WrapError → List Text
lines_of (inl ls) = ls
lines_of (inr e) = []

two_lines : length (lines_of (wrap_sql_line long_line)) ≡ 2
unfolding wrap_sql_line
two_lines = refl

words :
    sql_words (codes "A 'b c'|d\\||''  \"note") ≡ (codes "A" ∷ codes "'b c'|d\\||''" ∷ [], false)
unfolding sql_words
words = refl

wrap_long_sql_lines-fits_example :
    All FitsTrimmed (split (text_of (wrap_long_sql_lines long_line)) b'\n')
unfolding wrap_long_sql_lines
wrap_long_sql_lines-fits_example =
    wrap_long_sql_lines-fits long_line (text_of (wrap_long_sql_lines long_line)) refl

sql_words-wrap_sql_line_example :
    sql_words (join (lines_of (wrap_sql_line long_line)) (b' ' ∷ [])) ≡ sql_words long_line
unfolding wrap_sql_line
sql_words-wrap_sql_line_example =
    sql_words-wrap_sql_line long_line (lines_of (wrap_sql_line long_line)) refl refl refl

wrap_sql_line-IsSafe_example : IsSafe (lines_of (wrap_sql_line long_line))
unfolding wrap_sql_line
wrap_sql_line-IsSafe_example =
    wrap_sql_line-IsSafe long_line (lines_of (wrap_sql_line long_line)) refl
