-- ===== src/Wrap/Stars.antt =====
-- A line that is no comment is wrapped into lines that are no comments.
use adtler.Prelude.{
  ℕ, ◌≡◌, refl, ap, ◌≤◌, Bool, false, List, [], ◌∷◌, ◌++◌, append_assoc, arith, All, All-append,
  Text, ◌==◌, Bool-cases, inl, inr, ◌||◌, ◌⊎◌, has_prefix, text_eq, text_eq_iff, trim_left,
  Option-cases, length,
}
use adtler.Wrap.{
  flush, Step, stop, more, resume, step, is_escape, scan, sql_words, is_blank, indent, pack_line,
  check_lines, wrap_sql_line,
}
use adtler.Wrap.Words.Scan.{scan-step}
use adtler.Wrap.Comments.{
  NoStar, IsSafe, IsNonempty, FirstNoStar, Started, append-NoStar, pack-glue_stars-IsSafe,
}

flush-IsNonempty :
    (words : List Text) (cur : Text) → All IsNonempty words → All IsNonempty (flush words cur)
unfolding flush
flush-IsNonempty words [] h = h
flush-IsNonempty words (c ∷ cur) h = All-append IsNonempty words ((c ∷ cur) ∷ []) h (cc, tt)

-- What holds of the words of each state of the loop holds of the words that it returns.
module _ (P : List Text → Type 0) where
  abbrev StepP : Step → Type 0
  StepP (stop ws) = P ws
  StepP (more ws c q) = P (flush ws c)

  module _
      (keep : (ws : List Text) (c : Text) (r : ℕ)
        → P (flush ws c)
        → P (flush ws (c ++ r ∷ []))) where
    step-StepP : (ws : List Text) (c : Text) (q r : ℕ) → P (flush ws c) → StepP (step ws c q r)
    unfolding step
    step-StepP ws c q r h = elim (Bool-cases (q == 0)) [
      | inr e ↦ rw e (keep ws c r h)
      | inl e ↦ elim (Bool-cases (r == b'\'' || r == b'`' || r == b'|')) [
        | inl o ↦ rw (e, o) (keep ws c r h)
        | inr o ↦ elim (Bool-cases (r == b'"')) [
          | inl k ↦ rw (e, o, k) h
          | inr k ↦ elim (Bool-cases (r == b' ' || r == b'\t')) [
            | inl b ↦ rw (e, o, k, b) (unfold flush in h)
            | inr b ↦ rw (e, o, k, b) (keep ws c r h)
          ]
        ]
      ]
    ]

    resume-P :
        (s : Step) (rest : List Text → Text → ℕ → List Text × Bool)
        → StepP s
        → ((ws : List Text) (c : Text) (q : ℕ) → P (flush ws c) → P (rest ws c q).0)
        → P (resume s rest).0
    resume-P (stop ws) rest h k = h
    resume-P (more ws c q) rest h k = k ws c q h

    scan-P :
        (line : Text) (ws : List Text) (c : Text) (q : ℕ) → P (flush ws c) → P (scan line ws c q).0
    unfolding scan
    scan-P [] ws c q h = h
    scan-P (r ∷ []) ws c q h =
        resume-P (step ws c q r) (scan []) (step-StepP ws c q r h)
          (λ ws' c' q' k. scan-P [] ws' c' q' k)
    scan-P (r ∷ s ∷ rs) ws c q h = elim (Bool-cases (is_escape q r)) [
      | inl e ↦
          rw (e, scan)
            (scan-P rs ws (c ++ r ∷ s ∷ []) q
              (rw append_assoc at (keep ws (c ++ r ∷ []) s (keep ws c r h))))
      | inr e ↦
          rw (e, scan)
            (resume-P (step ws c q r) (scan (s ∷ rs)) (step-StepP ws c q r h)
              λ ws' c' q' k. scan-P (s ∷ rs) ws' c' q' k)
    ]

IsNonempty-keep :
    (ws : List Text) (c : Text) (r : ℕ)
    → All IsNonempty (flush ws c)
    → All IsNonempty (flush ws (c ++ r ∷ []))
IsNonempty-keep ws c r h = flush-IsNonempty ws (c ++ r ∷ []) (words_of ws c h)
  where
    left : (ws : List Text) (x : Text) → All IsNonempty (ws ++ x ∷ []) → All IsNonempty ws
    left [] x h = tt
    left (w ∷ ws) x (n, h) = (n, left ws x h)

    words_of : (ws : List Text) (c : Text) → All IsNonempty (flush ws c) → All IsNonempty ws
    words_of ws [] h = unfold flush in h
    words_of ws (x ∷ c) h = left ws (x ∷ c) (unfold flush in h)

sql_words-IsNonempty : (line : Text) → All IsNonempty (sql_words line).0
unfolding sql_words
sql_words-IsNonempty line = scan-P (All IsNonempty) IsNonempty-keep line [] [] 0 tt

Started-keep :
    (ws : List Text) (c : Text) (r : ℕ) → Started (flush ws c) → Started (flush ws (c ++ r ∷ []))
unfolding flush
Started-keep [] [] r (n, h) = absurd (n refl)
Started-keep [] (x ∷ c) r (n, h) = (cc, append-NoStar (x ∷ c) (r ∷ []) (cc) h)
Started-keep (w ∷ ws) [] r (n, h) = (cc, h)
Started-keep (w ∷ ws) (x ∷ c) r (n, h) = (cc, h)

-- The loop after the first character of a line, which is neither a blank nor a '*'.
first_step-FirstNoStar :
    (r : ℕ) (rest : Text)
    → NoStar (r ∷ [])
    → is_blank r ≡ false
    → FirstNoStar (resume (step [] [] 0 r) (scan rest)).0
first_step-FirstNoStar r rest h b = go (step [] [] 0 r) (begins h b)
  where
    Begins : Step → Type 0
    Begins (stop ws) = ws ≡ []
    Begins (more ws c q) = Started (flush ws c)

    begins : NoStar (r ∷ []) → is_blank r ≡ false → Begins (step [] [] 0 r)
    begins h b = unfold step is_blank flush in ground arith

    go : (s : Step) → Begins s → FirstNoStar (resume s (scan rest)).0
    go (stop ws) e = rw e tt
    go (more ws c q) k = (scan-P Started Started-keep rest ws c q k).1

length-trim_left-le : (p : ℕ → Bool) (s : Text) → length (trim_left p s) ≤ length s
unfolding trim_left
length-trim_left-le p [] = omega arith
length-trim_left-le p (c ∷ s) = ground (arith, length-trim_left-le p s)

not_blank : (r : ℕ) (line : Text) → trim_left is_blank (r ∷ line) ≡ r ∷ line → is_blank r ≡ false
unfolding trim_left
not_blank r line e = elim (Bool-cases (is_blank r)) [
  | inr h ↦ h
  | inl h ↦ absurd (omega (arith, length-trim_left-le is_blank line, ap length (rw h at e)))
]

sql_words-FirstNoStar :
    (line : Text) → NoStar line → trim_left is_blank line ≡ line → FirstNoStar (sql_words line).0
unfolding sql_words
sql_words-FirstNoStar [] h t = unfold scan in tt
sql_words-FirstNoStar (r ∷ line) h t =
    rw (scan-step r line [] [] 0 (unfold is_escape in refl))
      (first_step-FirstNoStar r line (unfold has_prefix in h) (not_blank r line t))

pack_line-IsSafe : (line : Text) → NoStar line → IsSafe (pack_line line (sql_words line).0)
unfolding pack_line
pack_line-IsSafe line live =
    pack-glue_stars-IsSafe (indent line) (sql_words line).0 (sql_words-IsNonempty line) first
  where
    first : (indent line ≡ b' ' ∷ []) ⊎ ((indent line ≡ []) × FirstNoStar (sql_words line).0)
    first = elim (Bool-cases (text_eq (trim_left is_blank line) line)) [
      | inl flush_left ↦ inr (
        unfold indent in rw flush_left,
        sql_words-FirstNoStar line live ((text_eq_iff _ _).0 flush_left),
      )
      | inr indented ↦ inl (unfold indent in rw indented)
    ]

-- Of the lines that `wrapSQLLine` returns for a line, the first does not start with '*', and every
-- other starts with one blank that is followed by something other than a '*': no part of the query
-- ends up where the data preview reads a full-line comment.
pub wrap_sql_line-IsSafe :
    (line : Text) (out : List Text) → wrap_sql_line line ≡ inl out → IsSafe out
unfolding wrap_sql_line
wrap_sql_line-IsSafe line out e = elim (Bool-cases (has_prefix line (b'*' ∷ []))) [
  | inl star ↦ let nil : out ≡ [] = ground arith in rw nil tt
  | inr live ↦
      elim (Option-cases
        (check_lines (sql_words line).1 (sql_words line).0 (pack_line line (sql_words line).0))) [
          | inl fine ↦
              let same : pack_line line (sql_words line).0 ≡ out = ground arith in
              rw (← same) (pack_line-IsSafe line live)
          | inr (x, bad) ↦ absurd (ground arith)
        ]
]
