-- ===== src/Wrap/Words/Greedy.antt =====
-- The greedy loop of `wrapSQLLine` keeps the words.
use adtler.Prelude.{
  ◌+◌, ◌≡◌, ◌<◌, refl, sym, ap, ◌∙◌, true, false, List, [], ◌∷◌, ◌++◌, arith, Text, Bool-cases,
  append_assoc, append-nil, inl, inr, ltb, ◌⊎◌, join, length, has_prefix, Option-cases,
}
use adtler.Wrap.{
  sql_words, glue_stars, Packing, pack_word, pack, indent, pack_line, check_lines, wrap_sql_line,
  data_preview_wrap_width,
}
use adtler.Wrap.Words.Scan.{sql_words-IsWord}
use adtler.Wrap.Words.Pack.{
  blank, Reads, Reads-indent, Reads-append, scan-Reads, AllRead, none_left, and_then,
  AllRead-glue_stars,
}

-- The lines so far, read one after another.
abbrev so_far : Packing → Text
so_far p = join (p.out ++ p.cur ∷ []) blank

join-snoc :
    (xs : List Text) (x y sep : Text)
    → join ((xs ++ x ∷ []) ++ y ∷ []) sep ≡ join (xs ++ x ∷ []) sep ++ (sep ++ y)
unfolding join
join-snoc [] x y sep = refl
join-snoc (a ∷ []) x y sep = simp append_assoc
join-snoc (a ∷ b ∷ xs) x y sep = simp (join-snoc (b ∷ xs) x y sep, append_assoc)

join-extend :
    (xs : List Text) (x y sep : Text)
    → join (xs ++ (x ++ y) ∷ []) sep ≡ join (xs ++ x ∷ []) sep ++ y
unfolding join
join-extend [] x y sep = refl
join-extend (a ∷ []) x y sep = simp append_assoc
join-extend (a ∷ b ∷ xs) x y sep = simp (join-extend (b ∷ xs) x y sep, append_assoc)

Reads-of_eq : {s t : Text} (vs : List Text) → s ≡ t → Reads s vs → Reads t vs
Reads-of_eq vs e r = rw (← e) r

abbrev HasWords : Packing → List Text → Type 0
HasWords p us = (0 < p.on_line) × Reads (so_far p) us

pack_word-HasWords :
    (p : Packing) (w : Text) (us vs : List Text)
    → HasWords p us
    → Reads w vs
    → HasWords (pack_word p w) (us ++ vs)
unfolding pack_word
pack_word-HasWords p w us vs (pos, r) q =
    let busy : ltb 0 p.on_line ≡ true = ground arith in
    elim (Bool-cases (ltb data_preview_wrap_width (p.cur_len + 1 + length w))) [
      | inl over ↦
          rw (busy, over)
            (
              omega arith,
              Reads-of_eq (us ++ vs) (sym (join-snoc p.out p.cur (b' ' ∷ w) blank))
                  (Reads-append (so_far p) (b' ' ∷ w) us vs r (Reads-indent w vs q)),
            )
      | inr fits ↦
          rw (busy, fits, busy)
            (
              omega arith,
              Reads-of_eq (us ++ vs)
                  (sym (
                    ap (λ x. join (p.out ++ x ∷ []) blank) (append_assoc p.cur blank w)
                    ∙ join-extend p.out p.cur (b' ' ∷ w) blank))
                  (Reads-append (so_far p) w us vs r q),
            )
    ]

pack-Reads :
    (p : Packing) (gs us vs : List Text)
    → HasWords p us
    → AllRead gs vs
    → Reads (join (pack p gs) blank) (us ++ vs)
unfolding pack
pack-Reads p [] us vs (pos, r) none_left =
    let busy : ltb 0 p.on_line ≡ true = ground arith in rw (busy, append-nil us) r
pack-Reads p (g ∷ gs) us ws h (and_then vs {vs = more} q a e) = rw e (
    rw (← append_assoc us vs more)
      (pack-Reads (pack_word p g) gs (us ++ vs) more (pack_word-HasWords p g us vs h q) a))

-- The first word goes behind the indent.
pack_first-HasWords :
    (ind w : Text) (vs : List Text)
    → (ind ≡ []) ⊎ (ind ≡ blank)
    → Reads w vs
    → HasWords (pack_word (record { cur = ind; cur_len = length ind; on_line = 0; out = [] }) w) vs
unfolding pack_word join
pack_first-HasWords ind w vs (inl e) r = rw e (omega arith, r)
pack_first-HasWords ind w vs (inr e) r = rw e (omega arith, Reads-indent w vs r)

indent-cases : (line : Text) → (indent line ≡ []) ⊎ (indent line ≡ blank)
unfolding indent
indent-cases line = ground arith

pack-eq :
    (ind : Text) (gs vs : List Text)
    → (ind ≡ []) ⊎ (ind ≡ blank)
    → AllRead gs vs
    → sql_words
        (join (pack (record { cur = ind; cur_len = length ind; on_line = 0; out = [] }) gs) blank)
      ≡ (vs, false)
pack-eq ind [] [] h none_left = unfold pack join sql_words in refl
pack-eq ind [] (v ∷ vs) h a = elim a [ ]
pack-eq ind (g ∷ gs) ws h (and_then us {vs} r a e) = rw e (
    scan-Reads _ (us ++ vs)
      (unfold pack in pack-Reads _ gs us vs (pack_first-HasWords ind g us h r) a))

pub sql_words-pack_line :
    (line : Text)
    → (sql_words line).1 ≡ false
    → sql_words (join (pack_line line (sql_words line).0) blank) ≡ sql_words line
unfolding pack_line
sql_words-pack_line line closed =
    pack-eq (indent line) (glue_stars [] (sql_words line).0) (sql_words line).0 (indent-cases line)
      (AllRead-glue_stars [] [] (sql_words line).0 none_left (sql_words-IsWord line closed))
    ∙ ap (λ u. ((sql_words line).0, u)) (sym closed)

-- If `wrapSQLLine` wraps a line that is no full-line comment and in which no literal is left open,
-- then the lines it returns, read one after another with a blank between them, have exactly the
-- words of the line, in order: no word or literal is cut, dropped or added.
pub sql_words-wrap_sql_line :
    (line : Text) (out : List Text)
    → has_prefix line (b'*' ∷ []) ≡ false
    → (sql_words line).1 ≡ false
    → wrap_sql_line line ≡ inl out
    → sql_words (join out (b' ' ∷ [])) ≡ sql_words line
unfolding wrap_sql_line
sql_words-wrap_sql_line line out live closed e =
    elim (Option-cases
      (check_lines (sql_words line).1 (sql_words line).0 (pack_line line (sql_words line).0))) [
        | inl fine ↦
            let same : pack_line line (sql_words line).0 ≡ out = ground arith in
            rw (← same) (sql_words-pack_line line closed)
        | inr (x, bad) ↦ absurd (ground arith)
      ]
