-- ===== src/Patch/Edited.antt =====
-- What a set of edits makes of the lines of a source, place by place: the texts put in behind `i`
-- lines, whether line `k` is taken away, and the texts put in its place; and how an edit that lies
-- above all others is split off.
use adtler.Prelude.{
  ℕ, zero, suc, ◌+◌, ◌-◌, ◌≤◌, ◌<◌, ◌≡◌, refl, sym, ap, subst, ◌∙◌, Bool, true, false, List, [],
  ◌∷◌, ◌++◌, if◌then◌else◌, length, length-drop, take, drop, Text, append-nil, arith,
}

unfoldable pub edited : (ℕ → List Text) → (ℕ → Bool) → (ℕ → List Text) → ℕ → List Text → List Text
edited put_in gone replaced i [] = put_in i
edited put_in gone replaced i (line ∷ lines) =
    put_in i
    ++ ((if gone (suc i) then replaced (suc i) else line ∷ [])
        ++ edited put_in gone replaced (suc i) lines)

-- Nothing happens behind the first `i` lines.
abbrev pub QuietAfter : (ℕ → List Text) → (ℕ → Bool) → ℕ → Type 0
QuietAfter put_in gone i = (k : ℕ) → i < k → (put_in k ≡ []) × (gone k ≡ false)

module _ (put_in : ℕ → List Text) (gone : ℕ → Bool) (replaced : ℕ → List Text) where
  pub edited-of_quiet :
      (i : ℕ) (lines : List Text)
      → QuietAfter put_in gone i
      → edited put_in gone replaced i lines ≡ put_in i ++ lines
  unfolding edited
  edited-of_quiet i [] quiet = sym (append-nil (put_in i))
  edited-of_quiet i (line ∷ lines) quiet =
      rw
        (
          (quiet (suc i) (omega arith)).1,
          edited-of_quiet (suc i) lines (λ k h. quiet k (omega arith)),
          (quiet (suc i) (omega arith)).0,
        )
        refl

  -- `m` lines are taken away with nothing in their place.
  pub edited-of_gone :
      (m i : ℕ) (lines : List Text)
      → m ≤ length lines
      → ((k : ℕ) → i ≤ k → put_in k ≡ [])
      → ((k : ℕ) → i < k → k ≤ i + m → (gone k ≡ true) × (replaced k ≡ []))
      → ((k : ℕ) → i + m < k → gone k ≡ false)
      → edited put_in gone replaced i lines ≡ drop m lines
  unfolding edited
  edited-of_gone zero i lines fits no_text no_line kept =
      edited-of_quiet i lines (λ k h. (no_text k (omega arith), kept k (omega arith)))
      ∙ ap (λ (t : List Text). t ++ lines) (no_text i (omega arith))
  edited-of_gone (suc m) i [] fits no_text no_line kept = absurd (omega arith)
  edited-of_gone (suc m) i (line ∷ lines) fits no_text no_line kept =
      rw
        (
          no_text i (omega arith),
          (no_line (suc i) (omega arith) (omega arith)).0,
          (no_line (suc i) (omega arith) (omega arith)).1,
        )
        (edited-of_gone m (suc i) lines (omega arith) (λ k h. no_text k (omega arith))
          (λ k h h'. no_line k (omega arith) (omega arith)) (λ k h. kept k (omega arith)))

module _ (put_in put_in' : ℕ → List Text) (gone gone' : ℕ → Bool)
    (replaced replaced' : ℕ → List Text) where
  -- Two plans that agree on the first `d` lines.
  pub edited-prefix :
      (d i j : ℕ) (lines lines' : List Text)
      → j ≡ i + d
      → d ≤ length lines
      → ((k : ℕ) → i ≤ k → k < i + d → put_in' k ≡ put_in k)
      → ((k : ℕ) → i < k → k ≤ i + d → (gone' k ≡ gone k) × (replaced' k ≡ replaced k))
      → edited put_in' gone' replaced' j (drop d lines) ≡ edited put_in gone replaced j lines'
      → edited put_in' gone' replaced' i lines
        ≡ edited put_in gone replaced i (take d lines ++ lines')
  unfolding edited
  edited-prefix zero i j lines lines' at fits same_text same_line end =
      let e : j ≡ i = omega arith in
      subst (λ t. edited put_in' gone' replaced' t lines ≡ edited put_in gone replaced t lines') e
        end
  edited-prefix (suc d) i j [] lines' at fits same_text same_line end = absurd (omega arith)
  edited-prefix (suc d) i j (line ∷ lines) lines' at fits same_text same_line end =
      rw
        (
          same_text i (omega arith) (omega arith),
          (same_line (suc i) (omega arith) (omega arith)).0,
          (same_line (suc i) (omega arith) (omega arith)).1,
          edited-prefix d (suc i) j lines lines' (omega arith) (omega arith)
              (λ k h h'. same_text k (omega arith) (omega arith))
              (λ k h h'. same_line k (omega arith) (omega arith)) end,
        )
        refl

drop-cons :
    (n : ℕ) (lines : List Text)
    → n < length lines
    → (line : Text) × (drop n lines ≡ line ∷ drop (suc n) lines)
drop-cons n [] h = absurd (omega arith)
drop-cons zero (line ∷ lines) h = (line, refl)
drop-cons (suc n) (line ∷ lines) h = drop-cons n lines (omega arith)

drop-nil : (n : ℕ) → drop {A = Text} n [] ≡ []
drop-nil zero = refl
drop-nil (suc n) = refl

drop-minus-drop : (m n : ℕ) (lines : List Text) → n ≤ m → drop (m - n) (drop n lines) ≡ drop m lines
drop-minus-drop m zero lines h = let e : m - 0 ≡ m = omega arith in rw e refl
drop-minus-drop zero (suc n) lines h = absurd (omega arith)
drop-minus-drop (suc m) (suc n) [] h = drop-nil (suc m - suc n)
drop-minus-drop (suc m) (suc n) (line ∷ lines) h =
    let e : suc m - suc n ≡ m - n = omega arith in rw e (drop-minus-drop m n lines (omega arith))

module _ (put_in : ℕ → List Text) (gone : ℕ → Bool) (replaced : ℕ → List Text) where
  -- The lines from `from + 1` to `to` are taken away, with a text in place of the first.
  pub edited-of_taken :
      (from to : ℕ) (lines : List Text)
      → from < to
      → to ≤ length lines
      → ((k : ℕ) → from < k → put_in k ≡ [])
      → ((k : ℕ) → from < k → k ≤ to → gone k ≡ true)
      → ((k : ℕ) → suc from < k → k ≤ to → replaced k ≡ [])
      → ((k : ℕ) → to < k → gone k ≡ false)
      → edited put_in gone replaced from (drop from lines)
        ≡ put_in from ++ (replaced (suc from) ++ drop to lines)
  unfolding edited
  edited-of_taken from to lines some fits no_text no_line no_other kept =
      let split = drop-cons from lines (omega arith) in
      let here = no_line (suc from) (omega arith) (omega arith) in
      let rest : edited put_in gone replaced (suc from) (drop (suc from) lines) ≡ drop to lines =
        edited-of_gone put_in gone replaced (to - suc from) (suc from) (drop (suc from) lines)
          (omega (arith, length-drop {A = Text} (suc from) lines)) (λ k h. no_text k (omega arith))
          (λ k h h'.
            (no_line k (omega arith) (omega arith), no_other k (omega arith) (omega arith)))
          (λ k h. kept k (omega arith))
        ∙ drop-minus-drop to (suc from) lines (omega arith) in
      rw (split.1, here, rest) refl
