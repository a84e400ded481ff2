-- ===== src/Patch/Simultaneous.antt =====
-- applyLineOp, operation after operation from the bottom up, against the edits made all at once.
use adtler.Prelude.{
  ℕ, suc, ◌≤◌, ◌<◌, ◌≡◌, refl, ◌≢◌, ==_refl, sym, ◌∙◌, false, ◌&&◌, List, [], ◌∷◌, ◌++◌, ◌==◌,
  length, drop, Text, arith, pos, leb, int_leb, int_eq,
}
use adtler.Patch.{OpType, PatchOp, primary_key, splice}
use adtler.Patch.Edited.{edited, edited-of_quiet, edited-prefix, edited-of_taken}
use adtler.Patch.Plan.{
  puts_after, takes, replaces_from, contents, put_in, taken, replaced, Spans, LineEdit, inserted,
  replaced_lines, deleted,
}
use adtler.Patch.Below.{Stacked, Stacked-quiet}

-- The lines that a list of operations makes of a source, place by place.
unfoldable pub edited_by : List PatchOp → List Text → List Text
unfolding edited put_in taken replaced
edited_by ops lines = edited (put_in ops) (taken ops) (replaced ops) 0 lines

module _ (op : PatchOp) (k : ℕ) (e : op.op_type ≡ OpType.insert) (at : op.after_line ≡ pos k)
    (j : ℕ) where
  insert-effect : (puts_after op j ≡ (k == j)) × (takes op j ≡ false) × (replaces_from op j ≡ false)
  unfolding puts_after takes replaces_from int_eq
  insert-effect = (rw (e, at) refl, rw e refl, rw e refl)

module _ (op : PatchOp) (f t : ℕ) (from : op.from_line ≡ pos (suc f)) (to : op.to_line ≡ pos t)
    (j : ℕ) where
  replace-effect :
      op.op_type ≡ OpType.replace
      → (puts_after op j ≡ false)
        × (takes op j ≡ (leb (suc f) j && leb j t))
        × (replaces_from op j ≡ (suc f == j))
  unfolding puts_after takes replaces_from int_eq int_leb
  replace-effect e = (rw e refl, rw (e, from, to) refl, rw (e, from) refl)

  delete-effect :
      op.op_type ≡ OpType.delete
      → (puts_after op j ≡ false)
        × (takes op j ≡ (leb (suc f) j && leb j t))
        × (replaces_from op j ≡ false)
  unfolding puts_after takes replaces_from int_leb
  delete-effect e = (rw e refl, rw (e, from, to) refl, rw e refl)

module _ (op : PatchOp) (ops : List PatchOp) (lines : List Text) where
  insert-edited_by :
      (k : ℕ)
      → op.op_type ≡ OpType.insert
      → op.after_line ≡ pos k
      → k ≤ length lines
      → Stacked k ops
      → edited_by (op ∷ ops) lines ≡ edited_by ops (splice k k (op.content ∷ []) lines)
  unfolding edited_by splice put_in contents taken replaced
  insert-edited_by k e at fits stacked =
      let quiet = λ (j : ℕ) (h : k ≤ j). Stacked-quiet k j ops stacked h in
      let effect = insert-effect op k e at in
      edited-prefix (put_in ops) (put_in (op ∷ ops)) (taken ops) (taken (op ∷ ops)) (replaced ops)
        (replaced (op ∷ ops)) k 0 k lines (op.content ∷ drop k lines) (omega arith) fits
        (λ j h h'. let here = effect j in ground arith)
        (λ j h h'. let here = effect j in (ground arith, ground arith))
        (edited-of_quiet (put_in (op ∷ ops)) (taken (op ∷ ops)) (replaced (op ∷ ops)) k
            (drop k lines)
            (λ j h.
              let here = effect j in
              let none_left = quiet j (omega arith) in (ground arith, ground arith))
          ∙ ((let here = effect k in let none_left = quiet k (omega arith) in ground arith)
              ∙ sym (
                  edited-of_quiet (put_in ops) (taken ops) (replaced ops) k
                    (op.content ∷ drop k lines)
                    (λ j h. let none_left = quiet j (omega arith) in (none_left.0, none_left.1)))))

  -- What replace and delete share: from line `f + 1` on, nothing of the rest is left to do.
  taken-edited_by :
      (f t : ℕ)
      → f < t
      → t ≤ length lines
      → Stacked (suc f) ops
      → ((j : ℕ) → (puts_after op j ≡ false) × (takes op j ≡ (leb (suc f) j && leb j t)))
      → ((j : ℕ) → j ≢ suc f → replaces_from op j ≡ false)
      → edited_by (op ∷ ops) lines ≡ edited_by ops (splice f t (replaced (op ∷ ops) (suc f)) lines)
  unfolding edited_by splice put_in contents taken replaced
  taken-edited_by f t some_line fits stacked effect starts =
      let quiet = λ (j : ℕ) (h : f < j). Stacked-quiet (suc f) j ops stacked h in
      let new = replaced (op ∷ ops) (suc f) in
      edited-prefix (put_in ops) (put_in (op ∷ ops)) (taken ops) (taken (op ∷ ops)) (replaced ops)
        (replaced (op ∷ ops)) f 0 f lines (new ++ drop t lines) (omega arith) (omega arith)
        (λ j h h'. let here = effect j in ground arith)
        (λ j h h'.
          let here = effect j in let other = starts j (omega arith) in (ground arith, ground arith))
        (edited-of_taken (put_in (op ∷ ops)) (taken (op ∷ ops)) (replaced (op ∷ ops)) f t lines
            some_line fits (λ j h. let here = effect j in let none_left = quiet j h in ground arith)
            (λ j h h'. let here = effect j in ground arith)
            (λ j h h'.
              let other = starts j (omega arith) in
              let none_left = quiet j (omega arith) in ground arith)
            (λ j h. let here = effect j in let none_left = quiet j (omega arith) in ground arith)
          ∙ ((let here = effect f in ground arith)
              ∙ sym (
                  edited-of_quiet (put_in ops) (taken ops) (replaced ops) f (new ++ drop t lines)
                    (λ j h. let none_left = quiet j h in (none_left.0, none_left.1)))))

-- One accepted operation, with the others below it.
pub apply_line_op-edited_by :
    (op : PatchOp) (ops : List PatchOp) (lines lines' : List Text) (low high : ℕ)
    → LineEdit op lines lines'
    → Spans op low high
    → Stacked low ops
    → edited_by (op ∷ ops) lines ≡ edited_by ops lines'
unfolding primary_key replaced contents
apply_line_op-edited_by op ops lines lines' low high (inserted k e at fits made) span stacked =
    let key = span.0 in
    let same : low ≡ k = ground arith in
    rw made (insert-edited_by op ops lines k e at fits (rw same at stacked))
apply_line_op-edited_by op ops lines lines' low high
      (replaced_lines f t e from to some_line fits made) span stacked =
    let key = span.0 in
    let same : low ≡ suc f = ground arith in
    let below : Stacked (suc f) ops = rw same at stacked in
    let none_left = (Stacked-quiet (suc f) (suc f) ops below (omega arith)).2 in
    let effect = replace-effect op f t from to in
    let new : replaced (op ∷ ops) (suc f) ≡ op.content ∷ [] =
      let here = (effect (suc f) e).2 in let now = ==_refl (suc f) in ground arith in
    rw made (
      rw new at (
        taken-edited_by op ops lines f t some_line fits below
          (λ j. ((effect j e).0, (effect j e).1))
          (λ j h. let here = (effect j e).2 in ground arith)))
apply_line_op-edited_by op ops lines lines' low high (deleted f t e from to some_line fits made)
      span stacked =
    let key = span.0 in
    let same : low ≡ suc f = ground arith in
    let below : Stacked (suc f) ops = rw same at stacked in
    let none_left = (Stacked-quiet (suc f) (suc f) ops below (omega arith)).2 in
    let effect = delete-effect op f t from to in
    let new : replaced (op ∷ ops) (suc f) ≡ [] = let here = (effect (suc f) e).2 in ground arith in
    rw made (
      rw new at (
        taken-edited_by op ops lines f t some_line fits below
          (λ j. ((effect j e).0, (effect j e).1)) (λ j h. (effect j e).2)))
