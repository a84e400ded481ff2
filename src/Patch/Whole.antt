-- ===== src/Patch/Whole.antt =====
-- ApplyPatchOps as a whole: what it returns, and what it refuses.
use adtler.Prelude.{
  ℕ, suc, ◌≡◌, refl, sym, ◌∙◌, not, List, [], ◌∷◌, filter, length, All, Text, arith, Option-cases,
  inl, inr,
}
use adtler.Patch.{
  PatchOp, is_search_replace, line_ops, find_overlap, Patched-cases, accepted, rejected, ok,
  apply_line_op, apply_line_ops, apply_search_replaces, split_lines, join_lines, apply_sorted_ops,
  apply_patch_ops,
}
use adtler.Patch.Edited.{edited-of_quiet}
use adtler.Patch.Plan.{put_in, taken, replaced, contents, apply_line_op-LineEdit}
use adtler.Patch.Below.{Stacked, sort_descending-Descending, apply_line_ops-Stacked}
use adtler.Patch.Simultaneous.{edited_by, apply_line_op-edited_by}
use adtler.Patch.Order.{edited_by-line_ops}
use adtler.Patch.Placement.{
  Fits, Apart, touches, count-sort_descending, All-sort_descending, All-of_sort_descending,
  Stacked-Apart,
}
use adtler.Patch.Accepts.{apply_line_ops-Fits, apply_line_ops-of_Fits, Apart-Stacked}

edited_by_nil : (lines : List Text) → edited_by [] lines ≡ lines
unfolding edited_by put_in contents taken
edited_by_nil lines =
    edited-of_quiet (put_in []) (taken []) (replaced []) 0 lines (λ k h. (refl, refl))

apply_line_ops-edited_by :
    (bound : ℕ) (ops : List PatchOp) (lines result : List Text)
    → Stacked bound ops
    → apply_line_ops lines ops ≡ ok result
    → edited_by ops lines ≡ result
unfolding apply_line_ops
apply_line_ops-edited_by bound [] lines result stacked done = edited_by_nil lines ∙ ground arith
apply_line_ops-edited_by bound (op ∷ ops) lines result (low, high, spans, below, stacked) done =
    elim (Patched-cases (apply_line_op lines op)) [
      | accepted lines' e ↦
          apply_line_op-edited_by op ops lines lines' low high
            (apply_line_op-LineEdit lines lines' op e) spans stacked
          ∙ apply_line_ops-edited_by low ops lines' result stacked (rw (e, apply_line_ops) at done)
      | rejected x e ↦ absurd (ground arith)
    ]

-- What a success of ApplyPatchOps has gone through.
data Succeeded (source result : Text) (ops : List PatchOp) : Type 0 where
  succeeded :
      (lines : List Text)
      → Stacked (suc (length (split_lines source))) (line_ops ops)
      → apply_line_ops (split_lines source) (line_ops ops) ≡ ok lines
      → apply_search_replaces (join_lines lines) (filter is_search_replace ops) ≡ ok result
      → Succeeded source result ops

apply_patch_ops-Succeeded :
    (source result : Text) (ops : List PatchOp)
    → apply_patch_ops source ops ≡ ok result
    → Succeeded source result ops
unfolding apply_patch_ops apply_sorted_ops
apply_patch_ops-Succeeded source result ops done =
    elim (Option-cases (find_overlap (line_ops ops))) [
      | inr (x, e) ↦ absurd (ground arith)
      | inl apart ↦ elim (Patched-cases (apply_line_ops (split_lines source) (line_ops ops))) [
        | accepted lines e ↦
            succeeded lines
              (apply_line_ops-Stacked (split_lines source) lines (line_ops ops)
                (unfold line_ops in
                  sort_descending-Descending (filter (λ op. not (is_search_replace op)) ops))
                apart e)
              e (ground arith)
        | rejected x e ↦ absurd (ground arith)
      ]
    ]

-- ApplyPatchOps returns a text only where every line operation lies within the lines of the source
-- and no two of them touch a common line, where an insert touches the one that it stands behind.
pub apply_patch_ops-Fits :
    (source result : Text) (ops : List PatchOp)
    → apply_patch_ops source ops ≡ ok result
    → All (Fits (length (split_lines source))) (filter (λ op. not (is_search_replace op)) ops)
      × Apart (filter (λ op. not (is_search_replace op)) ops)
unfolding line_ops
apply_patch_ops-Fits source result ops done =
    let n = length (split_lines source) in
    let given = filter (λ op. not (is_search_replace op)) ops in
    elim (apply_patch_ops-Succeeded source result ops done) [
      | succeeded lines stacked e e' ↦ (
        All-of_sort_descending (Fits n) given (
            apply_line_ops-Fits n (suc n) (line_ops ops) (split_lines source) lines stacked
              (omega arith) e),
        λ j.
            let fewer = Stacked-Apart (suc n) (line_ops ops) stacked j in
            omega (arith, count-sort_descending (touches j) given),
      )
    ]

-- Line operations that lie within the lines of the source, no two of them touching a common line (an
-- insert touches the one that it stands behind), are all carried out, whatever their order:
-- ApplyPatchOps returns what the search_replace operations return on the source with all the line
-- operations made at once.
pub apply_patch_ops-of_Fits :
    (source : Text) (ops : List PatchOp)
    → All (Fits (length (split_lines source))) (filter (λ op. not (is_search_replace op)) ops)
    → Apart (filter (λ op. not (is_search_replace op)) ops)
    → apply_patch_ops source ops
      ≡ apply_search_replaces
          (join_lines (edited_by ops (split_lines source)))
          (filter is_search_replace ops)
unfolding apply_patch_ops apply_sorted_ops line_ops
apply_patch_ops-of_Fits source ops fits apart =
    let n = length (split_lines source) in
    let given = filter (λ op. not (is_search_replace op)) ops in
    let sorted_fits = All-sort_descending (Fits n) given fits in
    let sorted_apart : Apart (line_ops ops) =
      λ j. let fewer = apart j in omega (arith, count-sort_descending (touches j) given) in
    let placed =
      Apart-Stacked n (line_ops ops) (sort_descending-Descending given) sorted_fits sorted_apart in
    let lines =
      apply_line_ops-of_Fits n (suc n) (line_ops ops) (split_lines source) sorted_fits placed.0
        (omega arith) in
    let same =
      sym (edited_by-line_ops ops (split_lines source))
      ∙ apply_line_ops-edited_by (suc n) (line_ops ops) (split_lines source) lines.0 placed.0
          lines.1 in
    let clear = placed.1 in let applied = lines.1 in rw same (ground arith)
