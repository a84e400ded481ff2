-- ===== src/Patch/Below.antt =====
-- Operations in descending order, each below the one before, and the places that they leave alone.
use adtler.Prelude.{
  ℕ, suc, ◌≤◌, ◌<◌, ◌≡◌, refl, true, false, List, [], ◌∷◌, length, Text, arith, ℤ, pos, negsuc,
  int_ltb, int_leb, int_eq, Bool-cases, inl, inr, none,
}
use adtler.Patch.{
  OpType, PatchOp, primary_key, op_start_line, op_end_line, insert_descending, sort_descending,
  ops_overlap, find_overlap, ok, Patched-cases, accepted, rejected, apply_line_ops, apply_line_op,
}
use adtler.Patch.Plan.{
  puts_after, takes, replaces_from, contents, put_in, taken, replaced, Spans, LineEdit, inserted,
  replaced_lines, deleted, apply_line_op-LineEdit,
}

-- Every operation ends below line `bound`, and the next one ends before it begins.
abbrev pub Stacked : ℕ → List PatchOp → Type 0
Stacked bound [] = Unit
Stacked bound (op ∷ ops) =
    (low : ℕ) × (high : ℕ) × Spans op low high × (high < bound) × Stacked low ops

module _ (op : PatchOp) (low high k : ℕ) (spans : Spans op low high) (above : high < k) where
  puts_after_typed : (t : OpType) → op.op_type ≡ t → puts_after op k ≡ false
  unfolding puts_after primary_key int_eq
  puts_after_typed OpType.insert e = ground arith
  puts_after_typed OpType.replace e = ground arith
  puts_after_typed OpType.delete e = ground arith
  puts_after_typed OpType.search_replace e = ground arith
  puts_after_typed (OpType.other t) e = ground arith

  takes_typed : (t : OpType) → op.op_type ≡ t → takes op k ≡ false
  unfolding takes op_end_line int_leb
  takes_typed OpType.insert e = ground arith
  takes_typed OpType.replace e = ground arith
  takes_typed OpType.delete e = ground arith
  takes_typed OpType.search_replace e = ground arith
  takes_typed (OpType.other t) e = ground arith

  replaces_typed : (t : OpType) → op.op_type ≡ t → replaces_from op k ≡ false
  unfolding replaces_from primary_key int_eq
  replaces_typed OpType.insert e = ground arith
  replaces_typed OpType.replace e = ground arith
  replaces_typed OpType.delete e = ground arith
  replaces_typed OpType.search_replace e = ground arith
  replaces_typed (OpType.other t) e = ground arith

pub Stacked-quiet :
    (bound k : ℕ) (ops : List PatchOp)
    → Stacked bound ops
    → bound ≤ k
    → (put_in ops k ≡ []) × (taken ops k ≡ false) × (replaced ops k ≡ [])
unfolding put_in taken replaced contents
Stacked-quiet bound k [] stacked h = (refl, refl, refl)
Stacked-quiet bound k (op ∷ ops) (low, high, spans, below, stacked) h =
    let order : low ≤ high = spans.3 in
    let rest = Stacked-quiet low k ops stacked (omega arith) in
    let above : high < k = omega arith in
    let puts = puts_after_typed op low high k spans above op.op_type refl in
    let takes_none = takes_typed op low high k spans above op.op_type refl in
    let replaces = replaces_typed op low high k spans above op.op_type refl in
    (rw puts rest.0, rw takes_none rest.1, rw replaces rest.2)

-- The lines and the end of an accepted operation.
pub LineEdit-Spans :
    (op : PatchOp) (lines lines' : List Text)
    → LineEdit op lines lines'
    → (low : ℕ) × (high : ℕ) × Spans op low high × (high ≤ length lines)
unfolding primary_key op_start_line op_end_line
LineEdit-Spans op lines lines' (inserted k e at fits made) =
    (k, k, (rw e at, rw e at, rw e at, omega arith), fits)
LineEdit-Spans op lines lines' (replaced_lines f t e from to some_line fits made) =
    (suc f, t, (rw e from, rw e from, rw e to, some_line), fits)
LineEdit-Spans op lines lines' (deleted f t e from to some_line fits made) =
    (suc f, t, (rw e from, rw e from, rw e to, some_line), fits)

-- No operation has a larger key than the one before.
abbrev pub Descending : List PatchOp → Type 0
Descending [] = Unit
Descending (a ∷ []) = Unit
Descending (a ∷ b ∷ ops) = (int_ltb (primary_key a) (primary_key b) ≡ false) × Descending (b ∷ ops)

int_ltb-flip : (a b : ℤ) → int_ltb a b ≡ true → int_ltb b a ≡ false
unfolding int_ltb
int_ltb-flip (pos a) (pos b) h = ground arith
int_ltb-flip (pos a) (negsuc b) h = ground arith
int_ltb-flip (negsuc a) (pos b) h = ground arith
int_ltb-flip (negsuc a) (negsuc b) h = ground arith

insert_descending-Descending :
    (op : PatchOp) (ops : List PatchOp) → Descending ops → Descending (insert_descending op ops)
unfolding insert_descending
insert_descending-Descending op [] h = tt
insert_descending-Descending op (a ∷ []) h =
    elim (Bool-cases (int_ltb (primary_key op) (primary_key a))) [
      | inl e ↦ rw e (int_ltb-flip (primary_key op) (primary_key a) e, tt)
      | inr e ↦ rw e (e, tt)
    ]
insert_descending-Descending op (a ∷ b ∷ ops) (first, h) =
    let rest = insert_descending-Descending op (b ∷ ops) h in
    elim (Bool-cases (int_ltb (primary_key op) (primary_key a))) [
      | inl e ↦ rw e (elim (Bool-cases (int_ltb (primary_key op) (primary_key b))) [
        | inl e' ↦ rw e' (first, rw e' at rest)
        | inr e' ↦ rw e' (int_ltb-flip (primary_key op) (primary_key a) e, rw e' at rest)
      ])
      | inr e ↦ rw e (e, (first, h))
    ]

pub sort_descending-Descending : (ops : List PatchOp) → Descending (sort_descending ops)
unfolding sort_descending
sort_descending-Descending [] = tt
sort_descending-Descending (op ∷ ops) =
    insert_descending-Descending op (sort_descending ops) (sort_descending-Descending ops)

-- Two neighbours that keep their order and do not overlap.
neighbours :
    (a b : PatchOp) (low high low' high' : ℕ)
    → Spans a low high
    → Spans b low' high'
    → int_ltb (primary_key a) (primary_key b) ≡ false
    → ops_overlap a b ≡ false
    → high' < low
unfolding ops_overlap int_ltb int_leb
neighbours a b low high low' high' (ka, sa, ea, ha) (kb, sb, eb, hb) order apart = ground arith

-- Operations that are in order, do not overlap and are all accepted lie apart, within the source.
pub apply_line_ops-Stacked :
    (lines result : List Text) (ops : List PatchOp)
    → Descending ops
    → find_overlap ops ≡ none
    → apply_line_ops lines ops ≡ ok result
    → Stacked (suc (length lines)) ops
unfolding apply_line_ops find_overlap
apply_line_ops-Stacked lines result [] down apart done = tt
apply_line_ops-Stacked lines result (a ∷ []) down apart done =
    elim (Patched-cases (apply_line_op lines a)) [
      | accepted lines' e ↦
          let span = LineEdit-Spans a lines lines' (apply_line_op-LineEdit lines lines' a e) in
          let fits = span.3 in (span.0, span.1, span.2, (omega arith), tt)
      | rejected x e ↦ absurd (ground arith)
    ]
apply_line_ops-Stacked lines result (a ∷ b ∷ ops) down apart done =
    elim (Patched-cases (apply_line_op lines a)) [
      | accepted lines' e ↦
          let span = LineEdit-Spans a lines lines' (apply_line_op-LineEdit lines lines' a e) in
          let fits = span.3 in
          let rest =
            apply_line_ops-Stacked lines' result (b ∷ ops) down.1 (ground arith)
              (rw (e, apply_line_ops) at done) in
          let gap =
            neighbours a b span.0 span.1 rest.0 rest.1 span.2 rest.2 down.0 (ground arith) in
          (span.0, span.1, span.2, (omega arith), (rest.0, rest.1, rest.2, gap, rest.4))
      | rejected x e ↦ absurd (ground arith)
    ]
