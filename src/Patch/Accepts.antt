-- ===== src/Patch/Accepts.antt =====
-- ApplyPatchOps accepts the line operations exactly where they fit and lie apart.
use adtler.Prelude.{
  ℕ, suc, ◌+◌, ◌-◌, ◌≤◌, ◌<◌, ◌≡◌, refl, true, false, List, [], ◌∷◌, ◌++◌, ltb, leb, ltb→lt, All,
  arith, pos, int_ltb, int_leb, Bool-cases, inl, inr, Text, length, take, drop, none, length-take,
  length-drop, length-append, to_index,
}
use adtler.Patch.{
  OpType, PatchOp, Patched-cases, accepted, rejected, ok, primary_key, op_start_line, op_end_line,
  ops_overlap, find_overlap, splice, range_refused, apply_line_op, apply_line_ops,
}
use adtler.Patch.Plan.{Spans, LineEdit, inserted, replaced_lines, deleted, apply_line_op-LineEdit}
use adtler.Patch.Below.{Stacked, Descending}
use adtler.Patch.Placement.{Fits, fits_insert, fits_replace, fits_delete, touches, count, Apart}

module _ (n : ℕ) (op : PatchOp) where
  pub Fits-Spans : Fits n op → (low : ℕ) × (high : ℕ) × Spans op low high × (high ≤ n)
  unfolding primary_key op_start_line op_end_line
  Fits-Spans (fits_insert k e at h) = (k, k, (rw e at, rw e at, rw e at, omega arith), h)
  Fits-Spans (fits_replace f t e from to some_line h) =
      (suc f, t, (rw e from, rw e from, rw e to, some_line), h)
  Fits-Spans (fits_delete f t e from to some_line h) =
      (suc f, t, (rw e from, rw e from, rw e to, some_line), h)

  LineEdit-Fits :
      (lines lines' : List Text) (low high : ℕ)
      → LineEdit op lines lines'
      → Spans op low high
      → high ≤ n
      → Fits n op
  unfolding op_end_line
  LineEdit-Fits lines lines' low high (inserted k e at h made) span fits =
      let end = span.2 in let same : high ≡ k = ground arith in fits_insert k e at (omega arith)
  LineEdit-Fits lines lines' low high (replaced_lines f t e from to some_line h made) span fits =
      let end = span.2 in
      let same : high ≡ t = ground arith in fits_replace f t e from to some_line (omega arith)
  LineEdit-Fits lines lines' low high (deleted f t e from to some_line h made) span fits =
      let end = span.2 in
      let same : high ≡ t = ground arith in fits_delete f t e from to some_line (omega arith)

pub apply_line_ops-Fits :
    (n bound : ℕ) (ops : List PatchOp) (lines result : List Text)
    → Stacked bound ops
    → bound ≤ suc n
    → apply_line_ops lines ops ≡ ok result
    → All (Fits n) ops
unfolding apply_line_ops
apply_line_ops-Fits n bound [] lines result stacked h done = tt
apply_line_ops-Fits n bound (op ∷ ops) lines result (low, high, spans, below, stacked) h done =
    elim (Patched-cases (apply_line_op lines op)) [
      | accepted lines' e ↦
          let some_line : low ≤ high = spans.3 in
          (
            LineEdit-Fits n op lines lines' low high (apply_line_op-LineEdit lines lines' op e)
                spans (omega arith),
            apply_line_ops-Fits n low ops lines' result stacked (omega arith)
                (rw (e, apply_line_ops) at done),
          )
      | rejected x e ↦ absurd (ground arith)
    ]

-- The length of spliced lines.
length-splice :
    (f t : ℕ) (content lines : List Text)
    → f ≤ length lines
    → length (splice f t content lines) ≡ f + (length content + (length lines - t))
unfolding splice
length-splice f t content lines h = omega (
  arith,
  length-append {A = Text} (take f lines) (content ++ drop t lines),
  length-append {A = Text} content (drop t lines),
  length-take {A = Text} f lines,
  length-drop {A = Text} t lines,
)

-- applyLineOp on each kind of operation, within the lines.
module _ (op : PatchOp) (lines : List Text) where
  insert-accepted :
      (k : ℕ)
      → op.op_type ≡ OpType.insert
      → op.after_line ≡ pos k
      → k ≤ length lines
      → apply_line_op lines op ≡ ok (splice k k (op.content ∷ []) lines)
  unfolding apply_line_op int_ltb to_index
  insert-accepted k e at h =
      let above : ltb k 0 ≡ false = ground arith in
      let within : ltb (length lines) k ≡ false = ground arith in rw (e, at, above, within) refl

  range_accepted :
      (f t : ℕ)
      → f < t
      → t ≤ length lines
      → range_refused (pos (suc f)) (pos t) (length lines) ≡ false
  unfolding range_refused int_ltb
  range_accepted f t some_line h = ground arith

  replace-accepted :
      (f t : ℕ)
      → op.op_type ≡ OpType.replace
      → op.from_line ≡ pos (suc f)
      → op.to_line ≡ pos t
      → f < t
      → t ≤ length lines
      → apply_line_op lines op ≡ ok (splice f t (op.content ∷ []) lines)
  unfolding apply_line_op to_index
  replace-accepted f t e from to some_line h =
      let low : suc f - 1 ≡ f = omega arith in
      rw (e, from, to, range_accepted f t some_line h, low) refl

  delete-accepted :
      (f t : ℕ)
      → op.op_type ≡ OpType.delete
      → op.from_line ≡ pos (suc f)
      → op.to_line ≡ pos t
      → f < t
      → t ≤ length lines
      → apply_line_op lines op ≡ ok (splice f t [] lines)
  unfolding apply_line_op to_index
  delete-accepted f t e from to some_line h =
      let low : suc f - 1 ≡ f = omega arith in
      rw (e, from, to, range_accepted f t some_line h, low) refl

-- An operation that ends within the lines is applied, and leaves the lines below its first.
apply_line_op-of_Fits :
    (n low high : ℕ) (op : PatchOp) (lines : List Text)
    → Fits n op
    → Spans op low high
    → high ≤ length lines
    → (lines' : List Text) × (apply_line_op lines op ≡ ok lines') × (low ≤ suc (length lines'))
unfolding op_end_line primary_key
apply_line_op-of_Fits n low high op lines (fits_insert k e at h) (start, start', end, order)
      within =
    let same : high ≡ k = ground arith in
    let same' : low ≡ k = ground arith in
    (
      splice k k (op.content ∷ []) lines,
      insert-accepted op lines k e at (omega arith),
      omega (arith, length-splice k k (op.content ∷ []) lines (omega arith)),
    )
apply_line_op-of_Fits n low high op lines (fits_replace f t e from to some_line h)
      (start, start', end, order) within =
    let same : high ≡ t = ground arith in
    let same' : low ≡ suc f = ground arith in
    (
      splice f t (op.content ∷ []) lines,
      replace-accepted op lines f t e from to some_line (omega arith),
      omega (arith, length-splice f t (op.content ∷ []) lines (omega arith)),
    )
apply_line_op-of_Fits n low high op lines (fits_delete f t e from to some_line h)
      (start, start', end, order) within =
    let same : high ≡ t = ground arith in
    let same' : low ≡ suc f = ground arith in
    (
      splice f t [] lines,
      delete-accepted op lines f t e from to some_line (omega arith),
      omega (arith, length-splice f t [] lines (omega arith)),
    )

pub apply_line_ops-of_Fits :
    (n bound : ℕ) (ops : List PatchOp) (lines : List Text)
    → All (Fits n) ops
    → Stacked bound ops
    → bound ≤ suc (length lines)
    → (result : List Text) × (apply_line_ops lines ops ≡ ok result)
unfolding apply_line_ops
apply_line_ops-of_Fits n bound [] lines fits stacked h = (lines, refl)
apply_line_ops-of_Fits n bound (op ∷ ops) lines (fit, fits) (low, high, spans, below, stacked) h =
    let step = apply_line_op-of_Fits n low high op lines fit spans (omega arith) in
    let rest = apply_line_ops-of_Fits n low ops step.0 fits stacked step.2 in
    (rest.0, rw (step.1, apply_line_ops) rest.1)

-- Sorted operations that fit and lie apart are stacked, and the check finds no overlap.
touches-at :
    (op : PatchOp) (low high j : ℕ) → Spans op low high → low ≤ j → j ≤ high → touches j op ≡ true
unfolding touches int_leb
touches-at op low high j (key, start, end, order) h h' = rw (start, end) (ground arith)

module _ (a b : PatchOp) (low high low' high' : ℕ) (span : Spans a low high)
    (span' : Spans b low' high') where
  key_order : int_ltb (primary_key a) (primary_key b) ≡ false → low' ≤ low
  unfolding int_ltb
  key_order order = let key = span.0 in let key' = span'.0 in ground arith

  touched_twice :
      (ops : List PatchOp) → low' ≤ low → low ≤ high' → 2 ≤ count (touches low) (a ∷ b ∷ ops)
  unfolding count
  touched_twice ops h h' =
      let order = span.3 in
      ground (
        arith,
        touches-at a low high low span (omega arith) order,
        touches-at b low' high' low span' h h',
      )

  no_overlap : high' < low → ops_overlap a b ≡ false
  unfolding ops_overlap int_leb
  no_overlap h =
      let above : leb low high' ≡ false = ground arith in rw (span.0, span'.2, above) refl

Apart-gap :
    (a b : PatchOp) (ops : List PatchOp) (low high low' high' : ℕ)
    → Spans a low high
    → Spans b low' high'
    → int_ltb (primary_key a) (primary_key b) ≡ false
    → Apart (a ∷ b ∷ ops)
    → high' < low
Apart-gap a b ops low high low' high' span span' order apart =
    let limit = apart low in
    let down = key_order a b low high low' high' span span' order in
    elim (Bool-cases (ltb high' low)) [
      | inl e ↦ ltb→lt high' low e
      | inr e ↦
          let twice = touched_twice a b low high low' high' span span' ops down (ground arith) in
          absurd (omega arith)
    ]

Apart-tail : (a : PatchOp) (ops : List PatchOp) → Apart (a ∷ ops) → Apart ops
unfolding count
Apart-tail a ops apart j = let limit = apart j in ground arith

pub Apart-Stacked :
    (n : ℕ) (ops : List PatchOp)
    → Descending ops
    → All (Fits n) ops
    → Apart ops
    → Stacked (suc n) ops × (find_overlap ops ≡ none)
unfolding find_overlap
Apart-Stacked n [] down fits apart = (tt, refl)
Apart-Stacked n (a ∷ []) down (fit, fits) apart =
    let span = Fits-Spans n a fit in
    let h = span.3 in ((span.0, span.1, span.2, (omega arith), tt), refl)
Apart-Stacked n (a ∷ b ∷ ops) (order, down) (fit, fits) apart =
    let span = Fits-Spans n a fit in
    let h = span.3 in
    let rest = Apart-Stacked n (b ∷ ops) down fits (Apart-tail a (b ∷ ops) apart) in
    let below = rest.0 in
    let gap = Apart-gap a b ops span.0 span.1 below.0 below.1 span.2 below.2 order apart in
    let clear = no_overlap a b span.0 span.1 below.0 below.1 span.2 below.2 gap in
    (
      (span.0, span.1, span.2, (omega arith), (below.0, below.1, below.2, gap, below.4)),
      ground (arith, rest.1, clear),
    )
