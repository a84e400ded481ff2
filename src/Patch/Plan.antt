-- ===== src/Patch/Plan.antt =====
-- What a list of patch operations asks for at each place of a source, whatever their order, and what
-- an operation that applyLineOp accepts does.
use adtler.Prelude.{
  ℕ, zero, suc, ◌-◌, ◌≤◌, ◌<◌, ◌≡◌, refl, ap, Bool, false, ◌&&◌, ◌||◌, List, [], ◌∷◌, if◌then◌else◌,
  length, Text, arith, ℤ, pos, negsuc, int_ltb, int_leb, int_eq, to_index,
}
use adtler.Patch.{
  OpType, PatchOp, ok, primary_key, op_start_line, op_end_line, splice, range_refused,
  apply_line_op,
}

-- It puts its text in behind `k` lines.
unfoldable pub puts_after : PatchOp → ℕ → Bool
unfolding int_eq
puts_after op k = elim op.op_type [
  | OpType.insert ↦ int_eq op.after_line (pos k)
  | OpType.replace ↦ false
  | OpType.delete ↦ false
  | OpType.search_replace ↦ false
  | OpType.other t ↦ false
]

-- It takes line `k` away.
unfoldable pub takes : PatchOp → ℕ → Bool
unfolding int_leb
takes op k =
    let inside = int_leb op.from_line (pos k) && int_leb (pos k) op.to_line in
    elim op.op_type [
      | OpType.insert ↦ false
      | OpType.replace ↦ inside
      | OpType.delete ↦ inside
      | OpType.search_replace ↦ false
      | OpType.other t ↦ false
    ]

-- It puts its text in the place of the lines from `k`.
unfoldable pub replaces_from : PatchOp → ℕ → Bool
unfolding int_eq
replaces_from op k = elim op.op_type [
  | OpType.insert ↦ false
  | OpType.replace ↦ int_eq op.from_line (pos k)
  | OpType.delete ↦ false
  | OpType.search_replace ↦ false
  | OpType.other t ↦ false
]

-- The texts of the operations that a test selects.
unfoldable pub contents : (PatchOp → Bool) → List PatchOp → List Text
contents p [] = []
contents p (op ∷ ops) = let rest = contents p ops in if p op then op.content ∷ rest else rest

unfoldable pub put_in : List PatchOp → ℕ → List Text
unfolding contents puts_after
put_in ops k = contents (λ op. puts_after op k) ops

unfoldable pub taken : List PatchOp → ℕ → Bool
unfolding takes
taken [] k = false
taken (op ∷ ops) k = takes op k || taken ops k

unfoldable pub replaced : List PatchOp → ℕ → List Text
unfolding contents replaces_from
replaced ops k = contents (λ op. replaces_from op k) ops

-- The first and the last line that an operation is about.
abbrev pub Spans : PatchOp → ℕ → ℕ → Type 0
Spans op low high =
    (primary_key op ≡ pos low)
    × (op_start_line op ≡ pos low)
    × (op_end_line op ≡ pos high)
    × (low ≤ high)

-- What applyLineOp has done where it returns no error.
pub data LineEdit (op : PatchOp) (lines : List Text) : List Text → Type 0 where
  inserted :
      (k : ℕ) {lines' : List Text}
      → op.op_type ≡ OpType.insert
      → op.after_line ≡ pos k
      → k ≤ length lines
      → lines' ≡ splice k k (op.content ∷ []) lines
      → LineEdit op lines lines'
  replaced_lines :
      (f t : ℕ) {lines' : List Text}
      → op.op_type ≡ OpType.replace
      → op.from_line ≡ pos (suc f)
      → op.to_line ≡ pos t
      → f < t
      → t ≤ length lines
      → lines' ≡ splice f t (op.content ∷ []) lines
      → LineEdit op lines lines'
  deleted :
      (f t : ℕ) {lines' : List Text}
      → op.op_type ≡ OpType.delete
      → op.from_line ≡ pos (suc f)
      → op.to_line ≡ pos t
      → f < t
      → t ≤ length lines
      → lines' ≡ splice f t [] lines
      → LineEdit op lines lines'

-- An index that passes the guards of replace and delete.
abbrev pub InRange : ℤ → ℤ → ℕ → Type 0
InRange from to n = (f : ℕ) × (t : ℕ) × (from ≡ pos (suc f)) × (to ≡ pos t) × (f < t) × (t ≤ n)

range_refused-InRange : (from to : ℤ) (n : ℕ) → range_refused from to n ≡ false → InRange from to n
unfolding range_refused int_ltb
range_refused-InRange (pos zero) to n h = absurd (ground arith)
range_refused-InRange (pos (suc f)) (pos t) n h = (f, t, refl, refl, ground arith, ground arith)
range_refused-InRange (pos (suc f)) (negsuc t) n h = absurd (ground arith)
range_refused-InRange (negsuc f) to n h = absurd (ground arith)

insert_allowed :
    (at : ℤ) (n : ℕ)
    → (int_ltb at (pos 0) || int_ltb (pos n) at) ≡ false
    → (k : ℕ) × (at ≡ pos k) × (k ≤ n)
unfolding int_ltb
insert_allowed (pos k) n h = (k, refl, ground arith)
insert_allowed (negsuc k) n h = absurd (ground arith)

-- The indices that an accepted range is turned into.
splice-InRange :
    (from to : ℤ) (f t : ℕ) (content lines : List Text)
    → from ≡ pos (suc f)
    → to ≡ pos t
    → splice (to_index from - 1) (to_index to) content lines ≡ splice f t content lines
unfolding to_index
splice-InRange from to f t content lines e e' =
    let low : suc f - 1 ≡ f = omega arith in rw (e, e', low) refl

module _ (lines lines' : List Text) (op : PatchOp) (done : apply_line_op lines op ≡ ok lines') where
  inserting-LineEdit : op.op_type ≡ OpType.insert → LineEdit op lines lines'
  unfolding apply_line_op
  inserting-LineEdit e = at_index (insert_allowed op.after_line (length lines) (ground arith))
    where
      at_index : (k : ℕ) × (op.after_line ≡ pos k) × (k ≤ length lines) → LineEdit op lines lines'
      at_index (k, at, fits) =
          let index : to_index op.after_line ≡ k = unfold to_index in ap to_index at in
          let spliced : lines'
              ≡ splice (to_index op.after_line) (to_index op.after_line) (op.content ∷ []) lines =
            ground arith in
          inserted k e at fits (rw spliced (rw index refl))

  replacing-LineEdit : op.op_type ≡ OpType.replace → LineEdit op lines lines'
  unfolding apply_line_op
  replacing-LineEdit e =
      in_range (range_refused-InRange op.from_line op.to_line (length lines) (ground arith))
    where
      in_range : InRange op.from_line op.to_line (length lines) → LineEdit op lines lines'
      in_range (f, t, from, to, some_line, fits) =
          let same = splice-InRange op.from_line op.to_line f t (op.content ∷ []) lines from to in
          replaced_lines f t e from to some_line fits (ground arith)

  deleting-LineEdit : op.op_type ≡ OpType.delete → LineEdit op lines lines'
  unfolding apply_line_op
  deleting-LineEdit e =
      in_range (range_refused-InRange op.from_line op.to_line (length lines) (ground arith))
    where
      in_range : InRange op.from_line op.to_line (length lines) → LineEdit op lines lines'
      in_range (f, t, from, to, some_line, fits) =
          let same = splice-InRange op.from_line op.to_line f t [] lines from to in
          deleted f t e from to some_line fits (ground arith)

  typed-LineEdit : (t : OpType) → op.op_type ≡ t → LineEdit op lines lines'
  unfolding apply_line_op
  typed-LineEdit OpType.insert e = inserting-LineEdit e
  typed-LineEdit OpType.replace e = replacing-LineEdit e
  typed-LineEdit OpType.delete e = deleting-LineEdit e
  typed-LineEdit OpType.search_replace e = absurd (ground arith)
  typed-LineEdit (OpType.other t) e = absurd (ground arith)

  pub apply_line_op-LineEdit : LineEdit op lines lines'
  apply_line_op-LineEdit = typed-LineEdit op.op_type refl
