-- ===== src/Patch/Placement.antt =====
-- Which line operations ApplyPatchOps accepts: those that lie within the source and apart from each
-- other.
use adtler.Prelude.{
  ℕ, suc, ◌≤◌, ◌<◌, ◌≡◌, refl, Bool, ◌&&◌, List, [], ◌∷◌, leb, leb→le, if◌then◌else◌, All, arith,
  pos, int_ltb, int_leb, Bool-cases, inl, inr,
}
use adtler.Patch.{
  OpType, PatchOp, primary_key, op_start_line, op_end_line, insert_descending, sort_descending,
}
use adtler.Patch.Plan.{Spans}
use adtler.Patch.Below.{Stacked}

-- The operation is an insert behind one of the `n` lines or before them all, or a replace or a delete of some of the lines.
pub data Fits (n : ℕ) (op : PatchOp) : Type 0 where
  fits_insert : (k : ℕ) → op.op_type ≡ OpType.insert → op.after_line ≡ pos k → k ≤ n → Fits n op
  fits_replace :
      (f t : ℕ)
      → op.op_type ≡ OpType.replace
      → op.from_line ≡ pos (suc f)
      → op.to_line ≡ pos t
      → f < t
      → t ≤ n
      → Fits n op
  fits_delete :
      (f t : ℕ)
      → op.op_type ≡ OpType.delete
      → op.from_line ≡ pos (suc f)
      → op.to_line ≡ pos t
      → f < t
      → t ≤ n
      → Fits n op

-- Line `j` lies within the operation's lines; for an insert that is the line it stands behind.
unfoldable pub touches : ℕ → PatchOp → Bool
unfolding op_start_line op_end_line int_leb
touches j op = int_leb (op_start_line op) (pos j) && int_leb (pos j) (op_end_line op)

unfoldable pub count : (PatchOp → Bool) → List PatchOp → ℕ
count p [] = 0
count p (op ∷ ops) = let rest = count p ops in if p op then suc rest else rest

-- No line is touched by two operations.
abbrev pub Apart : List PatchOp → Type 0
Apart ops = (j : ℕ) → count (touches j) ops ≤ 1

count-insert_descending :
    (p : PatchOp → Bool) (op : PatchOp) (ops : List PatchOp)
    → count p (insert_descending op ops) ≡ count p (op ∷ ops)
unfolding count insert_descending
count-insert_descending p op [] = refl
count-insert_descending p op (next ∷ ops) = ground (arith, count-insert_descending p op ops)

pub count-sort_descending :
    (p : PatchOp → Bool) (ops : List PatchOp) → count p (sort_descending ops) ≡ count p ops
unfolding count sort_descending
count-sort_descending p [] = refl
count-sort_descending p (op ∷ ops) =
    ground (arith, count-insert_descending p op (sort_descending ops), count-sort_descending p ops)

module _ {ℓ} (P : PatchOp → Type ℓ) where
  All-insert_descending :
      (op : PatchOp) (ops : List PatchOp) → P op → All P ops → All P (insert_descending op ops)
  unfolding insert_descending
  All-insert_descending op [] h hs = (h, tt)
  All-insert_descending op (next ∷ ops) h (h', hs) =
      elim (Bool-cases (int_ltb (primary_key op) (primary_key next))) [
        | inl e ↦ rw e (h', All-insert_descending op ops h hs)
        | inr e ↦ rw e (h, (h', hs))
      ]

  All-of_insert_descending :
      (op : PatchOp) (ops : List PatchOp) → All P (insert_descending op ops) → P op × All P ops
  unfolding insert_descending
  All-of_insert_descending op [] h = h
  All-of_insert_descending op (next ∷ ops) h =
      elim (Bool-cases (int_ltb (primary_key op) (primary_key next))) [
        | inl e ↦
            let both : P next × All P (insert_descending op ops) = rw e at h in
            let rest = All-of_insert_descending op ops both.1 in (rest.0, (both.0, rest.1))
        | inr e ↦ rw e at h
      ]

  pub All-sort_descending : (ops : List PatchOp) → All P ops → All P (sort_descending ops)
  unfolding sort_descending
  All-sort_descending [] h = tt
  All-sort_descending (op ∷ ops) (h, hs) =
      All-insert_descending op (sort_descending ops) h (All-sort_descending ops hs)

  pub All-of_sort_descending : (ops : List PatchOp) → All P (sort_descending ops) → All P ops
  unfolding sort_descending
  All-of_sort_descending [] h = tt
  All-of_sort_descending (op ∷ ops) h =
      let both = All-of_insert_descending op (sort_descending ops) h in
      (both.0, All-of_sort_descending ops both.1)

touches-Spans :
    (op : PatchOp) (low high j : ℕ) → Spans op low high → touches j op ≡ (leb low j && leb j high)
unfolding touches int_leb
touches-Spans op low high j (key, start, end, some_line) = rw (start, end) refl

-- Operations that are stacked are apart.
count-Stacked :
    (bound j : ℕ) (ops : List PatchOp) → Stacked bound ops → bound ≤ j → count (touches j) ops ≡ 0
unfolding count
count-Stacked bound j [] stacked h = refl
count-Stacked bound j (op ∷ ops) (low, high, spans, below, stacked) h =
    let some_line : low ≤ high = spans.3 in
    ground (arith, touches-Spans op low high j spans, count-Stacked low j ops stacked (omega arith))

pub Stacked-Apart : (bound : ℕ) (ops : List PatchOp) → Stacked bound ops → Apart ops
unfolding count
Stacked-Apart bound [] stacked j = omega arith
Stacked-Apart bound (op ∷ ops) (low, high, spans, below, stacked) j =
    let rest = Stacked-Apart low ops stacked j in
    let touched = touches-Spans op low high j spans in
    elim (Bool-cases (leb low j)) [
      | inl e ↦ let none_left = count-Stacked low j ops stacked (leb→le low j e) in ground arith
      | inr e ↦ ground arith
    ]
