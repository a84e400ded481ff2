-- ===== src/Patch/Order.antt =====
-- The order of the operations does not matter to what they ask for at each place.
use adtler.Prelude.{
  ℕ, ◌≡◌, refl, ◌∙◌, Bool, true, false, not, ◌||◌, List, [], ◌∷◌, filter, Text, arith, ℤ, pos,
  int_ltb, int_eq, Bool-cases, inl, inr,
}
use adtler.Patch.{
  OpType, PatchOp, primary_key, is_search_replace, insert_descending, sort_descending, line_ops,
}
use adtler.Patch.Edited.{edited}
use adtler.Patch.Plan.{puts_after, takes, replaces_from, contents, put_in, taken, replaced}
use adtler.Patch.Simultaneous.{edited_by}

int_ltb_irrefl : (k : ℤ) → int_ltb k k ≡ false
unfolding int_ltb
int_ltb_irrefl (ℤ.pos n) = ground arith
int_ltb_irrefl (ℤ.negsuc n) = ground arith

-- Sorting keeps the operations of one key in their order.
module _ (p : PatchOp → Bool) (key : ℤ)
    (one_key : (op : PatchOp) → p op ≡ true → primary_key op ≡ key) where
  contents-insert_descending :
      (op : PatchOp) (ops : List PatchOp)
      → contents p (insert_descending op ops) ≡ contents p (op ∷ ops)
  unfolding contents insert_descending
  contents-insert_descending op [] = refl
  contents-insert_descending op (next ∷ ops) =
      let ih = contents-insert_descending op ops in
      let same = int_ltb_irrefl key in
      elim (Bool-cases (int_ltb (primary_key op) (primary_key next))) [
        | inl e ↦ rw e (elim (Bool-cases (p op)) [
          | inl here ↦ elim (Bool-cases (p next)) [
            | inl there ↦
                let k = one_key op here in let k' = one_key next there in absurd (ground arith)
            | inr there ↦ ground (arith, ih)
          ]
          | inr here ↦ ground (arith, ih)
        ])
        | inr e ↦ rw e refl
      ]

  contents-sort_descending :
      (ops : List PatchOp) → contents p (sort_descending ops) ≡ contents p ops
  unfolding sort_descending contents
  contents-sort_descending [] = refl
  contents-sort_descending (op ∷ ops) =
      let ih = contents-sort_descending ops in
      contents-insert_descending op (sort_descending ops) ∙ ground (arith, ih)

  -- Operations that the test does not select may be left out.
  contents-filter :
      (q : PatchOp → Bool) (ops : List PatchOp)
      → ((op : PatchOp) → p op ≡ true → q op ≡ true)
      → contents p (filter q ops) ≡ contents p ops
  unfolding contents filter
  contents-filter q [] only = refl
  contents-filter q (op ∷ ops) only =
      let ih = contents-filter q ops only in
      elim (Bool-cases (p op)) [
        | inl e ↦ let chosen = only op e in ground (arith, ih)
        | inr e ↦ elim (Bool-cases (q op)) [
          | inl f ↦ ground (arith, ih)
          | inr f ↦ ground (arith, ih)
        ]
      ]

taken-insert_descending :
    (op : PatchOp) (ops : List PatchOp) (k : ℕ)
    → taken (insert_descending op ops) k ≡ (takes op k || taken ops k)
unfolding taken insert_descending
taken-insert_descending op [] k = refl
taken-insert_descending op (next ∷ ops) k = ground (arith, taken-insert_descending op ops k)

taken-sort_descending : (ops : List PatchOp) (k : ℕ) → taken (sort_descending ops) k ≡ taken ops k
unfolding taken sort_descending
taken-sort_descending [] k = refl
taken-sort_descending (op ∷ ops) k =
    ground (arith, taken-insert_descending op (sort_descending ops) k, taken-sort_descending ops k)

taken-filter :
    (q : PatchOp → Bool) (ops : List PatchOp) (k : ℕ)
    → ((op : PatchOp) → takes op k ≡ true → q op ≡ true)
    → taken (filter q ops) k ≡ taken ops k
unfolding taken filter
taken-filter q [] k only = refl
taken-filter q (op ∷ ops) k only =
    let ih = taken-filter q ops k only in
    elim (Bool-cases (takes op k)) [
      | inl e ↦ let chosen = only op e in ground (arith, ih)
      | inr e ↦ elim (Bool-cases (q op)) [ inl f ↦ ground (arith, ih) | inr f ↦ ground (arith, ih) ]
    ]

int_eq→eq : (a b : ℤ) → int_eq a b ≡ true → a ≡ b
unfolding int_eq
int_eq→eq (ℤ.pos a) (ℤ.pos b) h = ground arith
int_eq→eq (ℤ.pos a) (ℤ.negsuc b) h = ground arith
int_eq→eq (ℤ.negsuc a) (ℤ.pos b) h = ground arith
int_eq→eq (ℤ.negsuc a) (ℤ.negsuc b) h = ground arith

-- What an effect at line `k` says of the operation.
module _ (op : PatchOp) (k : ℕ) where
  puts_after-key :
      (t : OpType)
      → op.op_type ≡ t
      → puts_after op k ≡ true
      → (primary_key op ≡ pos k) × (not (is_search_replace op) ≡ true)
  unfolding puts_after primary_key is_search_replace
  puts_after-key OpType.insert e h =
      let same = int_eq→eq op.after_line (pos k) in (ground arith, ground arith)
  puts_after-key OpType.replace e h = absurd (ground arith)
  puts_after-key OpType.delete e h = absurd (ground arith)
  puts_after-key OpType.search_replace e h = absurd (ground arith)
  puts_after-key (OpType.other t) e h = absurd (ground arith)

  replaces_from-key :
      (t : OpType)
      → op.op_type ≡ t
      → replaces_from op k ≡ true
      → (primary_key op ≡ pos k) × (not (is_search_replace op) ≡ true)
  unfolding replaces_from primary_key is_search_replace
  replaces_from-key OpType.insert e h = absurd (ground arith)
  replaces_from-key OpType.replace e h =
      let same = int_eq→eq op.from_line (pos k) in (ground arith, ground arith)
  replaces_from-key OpType.delete e h = absurd (ground arith)
  replaces_from-key OpType.search_replace e h = absurd (ground arith)
  replaces_from-key (OpType.other t) e h = absurd (ground arith)

  takes-line_op :
      (t : OpType) → op.op_type ≡ t → takes op k ≡ true → not (is_search_replace op) ≡ true
  unfolding takes is_search_replace
  takes-line_op OpType.insert e h = ground arith
  takes-line_op OpType.replace e h = ground arith
  takes-line_op OpType.delete e h = ground arith
  takes-line_op OpType.search_replace e h = absurd (ground arith)
  takes-line_op (OpType.other t) e h = ground arith

module _ (ops : List PatchOp) (k : ℕ) where
  put_in-line_ops : put_in (line_ops ops) k ≡ put_in ops k
  unfolding put_in line_ops
  put_in-line_ops =
      let key =
        λ (op : PatchOp) (h : puts_after op k ≡ true). puts_after-key op k op.op_type refl h in
      contents-sort_descending (λ op. puts_after op k) (pos k) (λ op h. (key op h).0)
        (filter (λ op. not (is_search_replace op)) ops)
      ∙ contents-filter (λ op. puts_after op k) (pos k) (λ op h. (key op h).0)
          (λ op. not (is_search_replace op)) ops (λ op h. (key op h).1)

  replaced-line_ops : replaced (line_ops ops) k ≡ replaced ops k
  unfolding replaced line_ops
  replaced-line_ops =
      let key = λ (op : PatchOp) (h : replaces_from op k ≡ true).
        replaces_from-key op k op.op_type refl h in
      contents-sort_descending (λ op. replaces_from op k) (pos k) (λ op h. (key op h).0)
        (filter (λ op. not (is_search_replace op)) ops)
      ∙ contents-filter (λ op. replaces_from op k) (pos k) (λ op h. (key op h).0)
          (λ op. not (is_search_replace op)) ops (λ op h. (key op h).1)

  taken-line_ops : taken (line_ops ops) k ≡ taken ops k
  unfolding line_ops
  taken-line_ops =
      taken-sort_descending (filter (λ op. not (is_search_replace op)) ops) k
      ∙ taken-filter (λ op. not (is_search_replace op)) ops k
          (λ op. takes-line_op op k op.op_type refl)

pub edited_by-line_ops :
    (ops : List PatchOp) (lines : List Text) → edited_by (line_ops ops) lines ≡ edited_by ops lines
unfolding edited_by
edited_by-line_ops ops lines = λ i.
    edited (λ k. put_in-line_ops ops k i) (λ k. taken-line_ops ops k i)
      (λ k. replaced-line_ops ops k i) 0 lines
