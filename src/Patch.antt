-- ===== src/Patch.antt =====
-- adt/patch.go: line edits and text substitutions of a source. Line numbers are integers, as the
-- caller sends them.
pub mod Substitute
pub mod Edited
pub mod Plan
pub mod Below
pub mod Simultaneous
pub mod Order
pub mod Placement
pub mod Accepts
pub mod Matches
pub mod Whole
use adtler.Prelude.{
  ◌≡◌, refl, ℕ, zero, suc, ◌+◌, ◌-◌, Bool, true, false, not, ◌&&◌, ◌||◌, List, [], ◌∷◌, ◌++◌, ltb,
  leb, if◌then◌else◌, length, take, drop, filter, text_eq, Option, none, some, ◌==◌, Text, split,
  join, ℤ, pos, negsuc, int_ltb, int_leb, to_index,
}
use adtler.Patch.Substitute.{lf, replace_all, replace_once, contains, to_crlf}

-- PatchOp.Type: the four constants, and every other string
pub data OpType : Type 0 where
  insert replace delete search_replace : OpType
  other : Text → OpType

pub record PatchOp : Type 0 where
  pub op_type : OpType
  pub after_line : ℤ
  pub content : Text
  pub from_line : ℤ
  pub to_line : ℤ
  pub search : Text
  pub replacement : Text
  pub replace_every : Bool

pub data PatchError : Type 0 where
  -- the lines of the lower op, then those of the upper
  overlap : ℤ → ℤ → ℤ → ℤ → PatchError
  insert_out_of_range : ℤ → ℕ → PatchError
  replace_out_of_range delete_out_of_range : ℤ → ℤ → ℕ → PatchError
  unknown_op : OpType → PatchError
  empty_search search_not_found : PatchError

pub data Patched (A : Type 0) : Type 0 where
  ok : A → Patched A
  err : PatchError → Patched A

pub data PatchedCases {A : Type 0} (r : Patched A) : Type 0 where
  accepted : (a : A) → r ≡ ok a → PatchedCases r
  rejected : (e : PatchError) → r ≡ err e → PatchedCases r

pub Patched-cases : {A : Type 0} (r : Patched A) → PatchedCases r
Patched-cases (ok a) = accepted a refl
Patched-cases (err e) = rejected e refl

-- the `switch` of primaryKey
unfoldable pub primary_key : PatchOp → ℤ
primary_key op = elim op.op_type [
  | insert ↦ op.after_line
  | replace ↦ op.from_line
  | delete ↦ op.from_line
  | search_replace ↦ pos 0
  | other t ↦ pos 0
]

unfoldable pub op_start_line : PatchOp → ℤ
op_start_line op = elim op.op_type [
  | insert ↦ op.after_line
  | replace ↦ op.from_line
  | delete ↦ op.from_line
  | search_replace ↦ op.from_line
  | other t ↦ op.from_line
]

unfoldable pub op_end_line : PatchOp → ℤ
op_end_line op = elim op.op_type [
  | insert ↦ op.after_line
  | replace ↦ op.to_line
  | delete ↦ op.to_line
  | search_replace ↦ pos 0
  | other t ↦ pos 0
]

unfoldable pub is_search_replace : PatchOp → Bool
is_search_replace op = elim op.op_type [
  | insert ↦ false
  | replace ↦ false
  | delete ↦ false
  | search_replace ↦ true
  | other t ↦ false
]

-- sort.Slice by the descending key. Among equal keys Go promises no order; here they keep theirs.
unfoldable pub insert_descending : PatchOp → List PatchOp → List PatchOp
unfolding primary_key int_ltb
insert_descending op [] = op ∷ []
insert_descending op (next ∷ ops) =
    let rest = insert_descending op ops in
    if int_ltb (primary_key op) (primary_key next) then next ∷ rest else op ∷ next ∷ ops

unfoldable pub sort_descending : List PatchOp → List PatchOp
unfolding insert_descending
sort_descending [] = []
sort_descending (op ∷ ops) = insert_descending op (sort_descending ops)

unfoldable pub ops_overlap : PatchOp → PatchOp → Bool
unfolding primary_key op_start_line op_end_line int_leb
ops_overlap a b =
    int_leb (primary_key a) (op_end_line b) && int_leb (op_start_line b) (op_end_line a)

-- the check of each operation with the next one
unfoldable pub find_overlap : List PatchOp → Option PatchError
unfolding ops_overlap
find_overlap [] = none
find_overlap (a ∷ []) = none
find_overlap (a ∷ b ∷ ops) =
    let rest = find_overlap (b ∷ ops) in
    if ops_overlap a b
    then some (overlap (op_start_line b) (op_end_line b) (primary_key a) (op_end_line a))
    else rest

unfoldable pub split_lines : Text → List Text
unfolding split
split_lines [] = []
split_lines (c ∷ source) = split (c ∷ source) 10

unfoldable pub join_lines : List Text → Text
unfolding join
join_lines lines = join lines lf

-- `lines[:before]`, the new content, `lines[after:]`
unfoldable pub splice : ℕ → ℕ → List Text → List Text → List Text
splice before after content lines = take before lines ++ (content ++ drop after lines)

unfoldable pub range_refused : ℤ → ℤ → ℕ → Bool
unfolding int_ltb
range_refused from to n = int_ltb from (pos 1) || (int_ltb to from || int_ltb (pos n) to)

unfoldable pub apply_line_op : List Text → PatchOp → Patched (List Text)
unfolding splice range_refused int_ltb to_index
apply_line_op lines op =
    let n = length lines in
    let from = op.from_line in
    let to = op.to_line in
    elim op.op_type [
      | insert ↦
          if int_ltb op.after_line (pos 0) || int_ltb (pos n) op.after_line
          then err (insert_out_of_range op.after_line n)
          else ok (splice (to_index op.after_line) (to_index op.after_line) (op.content ∷ []) lines)
      | replace ↦
          if range_refused from to n
          then err (replace_out_of_range from to n)
          else ok (splice (to_index from - 1) (to_index to) (op.content ∷ []) lines)
      | delete ↦
          if range_refused from to n
          then err (delete_out_of_range from to n)
          else ok (splice (to_index from - 1) (to_index to) [] lines)
      | search_replace ↦ err (unknown_op search_replace)
      | other t ↦ err (unknown_op (other t))
    ]

unfoldable pub apply_line_ops : List Text → List PatchOp → Patched (List Text)
unfolding apply_line_op
apply_line_ops lines [] = ok lines
apply_line_ops lines (op ∷ ops) = elim (apply_line_op lines op) [
  | err e ↦ err e
  | ok lines' ↦ apply_line_ops lines' ops
]

-- the substitution once the search text is known to occur
unfoldable pub substitute : Bool → Text → Text → Text → Text
unfolding replace_all replace_once
substitute every src search replacement =
    if every then replace_all src search replacement else replace_once src search replacement

unfoldable pub apply_search_replace : Text → PatchOp → Patched Text
unfolding contains to_crlf substitute text_eq
apply_search_replace src op =
    let crlf_search = to_crlf op.search in
    if text_eq op.search []
    then err empty_search
    else if contains src op.search
    then ok (substitute op.replace_every src op.search op.replacement)
    else if text_eq crlf_search op.search || not (contains src crlf_search)
    then err search_not_found
    else ok (substitute op.replace_every src crlf_search (to_crlf op.replacement))

unfoldable pub apply_search_replaces : Text → List PatchOp → Patched Text
unfolding apply_search_replace
apply_search_replaces src [] = ok src
apply_search_replaces src (op ∷ ops) = elim (apply_search_replace src op) [
  | err e ↦ err e
  | ok src' ↦ apply_search_replaces src' ops
]

unfoldable pub apply_sorted_ops : Text → List PatchOp → List PatchOp → Patched Text
unfolding find_overlap apply_line_ops split_lines join_lines apply_search_replaces
apply_sorted_ops source line_ops sr_ops = elim (find_overlap line_ops) [
  | some e ↦ err e
  | none ↦ elim (apply_line_ops (split_lines source) line_ops) [
    | err e ↦ err e
    | ok lines ↦ apply_search_replaces (join_lines lines) sr_ops
  ]
]

-- `lineOps`, sorted
unfoldable pub line_ops : List PatchOp → List PatchOp
unfolding filter is_search_replace sort_descending
line_ops ops = sort_descending (filter (λ op. not (is_search_replace op)) ops)

unfoldable pub apply_patch_ops : Text → List PatchOp → Patched Text
unfolding filter is_search_replace line_ops apply_sorted_ops
apply_patch_ops source ops = apply_sorted_ops source (line_ops ops) (filter is_search_replace ops)

-- strings.Count of the line feed
unfoldable pub count_newlines : Text → ℕ
count_newlines [] = 0
count_newlines (c ∷ s) = let rest = count_newlines s in if c == 10 then suc rest else rest

unfoldable pub count_lines : Text → ℕ
unfolding count_newlines
count_lines [] = 0
count_lines (c ∷ s) = count_newlines (c ∷ s) + 1

-- The difference of two counts as an integer.
unfoldable pub int_minus : ℕ → ℕ → ℤ
int_minus a b = if leb b a then pos (a - b) else negsuc (b - a - 1)

unfoldable pub line_delta : Text → Text → ℤ
unfolding count_lines int_minus
line_delta old_source new_source = int_minus (count_lines new_source) (count_lines old_source)
