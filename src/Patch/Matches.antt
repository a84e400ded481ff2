-- ===== src/Patch/Matches.antt =====
-- applySearchReplace: where the search text occurs, what the substitution makes of the source, and
-- the line endings.
use adtler.Prelude.{
  ℕ, ◌≡◌, ◌≢◌, ◌⊎◌, refl, ap, sym, ◌∙◌, true, false, [], ◌∷◌, ◌++◌, ◌==◌, ==_iff, if◌then◌else◌,
  length, drop, Text, text_eq_iff, arith, Bool-cases, inl, inr, has_prefix,
}
use adtler.Patch.Substitute.{
  contains, replace_once, replace_all, replace_skipping, to_crlf, cr_lf, lf,
}
use adtler.Patch.{PatchOp, ok, substitute, apply_search_replace}

has_prefix-drop :
    (s search : Text) → has_prefix s search ≡ true → s ≡ search ++ drop (length search) s
unfolding has_prefix
has_prefix-drop s [] h = refl
has_prefix-drop [] (p ∷ ps) h = absurd (cc h)
has_prefix-drop (c ∷ s) (p ∷ ps) h =
    let first = (==_iff c p).0 in let rest = has_prefix-drop s ps in ground arith

-- A substitution at one place.
pub data ReplacedAt (s search replacement result : Text) : Type 0 where
  replaced_at :
      (before after : Text)
      → s ≡ before ++ (search ++ after)
      → result ≡ before ++ (replacement ++ after)
      → ReplacedAt s search replacement result

ReplacedAt-cons :
    (c : ℕ) (s search replacement result : Text)
    → ReplacedAt s search replacement result
    → ReplacedAt (c ∷ s) search replacement (c ∷ result)
ReplacedAt-cons c s search replacement result (replaced_at before after e e') =
    replaced_at (c ∷ before) after (ap (λ (t : Text). c ∷ t) e) (ap (λ (t : Text). c ∷ t) e')

pub replace_once-ReplacedAt :
    (s search replacement : Text)
    → search ≢ []
    → contains s search ≡ true
    → ReplacedAt s search replacement (replace_once s search replacement)
unfolding contains replace_once
replace_once-ReplacedAt [] [] replacement some_text h = absurd (some_text refl)
replace_once-ReplacedAt [] (p ∷ ps) replacement some_text h = absurd (unfold has_prefix in cc h)
replace_once-ReplacedAt (c ∷ s) search replacement some_text h =
    elim (Bool-cases (has_prefix (c ∷ s) search)) [
      | inl e ↦
          rw e
            (replaced_at [] (drop (length search) (c ∷ s)) (has_prefix-drop (c ∷ s) search e) refl)
      | inr e ↦ rw e (
          ReplacedAt-cons c s search replacement (replace_once s search replacement)
            (replace_once-ReplacedAt s search replacement some_text (rw e at h)))
    ]

-- What the second half of toCRLF does with a character.
expand-cons :
    (c : ℕ) (s : Text)
    → replace_all (c ∷ s) lf cr_lf
      ≡ (if c == 10 then 13 ∷ 10 ∷ replace_all s lf cr_lf else c ∷ replace_all s lf cr_lf)
unfolding replace_all replace_skipping has_prefix
expand-cons c s = ground arith

expand-first : (s : Text) → has_prefix (replace_all s lf cr_lf) lf ≡ false
expand-first [] = unfold replace_all replace_skipping has_prefix in refl
expand-first (c ∷ s) = elim (Bool-cases (c == 10)) [
  | inl e ↦ rw (expand-cons c s, e) (unfold has_prefix in refl)
  | inr e ↦ rw (expand-cons c s, e) (unfold has_prefix in rw e refl)
]

contract-feed : (s : Text) → replace_all (13 ∷ 10 ∷ s) cr_lf lf ≡ 10 ∷ replace_all s cr_lf lf
unfolding replace_all replace_skipping has_prefix
contract-feed s = refl

contract-other :
    (c : ℕ) (s : Text)
    → has_prefix s lf ≡ false
    → replace_all (c ∷ s) cr_lf lf ≡ c ∷ replace_all s cr_lf lf
unfolding replace_all replace_skipping has_prefix
contract-other c s h = ground arith

-- The first half of toCRLF undoes the second.
normalise-expand : (s : Text) → replace_all (replace_all s lf cr_lf) cr_lf lf ≡ s
normalise-expand [] = unfold replace_all replace_skipping in refl
normalise-expand (c ∷ s) = elim (Bool-cases (c == 10)) [
  | inl e ↦
      let feed : c ≡ 10 = (==_iff c 10).0 e in
      rw (expand-cons c s, e, contract-feed (replace_all s lf cr_lf), normalise-expand s, feed) refl
  | inr e ↦
      rw
        (
          expand-cons c s,
          e,
          contract-other c (replace_all s lf cr_lf) (expand-first s),
          normalise-expand s,
        )
        refl
]

-- toCRLF changes nothing of a text that it has made.
pub to_crlf-to_crlf : (s : Text) → to_crlf (to_crlf s) ≡ to_crlf s
unfolding to_crlf
to_crlf-to_crlf s =
    let same = normalise-expand (replace_all s cr_lf lf) in
    ap (λ (t : Text). replace_all t lf cr_lf) same

contract-ne-nil : (c : ℕ) (s : Text) → replace_all (c ∷ s) cr_lf lf ≢ []
unfolding replace_all replace_skipping
contract-ne-nil c s h = ground arith

to_crlf-ne-nil : (s : Text) → s ≢ [] → to_crlf s ≢ []
unfolding to_crlf
to_crlf-ne-nil [] some_text h = some_text refl
to_crlf-ne-nil (c ∷ s) some_text h =
    let back = normalise-expand (replace_all (c ∷ s) cr_lf lf) in
    let nothing : replace_all [] cr_lf lf ≡ [] = unfold replace_all replace_skipping in refl in
    contract-ne-nil c s (sym back ∙ (ap (λ (t : Text). replace_all t cr_lf lf) h ∙ nothing))

-- Where a search_replace operation without `all` returns a text, that text is the source with one
-- occurrence of the search text replaced, or, with both turned to CRLF line ends, one of the
-- search text so turned. A search text that does not occur in either form is never passed over.
pub apply_search_replace-ReplacedAt :
    (src result : Text) (op : PatchOp)
    → op.replace_every ≡ false
    → apply_search_replace src op ≡ ok result
    → ReplacedAt src op.search op.replacement result
      ⊎ ReplacedAt src (to_crlf op.search) (to_crlf op.replacement) result
unfolding apply_search_replace substitute
apply_search_replace-ReplacedAt src result op single done =
    let empty = text_eq_iff op.search [] in
    let some_text : op.search ≢ [] = λ h. ground arith in
    elim (Bool-cases (contains src op.search)) [
      | inl e ↦
          let same : replace_once src op.search op.replacement ≡ result = ground arith in
          inl (rw same at (replace_once-ReplacedAt src op.search op.replacement some_text e))
      | inr e ↦
          let found : contains src (to_crlf op.search) ≡ true = ground arith in
          let same : replace_once src (to_crlf op.search) (to_crlf op.replacement) ≡ result =
            ground arith in
          inr (
            rw same at (
              replace_once-ReplacedAt src (to_crlf op.search) (to_crlf op.replacement)
                (to_crlf-ne-nil op.search some_text) found))
    ]
