-- ===== src/Prelude/Lines.antt =====
-- Splitting a text at a character, joining the parts, and trimming its end.
use adtler.Prelude.Lists.{length, All}
use adtler.Prelude.Strings.{Text, join, push_first, split, trim_suffix}
use Prim.Native.Nat.{ℕ, ◌≤◌}
use mathlib.Core.Path.{◌≡◌, refl, ap, ◌∙◌}
use mathlib.Core.Logic.{◌≢◌}
use mathlib.Core.List.{List, [], ◌∷◌, ◌++◌}
use native.Mathlib.Omega.{arith}

abbrev pub Lacks : ℕ → Text → Type 0
Lacks b = All (λ c. c ≢ b)

push_first-Lacks :
    (sep c : ℕ) (ps : List Text) → c ≢ sep → All (Lacks sep) ps → All (Lacks sep) (push_first c ps)
push_first-Lacks sep c [] h hs = ((h, tt), tt)
push_first-Lacks sep c (p ∷ ps) h (hp, hs) = ((h, hp), hs)

-- No part of a split holds the separator.
pub split-Lacks : (s : Text) (sep : ℕ) → All (Lacks sep) (split s sep)
unfolding split
split-Lacks [] sep = (tt, tt)
split-Lacks (c ∷ s) sep = ground (arith, split-Lacks s sep, push_first-Lacks sep c (split s sep))

split-ne-nil : (s : Text) (sep : ℕ) → split s sep ≢ []
unfolding split
split-ne-nil [] sep = cc
split-ne-nil (c ∷ s) sep = ground arith

pub split-append : (p s : Text) (sep : ℕ) → Lacks sep p → split (p ++ sep ∷ s) sep ≡ p ∷ split s sep
unfolding split
split-append [] s sep h = ground arith
split-append (c ∷ p) s sep (h, hp) = ground (arith, split-append p s sep hp)

split_of_Lacks : (p : Text) (sep : ℕ) → Lacks sep p → split p sep ≡ p ∷ []
unfolding split
split_of_Lacks [] sep h = refl
split_of_Lacks (c ∷ p) sep (h, hp) = ground (arith, split_of_Lacks p sep hp)

-- Splitting a join gives the parts back.
pub split-join :
    (p : Text) (ps : List Text) (sep : ℕ)
    → All (Lacks sep) (p ∷ ps)
    → split (join (p ∷ ps) (sep ∷ [])) sep ≡ p ∷ ps
unfolding join
split-join p [] sep (h, _) = split_of_Lacks p sep h
split-join p (q ∷ ps) sep (h, hs) =
    split-append p (join (q ∷ ps) (sep ∷ [])) sep h ∙ ap (λ t. p ∷ t) (split-join q ps sep hs)

join-push_first :
    (c : ℕ) (ps : List Text) (sep : Text) → join (push_first c ps) sep ≡ c ∷ join ps sep
unfolding join
join-push_first c [] sep = refl
join-push_first c (p ∷ []) sep = refl
join-push_first c (p ∷ q ∷ ps) sep = refl

join_nil-cons :
    (ps : List Text) (sep : ℕ) → ps ≢ [] → join ([] ∷ ps) (sep ∷ []) ≡ sep ∷ join ps (sep ∷ [])
unfolding join
join_nil-cons [] sep h = absurd (h refl)
join_nil-cons (p ∷ ps) sep h = refl

-- Joining the parts of a split gives the text back.
pub join-split : (s : Text) (sep : ℕ) → join (split s sep) (sep ∷ []) ≡ s
unfolding split join
join-split [] sep = refl
join-split (c ∷ s) sep = ground (
  arith,
  join-split s sep,
  join_nil-cons (split s sep) sep (split-ne-nil s sep),
  join-push_first c (split s sep) (sep ∷ []),
)

module _ (P : ℕ → Type 0) where
  pub trim_suffix-All : (x : ℕ) (s : Text) → All P s → All P (trim_suffix x s)
  unfolding trim_suffix
  trim_suffix-All x [] h = tt
  trim_suffix-All x (c ∷ []) (h, _) = ground (arith, h)
  trim_suffix-All x (c ∷ d ∷ s) (h, hs) = (h, trim_suffix-All x (d ∷ s) hs)

pub length-trim_suffix-le : (x : ℕ) (s : Text) → length (trim_suffix x s) ≤ length s
unfolding trim_suffix
length-trim_suffix-le x [] = omega arith
length-trim_suffix-le x (c ∷ []) = ground arith
length-trim_suffix-le x (c ∷ d ∷ s) = omega (arith, length-trim_suffix-le x (d ∷ s))
