-- ===== src/Export/Rows.antt =====
-- The last row of a list, and the rows behind it.
use adtler.Prelude.{
  ℕ, zero, suc, ◌≡◌, refl, ap, subst, Bool, true, List, [], ◌∷◌, ◌++◌, some, arith, map, All, take,
  last?, length, Text,
}
use adtler.Export.{QueryColumn}
use adtler.Export.Server.{comes_after, IsSorted}

module _ {ℓ κ} {A : Type ℓ} (P : A → Type κ) where
  pub All-last? : (xs : List A) (l : A) → All P xs → last? xs ≡ some l → P l
  unfolding last?
  All-last? [] l h e = absurd (ground arith)
  All-last? (x ∷ []) l (h, hs) e = let same : x ≡ l = ground arith in subst P same h
  All-last? (x ∷ y ∷ xs) l (h, hs) e = All-last? (y ∷ xs) l hs e

  pub All-take : (n : ℕ) (xs : List A) → All P xs → All P (take n xs)
  All-take zero xs h = tt
  All-take (suc n) [] h = tt
  All-take (suc n) (x ∷ xs) (h, hs) = (h, All-take n xs hs)

  pub All-left : (xs ys : List A) → All P (xs ++ ys) → All P xs
  All-left [] ys h = tt
  All-left (x ∷ xs) ys (h, hs) = (h, All-left xs ys hs)

  pub All-right : (xs ys : List A) → All P (xs ++ ys) → All P ys
  All-right [] ys h = h
  All-right (x ∷ xs) ys (h, hs) = All-right xs ys hs

module _ {ℓ} {A : Type ℓ} where
  pub last?-append : (xs ys : List A) (l : A) → last? ys ≡ some l → last? (xs ++ ys) ≡ some l
  unfolding last?
  last?-append [] ys l e = e
  last?-append (x ∷ []) [] l e = absurd (ground arith)
  last?-append (x ∷ []) (y ∷ ys) l e = e
  last?-append (x ∷ y ∷ xs) ys l e = last?-append (y ∷ xs) ys l e

  pub last?-some : (x : A) (xs : List A) → (l : A) × (last? (x ∷ xs) ≡ some l)
  unfolding last?
  last?-some x [] = (x, refl)
  last?-some x (y ∷ xs) = last?-some y xs

pub length-map : {A B : Type 0} (f : A → B) (xs : List A) → length (map f xs) ≡ length xs
length-map f [] = refl
length-map f (x ∷ xs) = ap suc (length-map f xs)

-- The rows behind `l` come after it.
pub All-comes_after :
    (lt : Text → Text → Bool) (cs : List QueryColumn) (ks : List Text) (xs rest : List (List Text))
    (l : List Text)
    → IsSorted lt cs ks (xs ++ rest)
    → last? xs ≡ some l
    → All (λ later. comes_after lt cs ks later l ≡ true) rest
unfolding last?
All-comes_after lt cs ks [] rest l s e = absurd (ground arith)
All-comes_after lt cs ks (x ∷ []) rest l (h, s) e =
    let same : x ≡ l = ground arith in
    subst (λ b. All (λ later. comes_after lt cs ks later b ≡ true) rest) same h
All-comes_after lt cs ks (x ∷ y ∷ xs) rest l (h, s) e = All-comes_after lt cs ks (y ∷ xs) rest l s e
