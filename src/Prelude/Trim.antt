-- ===== src/Prelude/Trim.antt =====
-- What trimming leaves of a text whose parts are known.
use adtler.Prelude.Lists.{All}
use adtler.Prelude.Strings.{Text, trim_left, trim_right}
use Prim.Native.Nat.{ℕ}
use mathlib.Core.Path.{◌≡◌, refl}
use mathlib.Core.Bool.{Bool, true, false}
use mathlib.Core.List.{[], ◌∷◌, ◌++◌, reverse, reverse-cons, reverse-append, reverse-reverse}

module _ {κ} (P : ℕ → Type κ) where
  All-snoc : (s : Text) (c : ℕ) → All P s → P c → All P (s ++ c ∷ [])
  All-snoc [] c h hc = (hc, tt)
  All-snoc (d ∷ s) c (hd, h) hc = (hd, All-snoc s c h hc)

  All-reverse : (s : Text) → All P s → All P (reverse s)
  All-reverse [] h = tt
  All-reverse (c ∷ s) (hc, h) = rw (reverse-cons c s) (All-snoc (reverse s) c (All-reverse s h) hc)

module _ (p : ℕ → Bool) where
  pub trim_left_kept : (s : Text) → All (λ c. p c ≡ false) s → trim_left p s ≡ s
  unfolding trim_left
  trim_left_kept [] h = refl
  trim_left_kept (c ∷ s) (hc, h) = rw hc refl

  trim_left-append : (s t : Text) → All (λ c. p c ≡ true) s → trim_left p (s ++ t) ≡ trim_left p t
  unfolding trim_left
  trim_left-append [] t h = refl
  trim_left-append (c ∷ s) t (hc, h) = rw hc (trim_left-append s t h)

  pub trim_right-append :
      (s t : Text) → All (λ c. p c ≡ false) s → All (λ c. p c ≡ true) t → trim_right p (s ++ t) ≡ s
  unfolding trim_right
  trim_right-append s t h h' =
      rw
        (
          reverse-append s t,
          trim_left-append (reverse t) (reverse s) (All-reverse (λ c. p c ≡ true) t h'),
          trim_left_kept (reverse s) (All-reverse (λ c. p c ≡ false) s h),
        )
        (reverse-reverse s)

  pub trim_right_kept : (s : Text) → All (λ c. p c ≡ false) s → trim_right p s ≡ s
  unfolding trim_right
  trim_right_kept s h =
      rw (trim_left_kept (reverse s) (All-reverse (λ c. p c ≡ false) s h)) (reverse-reverse s)
