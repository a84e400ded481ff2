-- ===== src/Wrap/Comments.antt =====
-- Re-wrapping brings no '*' to the front of a line, where the data preview would read a comment.
use adtler.Prelude.{
  ◌+◌, ◌≡◌, ◌≢◌, ◌<◌, refl, true, false, List, [], ◌∷◌, ◌++◌, arith, All, All-append, Text,
  Bool-cases, append_assoc, inl, inr, ltb, ◌&&◌, ◌⊎◌, length, has_prefix,
}
use adtler.Wrap.{
  append_last, glue_word, glue_stars, Packing, pack_word, pack, data_preview_wrap_width,
}

abbrev pub NoStar : Text → Type 0
NoStar w = has_prefix w (b'*' ∷ []) ≡ false

-- A continuation line: one blank, then something that is not a '*'.
abbrev pub IsContinuation : Text → Type 0
IsContinuation [] = ⊥
IsContinuation (c ∷ w) = (c ≡ b' ') × (w ≢ []) × NoStar w

abbrev pub IsSafe : List Text → Type 0
IsSafe [] = Unit
IsSafe (l ∷ ls) = NoStar l × All IsContinuation ls

-- All words after the first are nonempty and start with no '*'.
abbrev IsTail : Text → Type 0
IsTail w = (w ≢ []) × NoStar w

abbrev IsGlued : List Text → Type 0
IsGlued [] = Unit
IsGlued (w ∷ ws) = (w ≢ []) × All IsTail ws

pub append-NoStar : (v w : Text) → v ≢ [] → NoStar v → NoStar (v ++ w)
unfolding has_prefix
append-NoStar [] w h n = absurd (h refl)
append-NoStar (c ∷ v) w h n = n

pub append-ne-nil : (v w : Text) → v ≢ [] → v ++ w ≢ []
append-ne-nil [] w h = absurd (h refl)
append-ne-nil (c ∷ v) w h = cc

append_last-IsTail : (ws : List Text) (w : Text) → All IsTail ws → All IsTail (append_last ws w)
unfolding append_last
append_last-IsTail [] w h = tt
append_last-IsTail (v ∷ []) w ((hv, n), _) =
    ((append-ne-nil v (b' ' ∷ w) hv, append-NoStar v (b' ' ∷ w) hv n), tt)
append_last-IsTail (u ∷ v ∷ vs) w (hu, hs) = (hu, append_last-IsTail (v ∷ vs) w hs)

glue_word-IsGlued : (ws : List Text) (w : Text) → IsGlued ws → w ≢ [] → IsGlued (glue_word ws w)
unfolding glue_word append_last
glue_word-IsGlued [] w h n = ground arith
glue_word-IsGlued (v ∷ []) w (h, hs) n =
    elim (Bool-cases (has_prefix w (b'*' ∷ []) && ltb 0 (length (v ∷ [])))) [
      | inl star ↦ rw star (append-ne-nil v (b' ' ∷ w) h, tt)
      | inr plain ↦ rw plain (h, ((n, ground arith), tt))
    ]
glue_word-IsGlued (v ∷ u ∷ vs) w (h, hs) n =
    elim (Bool-cases (has_prefix w (b'*' ∷ []) && ltb 0 (length (v ∷ u ∷ vs)))) [
      | inl star ↦ rw star (h, append_last-IsTail (u ∷ vs) w hs)
      | inr plain ↦ rw plain (h, All-append IsTail (u ∷ vs) (w ∷ []) hs ((n, ground arith), tt))
    ]

abbrev pub IsNonempty : Text → Type 0
IsNonempty w = w ≢ []

glue_stars-IsGlued :
    (gs ws : List Text) → IsGlued gs → All IsNonempty ws → IsGlued (glue_stars gs ws)
unfolding glue_stars
glue_stars-IsGlued gs [] h hs = h
glue_stars-IsGlued gs (w ∷ ws) h (n, hs) =
    glue_stars-IsGlued (glue_word gs w) ws (glue_word-IsGlued gs w h n) hs

-- The state of the greedy loop, once a word is on the line.
abbrev IsPacked : Packing → Type 0
IsPacked p = (0 < p.on_line) × IsSafe (p.out ++ p.cur ∷ []) × (p.cur ≢ [])

IsSafe-snoc :
    (xs : List Text) (x y : Text)
    → IsSafe (xs ++ x ∷ [])
    → IsContinuation y
    → IsSafe ((xs ++ x ∷ []) ++ y ∷ [])
IsSafe-snoc [] x y (h, _) c = (h, (c, tt))
IsSafe-snoc (z ∷ xs) x y (h, hs) c =
    (h, All-append IsContinuation (xs ++ x ∷ []) (y ∷ []) hs (c, tt))

append-IsContinuation : (x y : Text) → IsContinuation x → IsContinuation (x ++ y)
append-IsContinuation [] y h = absurd h
append-IsContinuation (c ∷ w) y (e, n, s) = (e, append-ne-nil w y n, append-NoStar w y n s)

extend-IsContinuation :
    (xs : List Text) (x y : Text)
    → All IsContinuation (xs ++ x ∷ [])
    → All IsContinuation (xs ++ (x ++ y) ∷ [])
extend-IsContinuation [] x y (h, _) = (append-IsContinuation x y h, tt)
extend-IsContinuation (z ∷ xs) x y (h, hs) = (h, extend-IsContinuation xs x y hs)

extend-IsSafe :
    (xs : List Text) (x y : Text) → x ≢ [] → IsSafe (xs ++ x ∷ []) → IsSafe (xs ++ (x ++ y) ∷ [])
extend-IsSafe [] x y n (h, _) = (append-NoStar x y n h, tt)
extend-IsSafe (z ∷ xs) x y n (h, hs) = (h, extend-IsContinuation xs x y hs)

pack_word-IsPacked : (p : Packing) (w : Text) → IsPacked p → IsTail w → IsPacked (pack_word p w)
unfolding pack_word
pack_word-IsPacked p w (pos, safe, n) (hw, ns) =
    let busy : ltb 0 p.on_line ≡ true = ground arith in
    elim (Bool-cases (ltb data_preview_wrap_width (p.cur_len + 1 + length w))) [
      | inl over ↦
          rw (busy, over) (omega arith, IsSafe-snoc p.out p.cur (b' ' ∷ w) safe (refl, hw, ns), cc)
      | inr fits ↦
          rw (busy, fits, busy, append_assoc)
            (
              omega arith,
              extend-IsSafe p.out p.cur (b' ' ∷ w) n safe,
              append-ne-nil p.cur (b' ' ∷ w) n,
            )
    ]

pack-IsSafe : (p : Packing) (ws : List Text) → IsPacked p → All IsTail ws → IsSafe (pack p ws)
unfolding pack
pack-IsSafe p [] (pos, safe, n) h = let busy : ltb 0 p.on_line ≡ true = ground arith in rw busy safe
pack-IsSafe p (w ∷ ws) k (h, hs) = pack-IsSafe (pack_word p w) ws (pack_word-IsPacked p w k h) hs

-- The first word of a list of words starts with no '*'.
abbrev pub FirstNoStar : List Text → Type 0
FirstNoStar [] = Unit
FirstNoStar (w ∷ ws) = NoStar w

abbrev pub Started : List Text → Type 0
Started ws = (ws ≢ []) × FirstNoStar ws

glue_word-Started : (gs : List Text) (w : Text) → IsGlued gs → Started gs → Started (glue_word gs w)
unfolding glue_word append_last
glue_word-Started [] w g (n, _) = absurd (n refl)
glue_word-Started (v ∷ []) w (g, _) (n, h) = ground (arith, append-NoStar v (b' ' ∷ w) g h)
glue_word-Started (v ∷ u ∷ vs) w g (n, h) = ground (arith, h)

glue_stars-Started :
    (gs ws : List Text) → IsGlued gs → All IsNonempty ws → Started gs → Started (glue_stars gs ws)
unfolding glue_stars
glue_stars-Started gs [] g _ h = h
glue_stars-Started gs (w ∷ ws) g (n, hs) h =
    glue_stars-Started (glue_word gs w) ws (glue_word-IsGlued gs w g n) hs
      (glue_word-Started gs w g h)

glue_stars_first : (w : Text) (ws : List Text) → glue_stars [] (w ∷ ws) ≡ glue_stars (w ∷ []) ws
unfolding glue_stars
glue_stars_first w ws = elim (Bool-cases (has_prefix w (b'*' ∷ []))) [ inl e ↦ rw e | inr e ↦ rw e ]

glue_stars-FirstNoStar :
    (ws : List Text) → All IsNonempty ws → FirstNoStar ws → FirstNoStar (glue_stars [] ws)
glue_stars-FirstNoStar [] hs h = unfold glue_stars in tt
glue_stars-FirstNoStar (w ∷ ws) (n, hs) h =
    rw (glue_stars_first w ws) ((glue_stars-Started (w ∷ []) ws (n, tt) hs (cc, h)).1)

-- The first word is put behind the indent, which is a blank or nothing.
pack_first-IsPacked :
    (ind w : Text)
    → (ind ≡ b' ' ∷ []) ⊎ ((ind ≡ []) × NoStar w)
    → w ≢ []
    → IsPacked (pack_word (record { cur = ind; cur_len = length ind; on_line = 0; out = [] }) w)
unfolding pack_word has_prefix
pack_first-IsPacked ind w (inl e) n = rw e (omega arith, (refl, tt), cc)
pack_first-IsPacked ind w (inr (e, h)) n = rw e (omega arith, (h, tt), n)

-- Whatever the words, packing them gives safe lines, if the first line is safe.
pub pack-glue_stars-IsSafe :
    (ind : Text) (ws : List Text)
    → All IsNonempty ws
    → (ind ≡ b' ' ∷ []) ⊎ ((ind ≡ []) × FirstNoStar ws)
    → IsSafe (
        pack (record { cur = ind; cur_len = length ind; on_line = 0; out = [] }) (glue_stars [] ws))
pack-glue_stars-IsSafe ind ws hs h =
    go (glue_stars [] ws) (glue_stars-IsGlued [] ws tt hs) (first h)
  where
    first :
        (ind ≡ b' ' ∷ []) ⊎ ((ind ≡ []) × FirstNoStar ws)
        → (ind ≡ b' ' ∷ []) ⊎ ((ind ≡ []) × FirstNoStar (glue_stars [] ws))
    first (inl e) = inl e
    first (inr (e, f)) = inr (e, glue_stars-FirstNoStar ws hs f)

    go :
        (gs : List Text)
        → IsGlued gs
        → (ind ≡ b' ' ∷ []) ⊎ ((ind ≡ []) × FirstNoStar gs)
        → IsSafe (pack (record { cur = ind; cur_len = length ind; on_line = 0; out = [] }) gs)
    go [] g f = unfold pack in tt
    go (w ∷ gs) (n, g) f = unfold pack in pack-IsSafe _ gs (pack_first-IsPacked ind w f n) g
