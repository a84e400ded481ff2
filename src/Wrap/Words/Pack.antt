-- ===== src/Wrap/Words/Pack.antt =====
-- Gluing and packing only add blanks between words.
use adtler.Prelude.{
  ◌≡◌, ◌≢◌, refl, sym, ap, ◌∙◌, false, List, [], ◌∷◌, ◌++◌, All, Text, Bool-cases, append_assoc,
  append-nil, inl, inr, ltb, ◌&&◌, length, has_prefix,
}
use adtler.Wrap.{flush, step, is_escape, scan, sql_words, append_last, glue_word, glue_stars}
use adtler.Wrap.Words.Scan.{Lexes, IsWord}

abbrev pub blank : Text
blank = b' ' ∷ []

-- A blank closes the open word.
scan_blank :
    (rest : Text) (ws : List Text) (u : Text)
    → scan (b' ' ∷ rest) ws u 0 ≡ scan rest (flush ws u) [] 0
unfolding scan step is_escape
scan_blank [] ws u = refl
scan_blank (c ∷ rest) ws u = refl

flush_word : (ws : List Text) (u : Text) → u ≢ [] → flush ws u ≡ ws ++ u ∷ []
unfolding flush
flush_word ws [] h = absurd (h refl)
flush_word ws (c ∷ u) h = refl

-- `t` is read as the words `vs`, of which there is at least one.
pub record Reads (t : Text) (vs : List Text) : Type 0 where
  pub before : List Text
  pub last : Text
  pub nonempty : last ≢ []
  pub all_words : vs ≡ before ++ last ∷ []
  pub lexes : Lexes t before last

Reads-word : (w : Text) → IsWord w → Reads w (w ∷ [])
Reads-word w (h, l) = record { before = []; last = w; nonempty = h; all_words = refl; lexes = l }

pub Reads-indent : (t : Text) (vs : List Text) → Reads t vs → Reads (b' ' ∷ t) vs
Reads-indent t vs r = record {
  before = r.before;
  last = r.last;
  nonempty = r.nonempty;
  all_words = r.all_words;
  lexes = λ ws rest. scan_blank (t ++ rest) ws [] ∙ (unfold flush in r.lexes ws rest);
}

pub Reads-append :
    (s t : Text) (us vs : List Text) → Reads s us → Reads t vs → Reads (s ++ b' ' ∷ t) (us ++ vs)
Reads-append s t us vs r q = record {
  before = us ++ q.before;
  last = q.last;
  nonempty = q.nonempty;
  all_words = ap (λ x. us ++ x) q.all_words ∙ sym (append_assoc us q.before (q.last ∷ []));
  lexes = λ ws rest. rw append_assoc (
      r.lexes ws (b' ' ∷ (t ++ rest))
      ∙ scan_blank (t ++ rest) (ws ++ r.before) r.last
      ∙ ap (λ x. scan (t ++ rest) x [] 0)
          (flush_word (ws ++ r.before) r.last r.nonempty
            ∙ append_assoc ws r.before (r.last ∷ [])
            ∙ ap (λ x. ws ++ x) (sym r.all_words))
      ∙ q.lexes (ws ++ us) rest
      ∙ ap (λ x. scan rest x q.last 0) (append_assoc ws us q.before));
}

-- What a line that reads as `vs` gives.
pub scan-Reads : (t : Text) (vs : List Text) → Reads t vs → sql_words t ≡ (vs, false)
unfolding sql_words
scan-Reads t vs r =
    ap (λ x. scan x [] [] 0) (sym (append-nil t))
    ∙ r.lexes [] []
    ∙ (unfold scan in
        ap (λ x. (x, false)) (flush_word r.before r.last r.nonempty ∙ sym r.all_words))

-- The texts `gs` are read, one after another, as the words `vs`.
pub data AllRead : List Text → List Text → Type 0 where
  none_left : AllRead [] []
  and_then :
      {g : Text} {gs : List Text} (us : List Text) {vs ws : List Text}
      → Reads g us
      → AllRead gs vs
      → ws ≡ us ++ vs
      → AllRead (g ∷ gs) ws

AllRead-words : (ws : List Text) → All IsWord ws → AllRead ws ws
AllRead-words [] h = none_left
AllRead-words (w ∷ ws) (h, hs) = and_then (w ∷ []) (Reads-word w h) (AllRead-words ws hs) refl

AllRead-snoc :
    (gs vs : List Text) (w : Text)
    → AllRead gs vs
    → Reads w (w ∷ [])
    → AllRead (gs ++ w ∷ []) (vs ++ w ∷ [])
AllRead-snoc [] vs w none_left h = and_then (w ∷ []) h none_left refl
AllRead-snoc (g ∷ gs) ws w (and_then us {vs} r a e) h =
    and_then us r (AllRead-snoc gs vs w a h) (ap (λ x. x ++ w ∷ []) e ∙ append_assoc us vs (w ∷ []))

AllRead-append_last :
    (g : Text) (gs vs : List Text) (w : Text)
    → AllRead (g ∷ gs) vs
    → Reads w (w ∷ [])
    → AllRead (append_last (g ∷ gs) w) (vs ++ w ∷ [])
unfolding append_last
AllRead-append_last g [] ws w (and_then us {vs} r none_left e) h =
    and_then (us ++ w ∷ []) (Reads-append g w us (w ∷ []) r h) none_left
      (ap (λ x. x ++ w ∷ []) (e ∙ append-nil us) ∙ sym (append-nil (us ++ w ∷ [])))
AllRead-append_last g (g' ∷ gs) ws w (and_then us {vs} r a e) h =
    and_then us r (AllRead-append_last g' gs vs w a h)
      (ap (λ x. x ++ w ∷ []) e ∙ append_assoc us vs (w ∷ []))

AllRead-glue_word :
    (gs vs : List Text) (w : Text)
    → AllRead gs vs
    → Reads w (w ∷ [])
    → AllRead (glue_word gs w) (vs ++ w ∷ [])
unfolding glue_word
AllRead-glue_word [] vs w a h = elim (Bool-cases (has_prefix w (b'*' ∷ []))) [
  | inl e ↦ rw e (AllRead-snoc [] vs w a h)
  | inr e ↦ rw e (AllRead-snoc [] vs w a h)
]
AllRead-glue_word (g ∷ gs) vs w a h =
    elim (Bool-cases (has_prefix w (b'*' ∷ []) && ltb 0 (length (g ∷ gs)))) [
      | inl e ↦ rw e (AllRead-append_last g gs vs w a h)
      | inr e ↦ rw e (AllRead-snoc (g ∷ gs) vs w a h)
    ]

pub AllRead-glue_stars :
    (gs vs ws : List Text) → AllRead gs vs → All IsWord ws → AllRead (glue_stars gs ws) (vs ++ ws)
unfolding glue_stars
AllRead-glue_stars gs vs [] a h = rw append-nil a
AllRead-glue_stars gs vs (w ∷ ws) a (h, hs) = rw (← append_assoc vs (w ∷ []) ws) (
    AllRead-glue_stars (glue_word gs w) (vs ++ w ∷ []) ws
      (AllRead-glue_word gs vs w a (Reads-word w h)) hs)
