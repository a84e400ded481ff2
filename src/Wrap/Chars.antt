-- ===== src/Wrap/Chars.antt =====
-- A property of characters that the blank has goes from a line to every line it is wrapped into.
use adtler.Prelude.{
  ℕ, Bool, List, [], ◌∷◌, ◌++◌, arith, All, All-append, Text, inl, inr, Bool-cases,
}
use adtler.Wrap.{
  flush, Step, stop, more, resume, step, is_escape, scan, sql_words, append_last, glue_word,
  glue_stars, Packing, pack_word, pack, indent, pack_line,
}

module _ (P : ℕ → Type 0) where
  abbrev pub AllIn : List Text → Type 0
  AllIn = All (All P)

  flush-AllIn : (words : List Text) (cur : Text) → AllIn words → All P cur → AllIn (flush words cur)
  unfolding flush
  flush-AllIn words [] hw hc = hw
  flush-AllIn words (c ∷ cur) hw hc = All-append (All P) words ((c ∷ cur) ∷ []) hw (hc, tt)

  abbrev StepIn : Step → Type 0
  StepIn (stop ws) = AllIn ws
  StepIn (more ws c q) = AllIn ws × All P c

  step-StepIn :
      (words : List Text) (cur : Text) (quote r : ℕ)
      → AllIn words
      → All P cur
      → P r
      → StepIn (step words cur quote r)
  unfolding step
  step-StepIn words cur quote r hw hc hr =
      ground (arith, flush-AllIn words cur hw hc, All-append P cur (r ∷ []) hc (hr, tt))

  resume-AllIn :
      (s : Step) (rest : List Text → Text → ℕ → List Text × Bool)
      → StepIn s
      → ((ws : List Text) (c : Text) (q : ℕ) → AllIn ws → All P c → AllIn (rest ws c q).0)
      → AllIn (resume s rest).0
  resume-AllIn (stop ws) rest h k = h
  resume-AllIn (more ws c q) rest h k = k ws c q h.0 h.1

  scan-AllIn :
      (line : Text) (words : List Text) (cur : Text) (quote : ℕ)
      → All P line
      → AllIn words
      → All P cur
      → AllIn (scan line words cur quote).0
  unfolding scan
  scan-AllIn [] words cur quote h hw hc = flush-AllIn words cur hw hc
  scan-AllIn (r ∷ []) words cur quote (hr, _) hw hc =
      resume-AllIn (step words cur quote r) (scan []) (step-StepIn words cur quote r hw hc hr)
        λ ws c q hws hcs. scan-AllIn [] ws c q tt hws hcs
  scan-AllIn (r ∷ s ∷ rs) words cur quote (hr, (hs, h)) hw hc =
      elim (Bool-cases (is_escape quote r)) [
        | inl e ↦
            rw (e, scan)
              (scan-AllIn rs words (cur ++ r ∷ s ∷ []) quote h hw
                (All-append P cur (r ∷ s ∷ []) hc (hr, (hs, tt))))
        | inr e ↦
            rw (e, scan)
              (resume-AllIn (step words cur quote r) (scan (s ∷ rs))
                (step-StepIn words cur quote r hw hc hr)
                λ ws c q hws hcs. scan-AllIn (s ∷ rs) ws c q (hs, h) hws hcs)
      ]

  append_last-AllIn :
      (words : List Text) (w : Text) → P b' ' → AllIn words → All P w → AllIn (append_last words w)
  unfolding append_last
  append_last-AllIn [] w hb hw h = tt
  append_last-AllIn (v ∷ []) w hb (hv, _) h = (All-append P v (b' ' ∷ w) hv (hb, h), tt)
  append_last-AllIn (u ∷ v ∷ vs) w hb (hu, hw) h = (hu, append_last-AllIn (v ∷ vs) w hb hw h)

  glue_word-AllIn :
      (words : List Text) (w : Text) → P b' ' → AllIn words → All P w → AllIn (glue_word words w)
  unfolding glue_word
  glue_word-AllIn words w hb hw h =
      ground
        (arith, append_last-AllIn words w hb hw h, All-append (All P) words (w ∷ []) hw (h, tt))

  glue_stars-AllIn :
      (words ws : List Text) → P b' ' → AllIn words → AllIn ws → AllIn (glue_stars words ws)
  unfolding glue_stars
  glue_stars-AllIn words [] hb hw h = hw
  glue_stars-AllIn words (w ∷ ws) hb hw (h, hs) =
      glue_stars-AllIn (glue_word words w) ws hb (glue_word-AllIn words w hb hw h) hs

  abbrev PackingIn : Packing → Type 0
  PackingIn p = All P p.cur × AllIn p.out

  pack_word-PackingIn :
      (p : Packing) (w : Text) → P b' ' → PackingIn p → All P w → PackingIn (pack_word p w)
  unfolding pack_word
  pack_word-PackingIn p w hb (hc, ho) h = ground (
    arith,
    All-append P p.cur w hc h,
    All-append P (p.cur ++ b' ' ∷ []) w,
    All-append P p.cur (b' ' ∷ []) hc (hb, tt),
    All-append (All P) p.out (p.cur ∷ []) ho (hc, tt),
  )

  pack-AllIn : (p : Packing) (ws : List Text) → P b' ' → PackingIn p → AllIn ws → AllIn (pack p ws)
  unfolding pack
  pack-AllIn p [] hb (hc, ho) h = ground (arith, All-append (All P) p.out (p.cur ∷ []) ho (hc, tt))
  pack-AllIn p (w ∷ ws) hb hp (h, hs) =
      pack-AllIn (pack_word p w) ws hb (pack_word-PackingIn p w hb hp h) hs

  -- The words of a line hold characters of the line only.
  pub sql_words-AllIn : (line : Text) → All P line → AllIn (sql_words line).0
  unfolding sql_words
  sql_words-AllIn line h = scan-AllIn line [] [] 0 h tt tt

  pub pack_line-AllIn :
      (line : Text) (raw : List Text) → P b' ' → AllIn raw → AllIn (pack_line line raw)
  unfolding pack_line indent
  pack_line-AllIn line raw hb h =
      pack-AllIn _ (glue_stars [] raw) hb (ground arith, tt) (glue_stars-AllIn [] raw hb tt h)
