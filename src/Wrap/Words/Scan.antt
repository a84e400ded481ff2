-- ===== src/Wrap/Words/Scan.antt =====
-- The words that `sqlWords` finds in a line are words wherever they stand.
use adtler.Prelude.{
  ℕ, ◌≡◌, ◌≢◌, refl, ap, ◌∙◌, Bool, true, false, List, [], ◌∷◌, ◌++◌, arith, All, All-append, Text,
  ◌==◌, Bool-cases, append_assoc, append-nil, inl, inr, ==_iff, if◌then◌else◌, ◌||◌,
}
use adtler.Wrap.{flush, Step, stop, more, resume, step, is_escape, scan, sql_words}

-- `t`, met between words, is read as the words `us` and the open word `u`.
abbrev pub Lexes : Text → List Text → Text → Type 0
Lexes t us u = (ws : List Text) (rest : Text) → scan (t ++ rest) ws [] 0 ≡ scan rest (ws ++ us) u 0

abbrev pub IsWord : Text → Type 0
IsWord w = (w ≢ []) × Lexes w [] w

pub scan-step :
    (r : ℕ) (rest : Text) (ws : List Text) (cur : Text) (q : ℕ)
    → is_escape q r ≡ false
    → scan (r ∷ rest) ws cur q ≡ resume (step ws cur q r) (scan rest)
unfolding scan
scan-step r [] ws cur q e = refl
scan-step r (s ∷ rest) ws cur q e = rw (e, scan)

pub scan-escape :
    (r s : ℕ) (rest : Text) (ws : List Text) (cur : Text) (q : ℕ)
    → is_escape q r ≡ true
    → scan (r ∷ s ∷ rest) ws cur q ≡ scan rest ws (cur ++ r ∷ s ∷ []) q
unfolding scan
scan-escape r s rest ws cur q e = rw (e, scan)

-- The state of the loop inside a word.
abbrev Partial : Text → ℕ → Type 0
Partial cur q = (ws : List Text) (rest : Text) → scan (cur ++ rest) ws [] 0 ≡ scan rest ws cur q

Partial-nil : Partial [] 0
Partial-nil ws rest = refl

Partial-keep :
    (cur : Text) (q r q' : ℕ)
    → Partial cur q
    → is_escape q r ≡ false
    → ((ws : List Text) → step ws cur q r ≡ more ws (cur ++ r ∷ []) q')
    → Partial (cur ++ r ∷ []) q'
Partial-keep cur q r q' p e k ws rest =
    rw append_assoc
      (p ws (r ∷ rest) ∙ scan-step r rest ws cur q e ∙ ap (λ s. resume s (scan rest)) (k ws))

Partial-escape :
    (cur : Text) (q r s : ℕ) → Partial cur q → is_escape q r ≡ true → Partial (cur ++ r ∷ s ∷ []) q
Partial-escape cur q r s p e ws rest =
    rw append_assoc (p ws (r ∷ s ∷ rest) ∙ scan-escape r s rest ws cur q e)

flush-IsWord :
    (words : List Text) (cur : Text)
    → All IsWord words
    → Partial cur 0
    → All IsWord (flush words cur)
unfolding flush
flush-IsWord words [] h p = h
flush-IsWord words (c ∷ cur) h p =
    All-append IsWord words ((c ∷ cur) ∷ []) h ((cc, λ ws rest. rw append-nil (p ws rest)), tt)

abbrev StepOk : Step → Type 0
StepOk (stop ws) = All IsWord ws
StepOk (more ws c q) = All IsWord ws × Partial c q

step-StepOk :
    (words : List Text) (cur : Text) (q r : ℕ)
    → All IsWord words
    → Partial cur q
    → is_escape q r ≡ false
    → StepOk (step words cur q r)
step-StepOk words cur q r h p e = elim (Bool-cases (q == 0)) [
  | inr open_literal ↦
      let keep : (ws : List Text)
          → step ws cur q r ≡ more ws (cur ++ r ∷ []) (if r == q then 0 else q) =
        λ ws. unfold step in rw open_literal in
      rw (keep words) (h, Partial-keep cur q r (if r == q then 0 else q) p e keep)
  | inl outside ↦ elim (Bool-cases (r == b'\'' || r == b'`' || r == b'|')) [
    | inl opens ↦
        let keep : (ws : List Text) → step ws cur q r ≡ more ws (cur ++ r ∷ []) r =
          λ ws. unfold step in rw (outside, opens) in
        rw (keep words) (h, Partial-keep cur q r r p e keep)
    | inr plain ↦
        let q0 : q ≡ 0 = (==_iff q 0).0 outside in
        let p0 : Partial cur 0 = rw q0 at p in
        let flushed = flush-IsWord words cur h p0 in
        elim (Bool-cases (r == b'"')) [
          | inl comment ↦
              let e' : step words cur q r ≡ stop (flush words cur) =
                unfold step in rw (outside, plain, comment) in
              rw e' flushed
          | inr live ↦ elim (Bool-cases (r == b' ' || r == b'\t')) [
            | inl blank ↦
                let e' : step words cur q r ≡ more (flush words cur) [] 0 =
                  unfold step in rw (outside, plain, live, blank) in
                rw e' (flushed, Partial-nil)
            | inr other ↦
                let keep : (ws : List Text) → step ws cur q r ≡ more ws (cur ++ r ∷ []) 0 =
                  λ ws. unfold step in rw (outside, plain, live, other) in
                rw (keep words) (h, Partial-keep cur q r 0 p e keep)
          ]
        ]
  ]
]

abbrev Terminated : List Text × Bool → Type 0
Terminated r = r.1 ≡ false → All IsWord r.0

resume-Terminated :
    (s : Step) (rest : List Text → Text → ℕ → List Text × Bool)
    → StepOk s
    → ((ws : List Text) (c : Text) (q : ℕ) → All IsWord ws → Partial c q → Terminated (rest ws c q))
    → Terminated (resume s rest)
resume-Terminated (stop ws) rest h k = λ _. h
resume-Terminated (more ws c q) rest h k = k ws c q h.0 h.1

scan_end :
    (words : List Text) (cur : Text) (q : ℕ)
    → All IsWord words
    → Partial cur q
    → Terminated (scan [] words cur q)
unfolding scan
scan_end words cur q h p e = let q0 : q ≡ 0 = ground arith in flush-IsWord words cur h (rw q0 at p)

-- An escape character at the very end leaves the template open.
scan_escape_end :
    (words : List Text) (cur : Text) (q r : ℕ)
    → is_escape q r ≡ true
    → (scan (r ∷ []) words cur q).1 ≡ true
unfolding scan step is_escape
scan_escape_end words cur q r e = ground arith

scan-Terminated :
    (line : Text) (words : List Text) (cur : Text) (q : ℕ)
    → All IsWord words
    → Partial cur q
    → Terminated (scan line words cur q)
scan-Terminated [] words cur q h p = scan_end words cur q h p
scan-Terminated (r ∷ []) words cur q h p = elim (Bool-cases (is_escape q r)) [
  | inl e ↦ λ closed. absurd (cc (scan_escape_end words cur q r e))
  | inr e ↦ rw (scan-step r [] words cur q e) (
      resume-Terminated (step words cur q r) (scan []) (step-StepOk words cur q r h p e)
        λ ws c q' hs ps. scan-Terminated [] ws c q' hs ps)
]
scan-Terminated (r ∷ s ∷ rs) words cur q h p = elim (Bool-cases (is_escape q r)) [
  | inl e ↦
      rw (scan-escape r s rs words cur q e)
        (scan-Terminated rs words (cur ++ r ∷ s ∷ []) q h (Partial-escape cur q r s p e))
  | inr e ↦ rw (scan-step r (s ∷ rs) words cur q e) (
      resume-Terminated (step words cur q r) (scan (s ∷ rs)) (step-StepOk words cur q r h p e)
        λ ws c q' hs ps. scan-Terminated (s ∷ rs) ws c q' hs ps)
]

-- If no literal is left open, each word found is read as itself in any other line.
pub sql_words-IsWord : (line : Text) → (sql_words line).1 ≡ false → All IsWord (sql_words line).0
unfolding sql_words
sql_words-IsWord line = scan-Terminated line [] [] 0 tt Partial-nil
