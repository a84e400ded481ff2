-- ===== src/TextElements/Selections.antt =====
-- Reading back the selection texts that have been written.
use adtler.Prelude.{
  ℕ, zero, suc, ◌-◌, ◌≡◌, ◌≢◌, refl, ap, true, false, List, [], ◌∷◌, ◌++◌, some, ◌==◌, length, Text,
  split-append, trim_left, trim_right, trim_space, is_space, trim_right-append, trim_right_kept,
  All, All-append, All-map, Lacks, arith,
}
use adtler.TextElements.{
  SelectionText, cut_equals, parse_selection_line, parse_selection_lines, parse_selection_texts,
  blanks, pad_name, format_selection_texts,
}

-- A character of a name: no white space (a line end counts as such), and not the separator.
abbrev pub NameChar : ℕ → Type 0
NameChar c = (is_space c ≡ false) × (c ≢ b'=')

-- What can be written: a name that is not empty, and a text of one line.
abbrev pub Writable : SelectionText → Type 0
Writable s = (s.name ≢ []) × All NameChar s.name × (Lacks 10 s.text × Lacks 13 s.text)

blanks-All : (n : ℕ) → All (λ c. c ≡ b' ') (blanks n)
unfolding blanks
blanks-All zero = tt
blanks-All (suc n) = (refl, blanks-All n)

cut_equals-append : (s t : Text) → Lacks b'=' s → cut_equals (s ++ (b'=' ∷ t)) ≡ some (s, t)
unfolding cut_equals
cut_equals-append [] t h = refl
cut_equals-append (c ∷ s) t (hc, h) = ground (arith, cut_equals-append s t h)

NameChar-not : (c b : ℕ) → NameChar c → is_space b ≡ true → c ≢ b
NameChar-not c b h e same = let space = h.0 in ground arith

pad_name-Lacks : (b : ℕ) (name : Text) → b ≢ b' ' → All (λ c. c ≢ b) name → Lacks b (pad_name name)
unfolding pad_name
pad_name-Lacks b name other h =
    All-append (λ c. c ≢ b) name (blanks (8 - length name)) h
      (All-map (λ c (e : c ≡ b' '). λ (e' : c ≡ b). omega arith) (blanks (8 - length name))
        (blanks-All (8 - length name)))

name-Lacks :
    (b : ℕ) (name : Text) → ((c : ℕ) → NameChar c → c ≢ b) → All NameChar name → Lacks b name
name-Lacks b name other h = All-map other name h

trim_space-pad_name :
    (c : ℕ) (name : Text) → All NameChar (c ∷ name) → trim_space (pad_name (c ∷ name)) ≡ c ∷ name
unfolding trim_space trim_left pad_name is_space
trim_space-pad_name c name (hc, h) = rw hc.0 (
    trim_right-append is_space (c ∷ name) (blanks (8 - suc (length name)))
      (hc.0, All-map (λ d (e : NameChar d). e.0) name h)
      (All-map (λ d (e : d ≡ b' '). rw e refl) (blanks (8 - suc (length name)))
        (blanks-All (8 - suc (length name)))))

line-Lacks :
    (b : ℕ) (s : SelectionText)
    → b ≢ b' '
    → b ≢ b'='
    → Lacks b s.name
    → Lacks b s.text
    → Lacks b (pad_name s.name ++ (b'=' ∷ s.text))
line-Lacks b s no_blank no_equals name text =
    All-append (λ c. c ≢ b) (pad_name s.name) (b'=' ∷ s.text)
      (pad_name-Lacks b s.name no_blank name) ((λ e. omega arith), text)

parse_selection_line-of_cut :
    (line after before : Text)
    → trim_right (λ d. d == 13) line ≡ line
    → cut_equals line ≡ some (before, after)
    → before ≢ []
    → parse_selection_line line ≡ some (record { name = trim_space before; text = after })
unfolding parse_selection_line
parse_selection_line-of_cut line after [] kept cut some_name = absurd (some_name refl)
parse_selection_line-of_cut line after (c ∷ before) kept cut some_name =
    rw (kept, cut, parse_selection_line) refl

parse_selection_line-pad_name :
    (c : ℕ) (name text : Text)
    → All NameChar (c ∷ name)
    → Lacks 13 text
    → parse_selection_line (pad_name (c ∷ name) ++ (b'=' ∷ text))
      ≡ some (record { name = c ∷ name; text = text })
unfolding parse_selection_line
parse_selection_line-pad_name c name text h ht =
    let s : SelectionText = record { name = c ∷ name; text = text } in
    let line = pad_name (c ∷ name) ++ (b'=' ∷ text) in
    let no_return : Lacks 13 line =
      line-Lacks 13 s (omega arith) (omega arith)
        (name-Lacks 13 (c ∷ name) (λ d e. NameChar-not d 13 e refl) h) ht in
    let kept =
      trim_right_kept (λ d. d == 13) line
        (All-map (λ d (e : d ≢ 13). ground arith) line no_return) in
    let cut =
      cut_equals-append (pad_name (c ∷ name)) text (
        pad_name-Lacks b'=' (c ∷ name) (omega arith) (name-Lacks b'=' (c ∷ name) (λ d e. e.1) h)) in
    let read =
      parse_selection_line-of_cut line text (pad_name (c ∷ name)) kept cut
        (unfold pad_name in λ e. cc e) in
    rw (trim_space-pad_name c name h) at read

written-read :
    (s : SelectionText) (name : Text)
    → s.name ≡ name
    → Writable s
    → parse_selection_line (pad_name s.name ++ (b'=' ∷ s.text)) ≡ some s
written-read s [] e h = absurd (h.0 e)
written-read s (c ∷ name) e (some_name, chars, (ends, returns)) =
    let chars' : All NameChar (c ∷ name) = rw e at chars in
    rw e (parse_selection_line-pad_name c name s.text chars' returns)

-- Selection texts whose names are not empty and hold no white space and no '=', and whose texts hold no
-- line end, are read back by parseSelectionTexts as formatSelectionTexts wrote them.
pub parse_selection_texts-format_selection_texts :
    (texts : List SelectionText)
    → All Writable texts
    → parse_selection_texts (format_selection_texts texts) ≡ texts
unfolding parse_selection_texts format_selection_texts parse_selection_lines
parse_selection_texts-format_selection_texts [] h = refl
parse_selection_texts-format_selection_texts (s ∷ texts) (hs, h) =
    let ends = hs.2 in
    let line =
      line-Lacks 10 s (omega arith) (omega arith)
        (name-Lacks 10 s.name (λ d e. NameChar-not d 10 e refl) hs.1) ends.0 in
    rw
      (
        split-append (pad_name s.name ++ (b'=' ∷ s.text)) (format_selection_texts texts) 10 line,
        written-read s s.name refl hs,
        parse_selection_lines,
      )
      (ap (λ (t : List SelectionText). s ∷ t)
        (parse_selection_texts-format_selection_texts texts h))
