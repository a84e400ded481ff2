-- ===== src/Dependencies/Chunks.antt =====
-- chunkNames of adt/dependencies.go: what the batches hold, and how long their IN-lists are.
-- Lengths are in characters: for names in ASCII, those of the dictionary, these are the bytes that the
-- code counts.
use adtler.Prelude.{
  ◌≡◌, ◌≢◌, refl, sym, subst, ◌∙◌, ℕ, ◌+◌, ◌≤◌, ◌<◌, false, List, [], ◌∷◌, ◌++◌, append_assoc,
  append-nil, ltb, if◌then◌else◌, length, length-append, All, map, Text, codes, join, Lacks,
  Bool-cases, inl, inr, ◌⊎◌, arith,
}
use adtler.Sql.{escape_value}
use adtler.Dependencies.{quoted, build_sql_in_list}

abbrev pub ddic_in_list_max_bytes : ℕ
ddic_in_list_max_bytes = 150

unfoldable pub close_chunk : List Text → List (List Text)
close_chunk [] = []
close_chunk (n ∷ cur) = (n ∷ cur) ∷ []

-- The loop, with the open chunk and its length.
unfoldable pub chunks_from : ℕ → List Text → ℕ → List Text → List (List Text)
unfolding close_chunk
chunks_from max_bytes cur cur_len [] = close_chunk cur
chunks_from max_bytes [] cur_len (n ∷ names) =
    chunks_from max_bytes (n ∷ []) (cur_len + (length n + 3)) names
chunks_from max_bytes (c ∷ cur) cur_len (n ∷ names) =
    let closed = chunks_from max_bytes (n ∷ []) (length n + 3) names in
    let open_chunk =
      chunks_from max_bytes ((c ∷ cur) ++ (n ∷ [])) (cur_len + (length n + 3)) names in
    if ltb max_bytes (cur_len + (length n + 3)) then (c ∷ cur) ∷ closed else open_chunk

unfoldable pub chunk_names : List Text → ℕ → List (List Text)
unfolding chunks_from
chunk_names names max_bytes = chunks_from max_bytes [] 0 names

unfoldable pub concat : List (List Text) → List Text
concat [] = []
concat (c ∷ chunks) = c ++ concat chunks

close_chunk-concat : (cur : List Text) → concat (close_chunk cur) ≡ cur
unfolding concat close_chunk
close_chunk-concat [] = refl
close_chunk-concat (n ∷ cur) = append-nil (n ∷ cur)

chunks_from-concat :
    (m : ℕ) (cur : List Text) (l : ℕ) (names : List Text)
    → concat (chunks_from m cur l names) ≡ cur ++ names
unfolding chunks_from concat
chunks_from-concat m cur l [] = close_chunk-concat cur ∙ sym (append-nil cur)
chunks_from-concat m [] l (n ∷ names) = chunks_from-concat m (n ∷ []) (l + (length n + 3)) names
chunks_from-concat m (c ∷ cur) l (n ∷ names) = elim (Bool-cases (ltb m (l + (length n + 3)))) [
  | inl e ↦ rw (e, chunks_from-concat m (n ∷ []) (length n + 3) names) refl
  | inr e ↦
      rw (e, chunks_from-concat m ((c ∷ cur) ++ (n ∷ [])) (l + (length n + 3)) names)
        (append_assoc (c ∷ cur) (n ∷ []) names)
]

-- What chunkNames counts: each name with two quotes and a comma.
unfoldable counted : List Text → ℕ
counted [] = 0
counted (n ∷ names) = (length n + 3) + counted names

counted-append :
    (ns : List Text) (n : Text) → counted (ns ++ (n ∷ [])) ≡ counted ns + (length n + 3)
unfolding counted
counted-append [] n = omega arith
counted-append (x ∷ ns) n = omega (arith, counted-append ns n)

-- A chunk that was counted to fit, or that holds one name.
abbrev Counted : ℕ → List Text → Type 0
Counted m chunk = (counted chunk ≤ m) ⊎ ((n : Text) × (chunk ≡ n ∷ []))

close_chunk-Counted : (m : ℕ) (cur : List Text) → Counted m cur → All (Counted m) (close_chunk cur)
unfolding close_chunk
close_chunk-Counted m [] h = tt
close_chunk-Counted m (n ∷ cur) h = (h, tt)

le_of_ltb : (a b : ℕ) → ltb a b ≡ false → b ≤ a
le_of_ltb a b h = ground arith

chunks_from-Counted :
    (m : ℕ) (cur : List Text) (l : ℕ) (names : List Text)
    → l ≡ counted cur
    → Counted m cur
    → All (Counted m) (chunks_from m cur l names)
unfolding chunks_from counted
chunks_from-Counted m cur l [] e h = close_chunk-Counted m cur h
chunks_from-Counted m [] l (n ∷ names) e h =
    chunks_from-Counted m (n ∷ []) (l + (length n + 3)) names (omega arith) (inr (n, refl))
chunks_from-Counted m (c ∷ cur) l (n ∷ names) e h = elim (Bool-cases (ltb m (l + (length n + 3)))) [
  | inl t ↦
      rw t (h, chunks_from-Counted m (n ∷ []) (length n + 3) names (omega arith) (inr (n, refl)))
  | inr t ↦ rw t (
      chunks_from-Counted m ((c ∷ cur) ++ (n ∷ [])) (l + (length n + 3)) names
        (omega (arith, counted-append (c ∷ cur) n))
        (inl (omega (arith, counted-append (c ∷ cur) n, le_of_ltb m (l + (length n + 3)) t))))
]

escape_value-Lacks : (s : Text) → Lacks b'\'' s → escape_value s ≡ s
unfolding escape_value
escape_value-Lacks [] h = refl
escape_value-Lacks (c ∷ s) (h, hs) = ground (arith, escape_value-Lacks s hs)

quoted-length : (n : Text) → Lacks b'\'' n → length (quoted n) ≡ length n + 2
unfolding quoted
quoted-length n h = rw (escape_value-Lacks n h) (omega (arith, length-append n (b'\'' ∷ [])))

in_list-length :
    (n : Text) (names : List Text)
    → All (Lacks b'\'') (n ∷ names)
    → length (build_sql_in_list (n ∷ names)) + 1 ≡ counted (n ∷ names)
unfolding build_sql_in_list join counted
in_list-length n [] (h, _) = omega (arith, quoted-length n h)
in_list-length n (x ∷ names) (h, hs) = omega (
  arith,
  quoted-length n h,
  length-append (quoted n) (codes "," ++ join (map quoted (x ∷ names)) (codes ",")),
  in_list-length x names hs,
)

-- The IN-list of a chunk is shorter than the bound, or the chunk holds one name.
abbrev pub FitsInList : ℕ → List Text → Type 0
FitsInList m chunk = (length (build_sql_in_list chunk) < m) ⊎ ((n : Text) × (chunk ≡ n ∷ []))

Counted-FitsInList :
    (m : ℕ) (chunk : List Text)
    → All (Lacks b'\'') chunk
    → chunk ≢ []
    → Counted m chunk
    → FitsInList m chunk
Counted-FitsInList m [] q ne h = absurd (ne refl)
Counted-FitsInList m (n ∷ chunk) q ne (inl h) = inl (omega (arith, in_list-length n chunk q))
Counted-FitsInList m (n ∷ chunk) q ne (inr h) = inr h

chunks_from-ne-nil :
    (m : ℕ) (cur : List Text) (l : ℕ) (names : List Text)
    → All (λ chunk. chunk ≢ []) (chunks_from m cur l names)
unfolding chunks_from close_chunk
chunks_from-ne-nil m [] l [] = tt
chunks_from-ne-nil m (c ∷ cur) l [] = (cc, tt)
chunks_from-ne-nil m [] l (n ∷ names) = chunks_from-ne-nil m (n ∷ []) (l + (length n + 3)) names
chunks_from-ne-nil m (c ∷ cur) l (n ∷ names) = elim (Bool-cases (ltb m (l + (length n + 3)))) [
  | inl e ↦ rw e (cc, chunks_from-ne-nil m (n ∷ []) (length n + 3) names)
  | inr e ↦ rw e (chunks_from-ne-nil m ((c ∷ cur) ++ (n ∷ [])) (l + (length n + 3)) names)
]

All-split : (P : Text → Type 0) (xs ys : List Text) → All P (xs ++ ys) → All P xs × All P ys
All-split P [] ys h = (tt, h)
All-split P (x ∷ xs) ys (h, hs) = let (a, b) = All-split P xs ys hs in ((h, a), b)

All-concat :
    (P : Text → Type 0) (chunks : List (List Text)) → All P (concat chunks) → All (All P) chunks
unfolding concat
All-concat P [] h = tt
All-concat P (c ∷ chunks) h =
    let (a, b) = All-split P c (concat chunks) h in (a, All-concat P chunks b)

All-FitsInList :
    (m : ℕ) (chunks : List (List Text))
    → All (All (Lacks b'\'')) chunks
    → All (λ chunk. chunk ≢ []) chunks
    → All (Counted m) chunks
    → All (λ chunk. (chunk ≢ []) × FitsInList m chunk) chunks
All-FitsInList m [] q ne h = tt
All-FitsInList m (c ∷ chunks) (q, qs) (ne, nes) (h, hs) =
    ((ne, Counted-FitsInList m c q ne h), All-FitsInList m chunks qs nes hs)

-- Where no name holds a quote, chunkNames cuts the list of names into parts, in order and none of
-- them empty, and the IN-list that buildSQLInList makes of a part is shorter than the bound, unless
-- the part is a single name.
pub chunk_names-FitsInList :
    (names : List Text) (max_bytes : ℕ)
    → All (Lacks b'\'') names
    → (concat (chunk_names names max_bytes) ≡ names)
      × All (λ chunk. (chunk ≢ []) × FitsInList max_bytes chunk) (chunk_names names max_bytes)
unfolding chunk_names counted
chunk_names-FitsInList names m q =
    let whole = chunks_from-concat m [] 0 names in
    (
      whole,
      All-FitsInList m (chunks_from m [] 0 names)
          (All-concat (Lacks b'\'') (chunks_from m [] 0 names)
            (subst (All (Lacks b'\'')) (sym whole) q))
          (chunks_from-ne-nil m [] 0 names)
          (chunks_from-Counted m [] 0 names refl (inl (omega arith))),
    )
