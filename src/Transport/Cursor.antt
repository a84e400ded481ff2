-- ===== src/Transport/Cursor.antt =====
-- The cursor of adt/transport.go: parseTransportCursor against transportCursor.String.
use adtler.Prelude.{
  ◌≡◌, ap, ◌∙◌, ℕ, true, ◌&&◌, [], ◌∷◌, ◌++◌, some, ◌==◌, all, length, Text, cut_at, Lacks, &&_true,
  Bool-cases, inl, inr, Option-cases, subst, arith, ◌↔◌,
}
use adtler.Transport.{ok, is_digit}
use adtler.Transport.Listing.{
  TransportCursor, print_cursor, is_cursor, checked_cursor, parse_behind, parse_groups,
  parse_transport_cursor,
}

cut_at-Lacks : (sep : ℕ) (s t : Text) → Lacks sep s → cut_at sep (s ++ sep ∷ t) ≡ some (s, t)
unfolding cut_at
cut_at-Lacks sep [] t h = ground arith
cut_at-Lacks sep (c ∷ s) t (h, hs) = ground (arith, cut_at-Lacks sep s t hs)

cut_at-append :
    (sep : ℕ) (s before after : Text)
    → cut_at sep s ≡ some (before, after)
    → s ≡ before ++ sep ∷ after
unfolding cut_at
cut_at-append sep [] before after h = ground arith
cut_at-append sep (c ∷ s) before after h = elim (Option-cases (cut_at sep s)) [
  | inl e ↦ ground arith
  | inr ((b, a), e) ↦ ground (arith, cut_at-append sep s b a e)
]

digits-Lacks : (s : Text) → all is_digit s ≡ true → Lacks b'.' s
unfolding is_digit
digits-Lacks [] h = tt
digits-Lacks (c ∷ s) h = (ground arith, digits-Lacks s (&&_true (is_digit c) _ h).1)

-- The parts of a cursor that the expression accepts are printed and parsed back.
parse_transport_cursor-print :
    (c : TransportCursor) → is_cursor c ≡ true → parse_transport_cursor (print_cursor c) ≡ ok c
unfolding parse_transport_cursor parse_groups parse_behind checked_cursor print_cursor is_cursor
parse_transport_cursor-print c h =
    let (date, behind) = &&_true (length c.date == 8 && all is_digit c.date) _ h in
    let (time, _) = &&_true (length c.time == 6 && all is_digit c.time) _ behind in
    rw (
      cut_at-Lacks b'.' c.date (c.time ++ b'.' ∷ c.number)
          (digits-Lacks c.date (&&_true (length c.date == 8) _ date).1),
      cut_at-Lacks b'.' c.time c.number
          (digits-Lacks c.time (&&_true (length c.time == 6) _ time).1),
      h,
    )

checked_cursor_ok :
    (s : Text) (d c : TransportCursor) → checked_cursor s d ≡ ok c → (d ≡ c) × (is_cursor d ≡ true)
unfolding checked_cursor
checked_cursor_ok s d c h = elim (Bool-cases (is_cursor d)) [
  | inl e ↦ ground arith
  | inr e ↦ ground arith
]

print_checked :
    (s date time number : Text) (c : TransportCursor)
    → s ≡ date ++ b'.' ∷ (time ++ b'.' ∷ number)
    → checked_cursor s (record { date = date; time = time; number = number }) ≡ ok c
    → (s ≡ print_cursor c) × (is_cursor c ≡ true)
unfolding print_cursor
print_checked s date time number c h e =
    let d : TransportCursor = record { date = date; time = time; number = number } in
    let (x, y) = checked_cursor_ok s d c e in
    subst (λ c'. (s ≡ print_cursor c') × (is_cursor c' ≡ true)) x (h, y)

print-parse_behind :
    (s date rest : Text) (c : TransportCursor)
    → s ≡ date ++ b'.' ∷ rest
    → parse_behind s date (cut_at b'.' rest) ≡ ok c
    → (s ≡ print_cursor c) × (is_cursor c ≡ true)
unfolding parse_behind
print-parse_behind s date rest c h e = elim (Option-cases (cut_at b'.' rest)) [
  | inl x ↦ ground arith
  | inr ((time, number), x) ↦
      print_checked s date time number c
        (h ∙ ap (λ r. date ++ b'.' ∷ r) (cut_at-append b'.' rest time number x))
        (subst (λ o. parse_behind s date o ≡ ok c) x e)
]

print-parse :
    (s : Text) (c : TransportCursor)
    → parse_transport_cursor s ≡ ok c
    → (s ≡ print_cursor c) × (is_cursor c ≡ true)
unfolding parse_transport_cursor parse_groups
print-parse s c h = elim (Option-cases (cut_at b'.' s)) [
  | inl x ↦ ground arith
  | inr ((date, rest), x) ↦
      print-parse_behind s date rest c (cut_at-append b'.' s date rest x)
        (subst (λ o. parse_groups s o ≡ ok c) x h)
]

-- A text is accepted as a cursor exactly when it is the print of a cursor whose date has eight
-- digits, whose time has six, and whose number has 1 to 20 characters of a request number; the
-- result is that cursor.
pub parse_transport_cursor_iff :
    (s : Text) (c : TransportCursor)
    → (parse_transport_cursor s ≡ ok c) ↔ ((s ≡ print_cursor c) × (is_cursor c ≡ true))
parse_transport_cursor_iff s c =
    (print-parse s c, λ h. ap parse_transport_cursor h.0 ∙ parse_transport_cursor-print c h.1)
