-- ===== src/Transport/Pages.antt =====
-- getTransportRequestsViaQuery of adt/transport.go: the size of a page and its cursor.
use adtler.Prelude.{
  ◌≡◌, refl, subst, ◌⊎◌, inl, inr, ℕ, ◌≤◌, Bool, List, [], ◌∷◌, Option, filter, map, take, length,
  length-take, last?, ltb, ◌+◌, Text, Bool-cases, Option-cases, arith,
}
use adtler.Transport.{QueryAnswer, Result, ok, err}
use adtler.Transport.Listing.{
  TransportFilter, TransportCursor, TransportRequest, TransportRequestPage, list_query, request_of,
  requests_of, is_listed, parse_transport_cursor, page_before, page_of_rows, checked_page,
  answered_page, get_transport_requests_via_query,
}

length-filter {ℓ} : {A : Type ℓ} (p : A → Bool) (xs : List A) → length (filter p xs) ≤ length xs
unfolding filter
length-filter p [] = omega arith
length-filter p (x ∷ xs) = elim (Bool-cases (p x)) [
  | inl e ↦ rw e (omega (arith, length-filter p xs))
  | inr e ↦ rw e (omega (arith, length-filter p xs))
]

length-map {ℓ κ} :
    {A : Type ℓ} {B : Type κ} (f : A → B) (xs : List A) → length (map f xs) ≡ length xs
length-map f [] = refl
length-map f (x ∷ xs) = omega (arith, length-map f xs)

requests_of-length :
    (f : TransportFilter) (qr : QueryAnswer) (rows : List (List Text))
    → length (requests_of f qr rows) ≤ length rows
unfolding requests_of
requests_of-length f qr rows =
    omega (
      arith,
      length-filter (is_listed f) (map (request_of qr) rows),
      length-map (request_of qr) rows,
    )

-- A page of at most so many requests, with no cursor or one that is accepted again.
abbrev pub IsPage : ℕ → TransportRequestPage → Type 0
IsPage limit page =
    length page.requests ≤ limit
    × ((page.next ≡ []) ⊎ ((c : TransportCursor) × (parse_transport_cursor page.next ≡ ok c)))

unfoldable pub Pages : ℕ → Result TransportRequestPage → Type 0
Pages limit (err e) = Unit
Pages limit (ok page) = IsPage limit page

page_before-Pages :
    (limit : ℕ) (requests : List TransportRequest) (next : Text) (r : Result TransportCursor)
    → length requests ≤ limit
    → parse_transport_cursor next ≡ r
    → Pages limit (page_before requests next r)
unfolding page_before Pages
page_before-Pages limit requests next (err e) h x = tt
page_before-Pages limit requests next (ok c) h x = (h, inr (c, x))

page_of_rows-Pages :
    (f : TransportFilter) (limit : ℕ) (qr : QueryAnswer) → Pages limit (page_of_rows f limit qr)
unfolding page_of_rows Pages
page_of_rows-Pages f limit qr = elim (Bool-cases (ltb limit (length qr.rows))) [
  | inl e ↦ rw e (elim (Option-cases (last? (take limit qr.rows))) [
    | inl x ↦ rw x tt
    | inr (row, x) ↦ rw x (
        page_before-Pages limit _ _ _
          (omega (arith, requests_of-length f qr (take limit qr.rows), length-take limit qr.rows))
          refl)
  ])
  | inr e ↦ rw e (grind (arith, requests_of-length f qr qr.rows), inl refl)
]

checked_page-Pages :
    (f : TransportFilter) (limit : ℕ) (qr : QueryAnswer) (r : Result (Unit {0}))
    → Pages limit (checked_page f limit qr r)
unfolding checked_page Pages
checked_page-Pages f limit qr (err e) = tt
checked_page-Pages f limit qr (ok done) = page_of_rows-Pages f limit qr

answered_page-Pages :
    (f : TransportFilter) (limit : ℕ) (r : Result QueryAnswer)
    → Pages limit (answered_page f limit r)
unfolding answered_page Pages
answered_page-Pages f limit (err e) = tt
answered_page-Pages f limit (ok qr) = checked_page-Pages f limit qr _

-- Whatever the query answers, a page of the query for `limit` requests has at most `limit`
-- requests, and its Next is empty or a text that is accepted as a cursor for the next page.
pub get_transport_requests_via_query-IsPage :
    (run_query : Text → ℕ → Result QueryAnswer) (user : Text) (f : TransportFilter) (limit : ℕ)
    (after : Option TransportCursor) (page : TransportRequestPage)
    → get_transport_requests_via_query run_query user f limit after ≡ ok page
    → IsPage limit page
unfolding get_transport_requests_via_query Pages
get_transport_requests_via_query-IsPage run_query user f limit after page h =
    subst (Pages limit) h
      (answered_page-Pages f limit (run_query (list_query user f after) (limit + 1)))
