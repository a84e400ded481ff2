-- ===== src/Transport/Listing.antt =====
-- GetTransportRequests' query of adt/transport.go: the states and filters, the cursor, one page.
use adtler.Prelude.{
  ℕ, ◌+◌, Bool, true, false, not, ◌&&◌, ◌||◌, List, [], ◌∷◌, ◌++◌, Option, none, some, ltb, leb,
  ◌==◌, if◌then◌else◌, all, length, last?, filter, take, map, Text, codes, text_eq, join, cut_at,
}
use adtler.Transport.{
  QueryAnswer, query_failed, invalid_cursor, Result, ok, err, require_query_columns, cell, is_digit,
  is_capital,
}

pub data TransportState : Type 0 where
  unknown modifiable release_in_progress released : TransportState

pub data TransportFilter : Type 0 where
  all_requests only_modifiable only_released : TransportFilter

unfoldable pub transport_state_of : Text → TransportState
unfolding text_eq
transport_state_of s =
    if text_eq s (codes "D") || text_eq s (codes "L")
    then modifiable
    else if text_eq s (codes "O")
    then release_in_progress
    else if text_eq s (codes "R") || text_eq s (codes "N")
    then released
    else unknown

unfoldable pub matches : TransportFilter → TransportState → Bool
matches all_requests s = true
matches only_modifiable modifiable = true
matches only_modifiable unknown = false
matches only_modifiable release_in_progress = false
matches only_modifiable released = false
matches only_released released = true
matches only_released unknown = false
matches only_released modifiable = false
matches only_released release_in_progress = false

abbrev pub transport_status_letters : List Text
transport_status_letters = codes "D" ∷ codes "L" ∷ codes "O" ∷ codes "R" ∷ codes "N" ∷ []

unfoldable pub status_term : Text → Text
status_term letter = codes "TRSTATUS = '" ++ (letter ++ codes "'")

unfoldable pub status_terms : TransportFilter → Text
unfolding filter matches transport_state_of status_term join
status_terms f =
    codes "( "
    ++ (join
          (map status_term
            (filter (λ l. matches f (transport_state_of l)) transport_status_letters))
          (codes " OR ")
        ++ codes " )")

-- "" where every state passes.
unfoldable pub transport_status_condition : TransportFilter → Text
unfolding status_terms
transport_status_condition all_requests = []
transport_status_condition only_modifiable = status_terms only_modifiable
transport_status_condition only_released = status_terms only_released

pub record TransportCursor : Type 0 where
  pub date : Text
  pub time : Text
  pub number : Text

unfoldable pub print_cursor : TransportCursor → Text
print_cursor c = c.date ++ (b'.' ∷ (c.time ++ (b'.' ∷ c.number)))

unfoldable pub is_number_char : ℕ → Bool
unfolding is_digit is_capital
is_number_char c = is_capital c || (is_digit c || (c == b'_' || (c == b'/' || c == b'-')))

-- The three groups of transportCursorRe.
unfoldable pub is_cursor : TransportCursor → Bool
unfolding is_digit is_number_char
is_cursor c =
    (length c.date == 8 && all is_digit c.date)
    && ((length c.time == 6 && all is_digit c.time)
        && (leb 1 (length c.number) && (leb (length c.number) 20 && all is_number_char c.number)))

unfoldable pub checked_cursor : Text → TransportCursor → Result TransportCursor
unfolding is_cursor
checked_cursor s c = if is_cursor c then ok c else err (invalid_cursor s)

-- The text behind the date.
unfoldable pub parse_behind : Text → Text → Option (Text × Text) → Result TransportCursor
unfolding checked_cursor
parse_behind s date none = err (invalid_cursor s)
parse_behind s date (some (time, number)) =
    checked_cursor s (record { date = date; time = time; number = number })

unfoldable pub parse_groups : Text → Option (Text × Text) → Result TransportCursor
unfolding cut_at parse_behind
parse_groups s none = err (invalid_cursor s)
parse_groups s (some (date, rest)) = parse_behind s date (cut_at b'.' rest)

-- No group of transportCursorRe holds a dot, so the text is cut at its first two dots.
unfoldable pub parse_transport_cursor : Text → Result TransportCursor
unfolding cut_at parse_groups
parse_transport_cursor s = parse_groups s (cut_at b'.' s)

abbrev pub time_text : Text
time_text = codes "CAST( AS4TIME AS CHAR( 6 ) )"

unfoldable pub same_date : TransportCursor → Text
same_date c = codes "( AS4DATE = '" ++ (c.date ++ (codes "' AND " ++ time_text))

unfoldable pub condition : TransportCursor → Text
unfolding same_date
condition c =
    codes "( AS4DATE < '"
    ++ (c.date
        ++ (codes "' OR "
            ++ (same_date c
                ++ (codes " < '"
                    ++ (c.time
                        ++ (codes "' ) OR "
                            ++ (same_date c
                                ++ (codes " = '"
                                    ++ (c.time
                                        ++ (codes "' AND TRKORR < '"
                                            ++ (c.number ++ codes "' ) )")))))))))))

pub record TransportRequest : Type 0 where
  pub number : Text
  pub owner : Text
  pub description : Text
  pub state : TransportState
  pub raw_status : Text

pub record TransportRequestPage : Type 0 where
  pub requests : List TransportRequest
  pub next : Text

unfoldable pub unless_empty : Text → List Text
unless_empty [] = []
unless_empty (c ∷ s) = (c ∷ s) ∷ []

unfoldable pub after_condition : Option TransportCursor → List Text
unfolding condition
after_condition none = []
after_condition (some c) = condition c ∷ []

unfoldable pub user_condition : Text → List Text
user_condition [] = []
user_condition (c ∷ user) = (codes "AS4USER = '" ++ ((c ∷ user) ++ codes "'")) ∷ []

unfoldable pub list_query : Text → TransportFilter → Option TransportCursor → Text
unfolding user_condition transport_status_condition unless_empty after_condition join
list_query user f after =
    codes "SELECT TRKORR, AS4USER, TRSTATUS, AS4DATE, AS4TIME FROM E070 WHERE "
    ++ (join
          (codes "STRKORR = ''"
            ∷ (user_condition user
                ++ (unless_empty (transport_status_condition f) ++ after_condition after)))
          (codes " AND ")
        ++ codes " ORDER BY AS4DATE DESCENDING, AS4TIME DESCENDING, TRKORR DESCENDING")

abbrev pub list_columns : List Text
list_columns =
    codes "TRKORR" ∷ codes "AS4USER" ∷ codes "TRSTATUS" ∷ codes "AS4DATE" ∷ codes "AS4TIME" ∷ []

unfoldable pub cursor_of : QueryAnswer → List Text → TransportCursor
unfolding cell
cursor_of qr row = record {
  date = cell qr row (codes "AS4DATE");
  time = cell qr row (codes "AS4TIME");
  number = cell qr row (codes "TRKORR");
}

unfoldable pub request_of : QueryAnswer → List Text → TransportRequest
unfolding cell transport_state_of
request_of qr row = record {
  number = cell qr row (codes "TRKORR");
  owner = cell qr row (codes "AS4USER");
  description = [];
  state = transport_state_of (cell qr row (codes "TRSTATUS"));
  raw_status = cell qr row (codes "TRSTATUS");
}

unfoldable pub is_listed : TransportFilter → TransportRequest → Bool
unfolding matches text_eq
is_listed f r = not (text_eq r.number []) && matches f r.state

unfoldable pub requests_of :
    TransportFilter → QueryAnswer → List (List Text) → List TransportRequest
unfolding filter is_listed request_of
requests_of f qr rows = filter (is_listed f) (map (request_of qr) rows)

-- A page with a following one: its cursor must be one that is accepted again.
unfoldable pub page_before :
    List TransportRequest → Text → Result TransportCursor → Result TransportRequestPage
page_before requests next (err e) = err e
page_before requests next (ok c) = ok (record { requests = requests; next = next })

unfoldable pub page_of_rows : TransportFilter → ℕ → QueryAnswer → Result TransportRequestPage
unfolding requests_of cursor_of print_cursor parse_transport_cursor page_before last?
page_of_rows f limit qr =
    if not (ltb limit (length qr.rows))
    then ok (record { requests = requests_of f qr qr.rows; next = [] })
    else elim (last? (take limit qr.rows)) [
      -- rows[limit-1] with a limit of 0, which the options exclude, would panic
      | none ↦ err (query_failed (codes "limit 0"))
      | some row ↦
          let next = print_cursor (cursor_of qr row) in
          page_before (requests_of f qr (take limit qr.rows)) next (parse_transport_cursor next)
    ]

unfoldable pub checked_page :
    TransportFilter → ℕ → QueryAnswer → Result (Unit {0}) → Result TransportRequestPage
unfolding page_of_rows
checked_page f limit qr (err e) = err e
checked_page f limit qr (ok done) = page_of_rows f limit qr

unfoldable pub answered_page :
    TransportFilter → ℕ → Result QueryAnswer → Result TransportRequestPage
unfolding checked_page require_query_columns
answered_page f limit (err e) = err e
answered_page f limit (ok qr) =
    checked_page f limit qr
      (require_query_columns (codes "GetTransportRequests: E070 query") qr list_columns)

module _ (run_query : Text → ℕ → Result QueryAnswer) where
  unfoldable pub get_transport_requests_via_query :
      Text → TransportFilter → ℕ → Option TransportCursor → Result TransportRequestPage
  unfolding answered_page list_query
  get_transport_requests_via_query user f limit after =
      answered_page f limit (run_query (list_query user f after) (limit + 1))
