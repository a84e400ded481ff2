-- ===== src/Tests/Transport.antt =====
-- adt/transport.go against a data preview that answers with given rows.
use adtler.Prelude.{
  ◌≡◌, refl, ℕ, ◌==◌, true, none, List, [], ◌∷◌, Text, codes, if◌then◌else◌, length, ◌↔◌,
}
use adtler.Transport.{QueryAnswer, Result, ok}
use adtler.Transport.Listing.{
  modifiable, only_modifiable, TransportCursor, TransportRequestPage, is_cursor, print_cursor,
  parse_transport_cursor, get_transport_requests_via_query,
}
use adtler.Transport.Cursor.{parse_transport_cursor_iff}
use adtler.Transport.Pages.{IsPage, get_transport_requests_via_query-IsPage}
use adtler.Transport.Objects.{
  TransportObject, new_deduper, add_rows, get_transport_objects_via_query,
}
use adtler.Transport.Dedup.{
  Distinct, merge_rows, add_rows-refines, get_transport_objects_via_query-Distinct,
}

abbrev cursor : TransportCursor
cursor = record { date = codes "20260102"; time = codes "030405"; number = codes "DEVK900002" }

parse_transport_cursor_iff_example :
    (parse_transport_cursor (codes "20260102.030405.DEVK900002") ≡ ok cursor)
    ↔ ((codes "20260102.030405.DEVK900002" ≡ print_cursor cursor) × (is_cursor cursor ≡ true))
parse_transport_cursor_iff_example =
    parse_transport_cursor_iff (codes "20260102.030405.DEVK900002") cursor

-- Three requests, where the page takes two.
abbrev requests : QueryAnswer
requests = record {
  columns =
      codes "TRKORR" ∷ codes "AS4USER" ∷ codes "TRSTATUS" ∷ codes "AS4DATE" ∷ codes "AS4TIME" ∷ [];
  rows =
      (codes "DEVK900003" ∷ codes "DEV" ∷ codes "D" ∷ codes "20260103" ∷ codes "030405" ∷ [])
      ∷ (codes "DEVK900002" ∷ codes "DEV" ∷ codes "R" ∷ codes "20260102" ∷ codes "030405" ∷ [])
      ∷ (codes "DEVK900001" ∷ codes "DEV" ∷ codes "D" ∷ codes "20260101" ∷ codes "030405" ∷ [])
      ∷ [];
  total_rows = 3;
}

abbrev page : TransportRequestPage
page = record {
  requests =
      record {
        number = codes "DEVK900003";
        owner = codes "DEV";
        description = [];
        state = modifiable;
        raw_status = codes "D";
      }
      ∷ [];
  next = codes "20260102.030405.DEVK900002";
}

get_transport_requests_via_query-IsPage_example : IsPage 2 page
unfolding get_transport_requests_via_query
get_transport_requests_via_query-IsPage_example =
    get_transport_requests_via_query-IsPage (λ _ _. ok requests) (codes "DEV") only_modifiable 2
      none page refl

-- One object in two tasks, and one of the request itself.
abbrev listed : QueryAnswer
listed = record {
  columns =
      codes "TRKORR" ∷ codes "AS4POS" ∷ codes "PGMID" ∷ codes "OBJECT" ∷ codes "OBJ_NAME" ∷ [];
  rows =
      (codes "DEVK900001" ∷ codes "1" ∷ codes "R3TR" ∷ codes "PROG" ∷ codes "ZA" ∷ [])
      ∷ (codes "DEVK900002" ∷ codes "1" ∷ codes "R3TR" ∷ codes "PROG" ∷ codes "ZA" ∷ [])
      ∷ (codes "DEVK900002" ∷ codes "2" ∷ codes "CORR" ∷ codes "RELE" ∷ codes "X" ∷ [])
      ∷ (codes "DEVK900003" ∷ codes "1" ∷ codes "LIMU" ∷ codes "METH" ∷ codes "ZC" ∷ [])
      ∷ [];
  total_rows = 4;
}

add_rows-refines_example :
    (add_rows (codes "DEVK900001") listed listed.rows new_deduper).objects
    ≡ merge_rows (codes "DEVK900001") listed listed.rows []
add_rows-refines_example = add_rows-refines (codes "DEVK900001") listed listed.rows

abbrev headers : QueryAnswer
headers = record {
  columns = codes "TRKORR" ∷ codes "STRKORR" ∷ [];
  rows = (codes "DEVK900001" ∷ [] ∷ []) ∷ (codes "DEVK900002" ∷ codes "DEVK900001" ∷ []) ∷ [];
  total_rows = 2;
}

-- The two objects: the first from the second row's task.
abbrev objects : List TransportObject
objects =
    record {
      pgm_id = codes "R3TR";
      object_type = codes "PROG";
      name = codes "ZA";
      wb_type = [];
      position = codes "1";
      task = codes "DEVK900002";
    }
    ∷ record {
      pgm_id = codes "LIMU";
      object_type = codes "METH";
      name = codes "ZC";
      wb_type = [];
      position = codes "1";
      task = codes "DEVK900003";
    }
    ∷ []

-- The first query is the one that selects the tasks.
abbrev preview : Text → ℕ → Result QueryAnswer
preview query rows = if length query == 102 then ok headers else ok listed

get_transport_objects_via_query-Distinct_example : Distinct objects
unfolding get_transport_objects_via_query
get_transport_objects_via_query-Distinct_example =
    get_transport_objects_via_query-Distinct preview (codes "DEVK900001") objects refl
