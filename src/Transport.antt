-- ===== src/Transport.antt =====
-- adt/transport.go: the list of requests with its cursor, and the objects of a request, both read
-- through queries. A query is a parameter: its answer is a function of its text and its row limit.
pub mod Listing
pub mod Cursor
pub mod Objects
pub mod Merge
pub mod Dedup
pub mod Pages
use adtler.Prelude.{
  ℕ, ◌+◌, Bool, true, false, not, ◌&&◌, ◌||◌, List, [], ◌∷◌, ◌++◌, Option, none, some, ltb, leb,
  ◌==◌, if◌then◌else◌, all, length, get_elem?, Text, codes, text_eq, join, trim_space,
}

-- The names of the columns, the rows, and the number of rows that the server reports.
pub record QueryAnswer : Type 0 where
  pub columns : List Text
  pub rows : List (List Text)
  pub total_rows : ℕ

pub data TransportError : Type 0 where
  query_failed : Text → TransportError
  -- the context of the query, and the columns
  no_columns : Text → List Text → TransportError
  invalid_cursor : Text → TransportError
  absent : Text → TransportError
  unsafe_number : Text → TransportError
  truncated : TransportError

pub data Result (A : Type 0) : Type 0 where
  ok : A → Result A
  err : TransportError → Result A

-- queryColumnIndexes: the last column of the name; none is -1.
unfoldable pub column_from : ℕ → List Text → Text → Option ℕ
unfolding text_eq
column_from i [] name = none
column_from i (c ∷ columns) name = elim (column_from (i + 1) columns name) [
  | some j ↦ some j
  | none ↦ if text_eq c name then some i else none
]

unfoldable pub column_index : QueryAnswer → Text → Option ℕ
unfolding column_from
column_index qr name = column_from 0 qr.columns name

unfoldable pub missing_columns : QueryAnswer → List Text → List Text
unfolding column_index
missing_columns qr [] = []
missing_columns qr (name ∷ names) =
    let rest = missing_columns qr names in
    elim (column_index qr name) [ some i ↦ rest | none ↦ name ∷ rest ]

unfoldable pub require_query_columns : Text → QueryAnswer → List Text → Result (Unit {0})
unfolding missing_columns
require_query_columns context qr names = elim (missing_columns qr names) [
  | [] ↦ ok tt
  | m ∷ missing ↦ err (no_columns context (m ∷ missing))
]

unfoldable pub cell_text : Option Text → Text
unfolding trim_space
cell_text none = []
cell_text (some t) = trim_space t

unfoldable pub query_cell : List Text → Option ℕ → Text
unfolding cell_text
query_cell row none = []
query_cell row (some i) = cell_text (get_elem? row i)

unfoldable pub cell : QueryAnswer → List Text → Text → Text
unfolding query_cell column_index
cell qr row name = query_cell row (column_index qr name)

unfoldable pub is_digit : ℕ → Bool
is_digit c = leb b'0' c && leb c b'9'

unfoldable pub is_capital : ℕ → Bool
is_capital c = leb b'A' c && leb c b'Z'
