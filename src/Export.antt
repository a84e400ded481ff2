-- ===== src/Export.antt =====
-- adt/custexport/export.go: the paginated export of one table. The ADT client is a parameter, a
-- function of the number of queries sent before, the SQL text and the row limit.
pub mod Complete
pub mod Server
pub mod Rows
pub mod Queries
pub mod Whole
use adtler.Prelude.{
  ℕ, zero, suc, ◌+◌, Bool, true, false, ◌&&◌, List, [], ◌∷◌, ◌++◌, map, Option, none, some, ltb,
  ◌==◌, if◌then◌else◌, any, length, get_elem?, filter, last?, Text, text_eq,
}
use adtler.Sql.{SqlError, sql, refused, filter_non_mandt_keys, build_export_sql_typed}

-- QueryColumn and QueryResult of adt/types.go, with the fields that the export reads or copies.
pub record QueryColumn : Type 0 where
  pub name : Text
  pub kind : Text
  pub description : Text
  pub is_key : Bool

pub record QueryResult : Type 0 where
  pub columns : List QueryColumn
  pub rows : List (List Text)

pub data Answer (E : Type 0) : Type 0 where
  answered : QueryResult → Answer E
  failed : E → Answer E

-- The number is the page that failed.
pub data ExportError (E : Type 0) : Type 0 where
  build_sql : SqlError → ExportError E
  query : ℕ → E → ExportError E
  no_key_besides_client : ℕ → ExportError E
  undetermined_keys : ℕ → List Text → ExportError E
  no_progress : ℕ → ExportError E
  -- `result.Rows[len(result.Rows)-1]` of an empty page, which panics
  index_out_of_range : ExportError E
  -- the model's fuel ran out
  unfinished : ExportError E

pub record TableExportResult : Type 0 where
  pub table_name : Text
  pub columns : List QueryColumn
  pub rows : List (List Text)
  pub total_rows : ℕ
  pub pages : ℕ

pub data Outcome (E : Type 0) : Type 0 where
  ok : TableExportResult → Outcome E
  err : ExportError E → Outcome E

-- `colIndex[name]`: a later column of the same name wins. The number is the index of the first column.
unfoldable pub column_index : ℕ → List QueryColumn → Text → Option ℕ
unfolding text_eq
column_index i [] name = none
column_index i (c ∷ cs) name = elim (column_index (i + 1) cs name) [
  | some j ↦ some j
  | none ↦ if text_eq c.name name then some i else none
]

unfoldable pub key_value : List QueryColumn → List Text → Text → Option Text
unfolding column_index
key_value columns row key = elim (column_index 0 columns key) [
  | none ↦ none
  | some i ↦ get_elem? row i
]

unfoldable pub missing_columns : List QueryColumn → List Text → List Text → List Text
unfolding key_value filter
missing_columns columns keys row =
    filter (λ key. elim (key_value columns row key) [ none ↦ true | some v ↦ false ]) keys

unfoldable pub extract_key_values : List QueryColumn → List Text → List Text → Option (List Text)
unfolding key_value
extract_key_values columns [] row = some []
extract_key_values columns (key ∷ keys) row = elim (key_value columns row key) [
  | none ↦ none
  | some v ↦ elim (extract_key_values columns keys row) [ none ↦ none | some vs ↦ some (v ∷ vs) ]
]

unfoldable pub mark_keys : List Text → List QueryColumn → List QueryColumn
unfolding text_eq
mark_keys keys = map (λ c. if any (text_eq c.name) keys then record c { is_key = true } else c)

-- slices.Equal
unfoldable pub values_equal : List Text → List Text → Bool
unfolding text_eq
values_equal [] [] = true
values_equal [] (w ∷ ws) = false
values_equal (v ∷ vs) [] = false
values_equal (v ∷ vs) (w ∷ ws) = text_eq v w && values_equal vs ws

-- The columns after a page: those of the first page, with the keys marked.
unfoldable pub page_columns : List Text → ℕ → List QueryColumn → List QueryColumn → List QueryColumn
unfolding mark_keys
page_columns keys pages answer columns = if pages == 0 then mark_keys keys answer else columns

-- What follows a page: the end of the table, an error, or the key values to continue after.
pub data Next (E : Type 0) : Type 0 where
  finish : Next E
  stop : ExportError E → Next E
  continue_after : List Text → Next E

module _ {E : Type 0} where
  unfoldable pub after_page :
      ℕ → ℕ → List Text → List QueryColumn → List Text → List (List Text) → Next E
  unfolding extract_key_values missing_columns values_equal last?
  after_page page_size pages paginate_keys columns last_values rows =
      if ltb (length rows) page_size
      then finish
      else if length paginate_keys == 0
      then stop (no_key_besides_client pages)
      else elim (last? rows) [
        | none ↦ stop index_out_of_range
        | some last_row ↦ elim (extract_key_values columns paginate_keys last_row) [
          | none ↦ stop (undetermined_keys pages (missing_columns columns paginate_keys last_row))
          | some next ↦
              if values_equal next last_values
              then stop (no_progress pages)
              else continue_after next
        ]
      ]

module _ {E : Type 0} (run_query : ℕ → Text → ℕ → Answer E) (table : Text) (keys : List Text)
    (key_types : Text → Text) (page_size : ℕ) where
  -- The query of the page behind `pages` pages.
  unfoldable pub fetch : ℕ → List Text → Answer (ExportError E)
  unfolding filter_non_mandt_keys build_export_sql_typed
  fetch pages last_values =
      elim (build_export_sql_typed table keys (filter_non_mandt_keys keys) last_values key_types) [
        | refused e ↦ failed (build_sql e)
        | sql text ↦ elim (run_query pages text page_size) [
          | failed e ↦ failed (query (pages + 1) e)
          | answered r ↦ answered r
        ]
      ]

  -- The loop, on fuel: a full page takes one unit.
  unfoldable pub export_pages : ℕ → ℕ → List Text → List QueryColumn → List (List Text) → Outcome E
  unfolding fetch after_page page_columns filter_non_mandt_keys
  export_pages zero pages last_values columns rows = err unfinished
  export_pages (suc fuel) pages last_values columns rows = elim (fetch pages last_values) [
    | failed e ↦ err e
    | answered r ↦
        let columns' = page_columns keys pages r.columns columns in
        let rows' = rows ++ r.rows in
        elim (after_page {E = E} page_size (pages + 1) (filter_non_mandt_keys keys) columns'
          last_values r.rows) [
            | finish ↦ ok (record {
              table_name = table;
              columns = columns';
              rows = rows';
              total_rows = length rows';
              pages = pages + 1;
            })
            | stop e ↦ err e
            | continue_after next ↦ export_pages fuel (pages + 1) next columns' rows'
          ]
  ]

  unfoldable pub export_table : ℕ → Outcome E
  unfolding export_pages
  export_table fuel = export_pages fuel 0 [] [] []
