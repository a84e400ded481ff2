-- ===== src/Tests/Export.antt =====
-- adt/abapsql.go and adt/custexport/export.go on a table of three rows, read in pages of two.
use adtler.Prelude.{
  ℕ, ltb, ◌==◌, ◌||◌, ◌&&◌, filter, ◌≡◌, refl, Bool, true, false, List, [], ◌∷◌, ◌++◌, some, arith,
  Text, codes, text_eq, length, if◌then◌else◌,
}
use adtler.Sql.{
  escape_value, build_export_sql, sql, filter_non_mandt_keys, validate_all, validate_identifier,
}
use adtler.Sql.Quoting.{read_literal, read_literal-escape_value}
use adtler.Sql.Where.{atom_text, formula_text, formula_holds, is_after, pagination_formula}
use adtler.Export.{
  QueryColumn, Answer, answered, failed, TableExportResult, ok, mark_keys, extract_key_values,
  export_table,
}
use adtler.Export.Complete.{Paged, export_table-Read}
use adtler.Export.Server.{Serves}
use adtler.Export.Whole.{export_table-all_rows}

read_literal-escape_value_example :
    read_literal (escape_value (codes "it's ''") ++ codes "' OR")
    ≡ some (codes "it's ''", codes " OR")
read_literal-escape_value_example = read_literal-escape_value (codes "it's ''") (codes " OR") refl

-- The examples of the comment above `buildPaginationWhere`, for two keys.
two_keys :
    build_export_sql
      (codes "T")
      (codes "MANDT" ∷ codes "K1" ∷ codes "K2" ∷ [])
      (codes "K1" ∷ codes "K2" ∷ [])
      (codes "v1" ∷ codes "v'2" ∷ [])
    ≡ sql (
        codes
          "SELECT * FROM T WHERE K1 > 'v1' OR ( K1 = 'v1' AND K2 > 'v''2' ) ORDER BY MANDT, K1, K2")
unfolding build_export_sql
two_keys = refl

abbrev column : Text → QueryColumn
column name = record { name = name; kind = codes "C"; description = []; is_key = false }

abbrev columns : List QueryColumn
columns = column (codes "MANDT") ∷ column (codes "K") ∷ []

abbrev row : Text → List Text
row k = codes "100" ∷ k ∷ []

abbrev three : List (List Text)
three = row (codes "a") ∷ row (codes "b") ∷ row (codes "c") ∷ []

abbrev table_keys : List Text
table_keys = codes "MANDT" ∷ codes "K" ∷ []

-- The order of the code points.
abbrev before : Text → Text → Bool
before [] [] = false
before [] (b ∷ t) = true
before (a ∷ s) [] = false
before (a ∷ s) (b ∷ t) = ltb a b || (a == b && before s t)

abbrev respond : List (List Text) → Answer ℕ
respond rows = answered (record { columns = columns; rows = rows })

abbrev server : ℕ → Text → ℕ → Answer ℕ
server i text n =
    if text_eq text (codes "SELECT * FROM T ORDER BY MANDT, K")
    then respond (row (codes "a") ∷ row (codes "b") ∷ [])
    else if text_eq text (codes "SELECT * FROM T WHERE K > 'a' ORDER BY MANDT, K")
    then respond (row (codes "b") ∷ row (codes "c") ∷ [])
    else if text_eq text (codes "SELECT * FROM T WHERE K > 'b' ORDER BY MANDT, K")
    then respond (row (codes "c") ∷ [])
    else if text_eq text (codes "SELECT * FROM T WHERE K > 'c' ORDER BY MANDT, K")
    then respond []
    else failed 1

before_asym : (a b : Text) → before a b ≡ true → before b a ≡ false
before_asym [] [] e = refl
before_asym [] (b ∷ t) e = refl
before_asym (a ∷ s) [] e = cc
before_asym (a ∷ s) (b ∷ t) e = ground (arith, before_asym s t)

serves : Serves server (codes "T") table_keys (λ _. []) 2 before columns three
unfolding text_eq filter_non_mandt_keys formula_text atom_text pagination_formula formula_holds
    filter is_after extract_key_values
serves = record {
  answers_all = λ i. refl;
  answers_where = ((λ i. refl), ((λ i. refl), ((λ i. refl), tt)));
  asymmetric = before_asym;
  sorted = ((refl, (refl, tt)), ((refl, tt), (tt, tt)));
  has_keys = (refl, (refl, (refl, tt)));
}

export_table-all_rows_example :
    (result : TableExportResult) × (export_table server (codes "T") table_keys (λ _. []) 2 4
      ≡ ok result)
    × (result.rows ≡ three)
    × (result.columns ≡ mark_keys table_keys columns)
    × (result.total_rows ≡ length three)
unfolding validate_identifier validate_all filter_non_mandt_keys
export_table-all_rows_example =
    export_table-all_rows server (codes "T") table_keys (λ _. []) 2 before columns three serves refl
      refl (cc) (omega arith) 4 (omega arith)

abbrev exported : TableExportResult
exported = record {
  table_name = codes "T";
  columns = mark_keys table_keys columns;
  rows = three;
  total_rows = 3;
  pages = 2;
}

export_three : export_table server (codes "T") table_keys (λ _. []) 2 4 ≡ ok exported
unfolding export_table mark_keys
export_three = refl

export_table-Read_example :
    Paged server (codes "T") table_keys (λ _. []) 2 0 [] [] three × (3 ≡ length three)
export_table-Read_example =
    export_table-Read server (codes "T") table_keys (λ _. []) 2 4 exported export_three
