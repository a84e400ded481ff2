-- ===== src/Sql.antt =====
-- adt/abapsql.go: the SQL of the customizing export. A key's DDIC type is looked up by a function,
-- which returns the empty text for a key that the map lacks.
pub mod Quoting
pub mod Where
use adtler.Prelude.{
  ℕ, Bool, true, false, not, ◌&&◌, ◌||◌, List, [], ◌∷◌, ◌++◌, Option, none, some, ltb, leb, ◌==◌,
  if◌then◌else◌, all, length, Text, codes, join, equal_fold,
}

pub data SqlError : Type 0 where
  empty_identifier : SqlError
  invalid_identifier : Text → SqlError
  invalid_table_name invalid_key_column invalid_pagination_key : SqlError → SqlError

-- the character class of `identifierRe`
unfoldable pub is_identifier_char : ℕ → Bool
is_identifier_char c =
    (leb b'A' c && leb c b'Z')
    || (leb b'a' c && leb c b'z')
    || (leb b'0' c && leb c b'9')
    || c == b'/'
    || c == b'_'
    || c == b'#'

-- `none` where the name is valid
unfoldable pub validate_identifier : Text → Option SqlError
unfolding is_identifier_char
validate_identifier [] = some empty_identifier
validate_identifier (c ∷ name) =
    if all is_identifier_char (c ∷ name) then none else some (invalid_identifier (c ∷ name))

unfoldable pub filter_non_mandt_keys : List Text → List Text
unfolding equal_fold
filter_non_mandt_keys [] = []
filter_non_mandt_keys (k ∷ keys) =
    let rest = filter_non_mandt_keys keys in if equal_fold k (codes "MANDT") then rest else k ∷ rest

unfoldable pub escape_value : Text → Text
escape_value [] = []
escape_value (c ∷ v) =
    let rest = escape_value v in if c == b'\'' then b'\'' ∷ b'\'' ∷ rest else c ∷ rest

unfoldable pub key_operand : Text → (Text → Text) → Text
unfolding equal_fold
key_operand key key_types =
    if equal_fold (key_types key) (codes "TIMS")
    then codes "CAST( " ++ (key ++ codes " AS CHAR( 6 ) )")
    else key

-- `%s = '%s'` and `%s > '%s'`
unfoldable pub comparison : (Text → Text) → Text → Text → Text → Text
unfolding key_operand escape_value
comparison key_types operator key value =
    key_operand key key_types ++ (operator ++ (b'\'' ∷ (escape_value value ++ b'\'' ∷ [])))

abbrev pub equals : Text
equals = codes " = "

abbrev pub greater : Text
greater = codes " > "

unfoldable pub conjunction : List Text → Text
unfolding join
conjunction [] = codes "( " ++ codes " )"
conjunction (part ∷ []) = part
conjunction (part ∷ more ∷ parts) =
    codes "( " ++ (join (part ∷ more ∷ parts) (codes " AND ") ++ codes " )")

-- The loop over the keys, with the comparisons for equality of the keys before the current one.
unfoldable pub pagination_terms : (Text → Text) → List Text → List Text → List Text → List Text
unfolding comparison conjunction
pagination_terms key_types before (key ∷ keys) (value ∷ values) =
    conjunction (before ++ comparison key_types greater key value ∷ [])
    ∷ pagination_terms key_types (before ++ comparison key_types equals key value ∷ []) keys values
pagination_terms key_types before _ _ = []

unfoldable pub build_pagination_where_typed : List Text → List Text → (Text → Text) → Text
unfolding pagination_terms join
build_pagination_where_typed keys last_values key_types =
    if length keys == 0 || not (length keys == length last_values)
    then []
    else join (pagination_terms key_types [] keys last_values) (codes " OR ")

unfoldable pub build_pagination_where : List Text → List Text → Text
unfolding build_pagination_where_typed
build_pagination_where keys last_values = build_pagination_where_typed keys last_values (λ _. [])

-- the first invalid name of a list
unfoldable pub validate_all : List Text → Option SqlError
unfolding validate_identifier
validate_all [] = none
validate_all (k ∷ keys) = elim (validate_identifier k) [
  | some e ↦ some e
  | none ↦ validate_all keys
]

pub data Built : Type 0 where
  sql : Text → Built
  refused : SqlError → Built

unfoldable pub where_clause : List Text → List Text → (Text → Text) → Text
unfolding build_pagination_where_typed
where_clause paginate_keys last_values key_types =
    if ltb 0 (length last_values) && ltb 0 (length paginate_keys)
    then (elim (build_pagination_where_typed paginate_keys last_values key_types) [
      | [] ↦ []
      | c ∷ w ↦ codes " WHERE " ++ c ∷ w
    ])
    else []

unfoldable pub order_by : List Text → Text
unfolding join
order_by [] = []
order_by (k ∷ keys) = codes " ORDER BY " ++ join (k ∷ keys) (codes ", ")

unfoldable pub build_export_sql_typed :
    Text → List Text → List Text → List Text → (Text → Text) → Built
unfolding validate_all where_clause order_by
build_export_sql_typed table all_keys paginate_keys last_values key_types =
    elim (validate_identifier table) [
      | some e ↦ refused (invalid_table_name e)
      | none ↦ elim (validate_all all_keys) [
        | some e ↦ refused (invalid_key_column e)
        | none ↦ elim (validate_all paginate_keys) [
          | some e ↦ refused (invalid_pagination_key e)
          | none ↦ sql (
              codes "SELECT * FROM "
              ++ (table ++ (where_clause paginate_keys last_values key_types ++ order_by all_keys)))
        ]
      ]
    ]

unfoldable pub build_export_sql : Text → List Text → List Text → List Text → Built
unfolding build_export_sql_typed
build_export_sql table all_keys paginate_keys last_values =
    build_export_sql_typed table all_keys paginate_keys last_values (λ _. [])
