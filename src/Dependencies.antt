-- ===== src/Dependencies.antt =====
-- adt/dependencies.go: what an object refers to. The queries' texts, the use types, and the lookups
-- that need no traversal. A query is a parameter, a function of the calls made before.
pub mod Chunks
pub mod Walk
pub mod Objects
use adtler.Prelude.{
  ℕ, zero, suc, ◌+◌, ◌-◌, Bool, true, false, not, ◌&&◌, ◌||◌, List, [], ◌∷◌, ◌++◌, Option, none,
  some, ltb, leb, ◌==◌, if◌then◌else◌, length, filter, map, Text, codes, text_eq, join, cut_at,
  replicate,
}
use adtler.Sql.{escape_value}
use adtler.Transport.{QueryAnswer}
use adtler.Adt.{
  GoError, plain, is_unauthorized, Result, ok, err, Log, run_query, Exec, pure, raise, perform,
  wrap_error, attempt, ◌>>=◌,
}

-- no_use_type is "".
pub data UseType : Type 0 where
  table structure data_element domain view table_type interface superclass unknown : UseType
  ui_app transaction web_dynpro_app web_client_target ui5_app no_use_type : UseType

pub record ObjectDependency : Type 0 where
  pub name : Text
  pub use_type : UseType

-- classifyDDICObjects' map; the entry put last stands first.
abbrev pub UseTypes : Type 0
UseTypes = List (Text × UseType)

unfoldable pub type_of : Text → UseTypes → UseType
unfolding text_eq
type_of name [] = no_use_type
type_of name ((n, t) ∷ types) = if text_eq n name then t else type_of name types

unfoldable pub is_unknown : UseType → Bool
is_unknown unknown = true
is_unknown _ = false

unfoldable pub all_unknown : List Text → UseTypes
all_unknown [] = []
all_unknown (n ∷ names) = (n, unknown) ∷ all_unknown names

unfoldable pub tabclass_to_use_type : Text → UseType
unfolding text_eq
tabclass_to_use_type c =
    if text_eq c (codes "TRANSP")
    then table
    else if text_eq c (codes "INTTAB")
    then structure
    else if text_eq c (codes "CLUSTER") || text_eq c (codes "POOL")
    then table
    else if text_eq c (codes "VIEW")
    then view
    else unknown

unfoldable pub tadir_use_type : Text → Option UseType
unfolding text_eq
tadir_use_type c =
    if text_eq c (codes "DTEL")
    then some data_element
    else if text_eq c (codes "DOMA")
    then some domain
    else if text_eq c (codes "TTYP")
    then some table_type
    else if text_eq c (codes "VIEW")
    then some view
    else none

unfoldable pub oo_rel_type_to_use_type : Text → UseType
unfolding text_eq
oo_rel_type_to_use_type c =
    if text_eq c (codes "0") || text_eq c (codes "1")
    then interface
    else if text_eq c (codes "2")
    then superclass
    else unknown

-- DD02L's rows of a name and a class; shorter rows are passed over.
unfoldable pub add_classes : List (List Text) → UseTypes → UseTypes
unfolding tabclass_to_use_type
add_classes [] types = types
add_classes ((name ∷ tabclass ∷ row) ∷ rows) types =
    add_classes rows ((name, tabclass_to_use_type tabclass) ∷ types)
add_classes (_ ∷ rows) types = add_classes rows types

unfoldable pub add_tadir : Text → Option UseType → UseTypes → UseTypes
add_tadir name none types = types
add_tadir name (some t) types = (name, t) ∷ types

unfoldable pub add_objects : List (List Text) → UseTypes → UseTypes
unfolding tadir_use_type add_tadir
add_objects [] types = types
add_objects ((object ∷ name ∷ row) ∷ rows) types =
    add_objects rows (add_tadir name (tadir_use_type object) types)
add_objects (_ ∷ rows) types = add_objects rows types

unfoldable pub quoted : Text → Text
unfolding escape_value
quoted n = b'\'' ∷ (escape_value n ++ b'\'' ∷ [])

unfoldable pub build_sql_in_list : List Text → Text
unfolding quoted join
build_sql_in_list names = join (map quoted names) (codes ",")

unfoldable pub fugr_pool_program_name : Text → Text
unfolding cut_at
fugr_pool_program_name [] = codes "SAPL"
fugr_pool_program_name (c ∷ name) =
    if c == b'/'
    then elim (cut_at b'/' name) [
      | some (namespace, local) ↦ b'/' ∷ (namespace ++ (b'/' ∷ (codes "SAPL" ++ local)))
      | none ↦ codes "SAPL" ++ (c ∷ name)
    ]
    else codes "SAPL" ++ (c ∷ name)

abbrev pub pad_len : ℕ
pad_len = 30

-- classPoolProgramName and intfPoolProgramName, by their suffix
unfoldable pub pool_program_name : Text → Text → Text
unfolding replicate
pool_program_name suffix name =
    if leb pad_len (length name)
    then name ++ suffix
    else name ++ (replicate (pad_len - length name) b'=' ++ suffix)

-- A query without a result has no rows.
unfoldable pub rows_of : Option QueryAnswer → List (List Text)
rows_of none = []
rows_of (some qr) = qr.rows

-- The first cell of each row, where it is there and not empty.
unfoldable pub first_cells : List (List Text) → List Text
first_cells [] = []
first_cells ([] ∷ rows) = first_cells rows
first_cells (([] ∷ row) ∷ rows) = first_cells rows
first_cells (((c ∷ name) ∷ row) ∷ rows) = (c ∷ name) ∷ first_cells rows

unfoldable pub dd02l_query : List Text → Text
unfolding build_sql_in_list
dd02l_query names =
    codes "SELECT TABNAME, TABCLASS FROM DD02L WHERE TABNAME IN ("
    ++ (build_sql_in_list names ++ codes ")")

unfoldable pub tadir_query : List Text → Text
unfolding build_sql_in_list
tadir_query names =
    codes "SELECT OBJECT, OBJ_NAME FROM TADIR WHERE PGMID = 'R3TR' AND OBJ_NAME IN ("
    ++ (build_sql_in_list names ++ codes ")")

unfoldable pub unknown_names : List Text → UseTypes → List Text
unfolding filter is_unknown type_of
unknown_names names types = filter (λ n. is_unknown (type_of n types)) names

-- A 401 is returned; any other error is passed over.
unfoldable pub unless_unauthorized : {A : Type 0} → GoError → Exec A → Exec A
unfolding is_unauthorized raise
unless_unauthorized e m = if is_unauthorized e then raise e else m

module _ (query : Log → Text → ℕ → Result (Option QueryAnswer)) where
  unfoldable pub run : Text → ℕ → Exec (Option QueryAnswer)
  unfolding perform
  run sql rows = perform (run_query sql rows) (λ log. query log sql rows)

  unfoldable pub read_tadir : UseTypes → List Text → Exec UseTypes
  unfolding run tadir_query attempt rows_of add_objects unless_unauthorized pure ◌>>=◌
  read_tadir types [] = pure types
  read_tadir types (n ∷ names) =
      attempt (run (tadir_query (n ∷ names)) (length (n ∷ names))) >>= λ r. elim r [
        | ok qr ↦ pure (add_objects (rows_of qr) types)
        | err e ↦ unless_unauthorized e (pure types)
      ]

  unfoldable pub read_rest : List Text → UseTypes → Exec UseTypes
  unfolding read_tadir unknown_names
  read_rest names types = read_tadir types (unknown_names names types)

  unfoldable pub classify_ddic_objects : List Text → Exec UseTypes
  unfolding run dd02l_query attempt rows_of add_classes all_unknown read_rest unless_unauthorized
      ◌>>=◌
  classify_ddic_objects names = attempt (run (dd02l_query names) (length names)) >>= λ r. elim r [
    | ok qr ↦ read_rest names (add_classes (rows_of qr) (all_unknown names))
    | err e ↦ unless_unauthorized e (read_rest names (all_unknown names))
  ]
