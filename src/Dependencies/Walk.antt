-- ===== src/Dependencies/Walk.antt =====
-- ddicChainDeps of adt/dependencies.go: the traversal of the types of the ABAP dictionary.
pub mod Kept
pub mod Once
pub mod Stopping
use adtler.Prelude.{
  ℕ, zero, suc, Bool, true, false, not, ◌&&◌, ◌||◌, List, [], ◌∷◌, ◌++◌, Option, none, some, leb,
  if◌then◌else◌, any, length, filter, map, Text, codes, text_eq,
}
use adtler.Transport.{QueryAnswer}
use adtler.Adt.{GoError, Result, ok, err, Log, Exec, pure, attempt, ◌>>=◌}
use adtler.Dependencies.{
  UseType, table, data_element, domain, ObjectDependency, UseTypes, type_of, build_sql_in_list,
  rows_of, unless_unauthorized, run, classify_ddic_objects,
}
use adtler.Dependencies.Chunks.{ddic_in_list_max_bytes, chunk_names}

-- The type and the name of an object.
abbrev pub QueueEntry : Type 0
QueueEntry = Text × Text

unfoldable pub key_of : QueueEntry → Text
key_of (obj_type, name) = obj_type ++ (b'|' ∷ name)

-- The warnings are the tables whose query failed or was capped.
pub record Traversal : Type 0 where
  pub visited : List Text
  pub deps : List ObjectDependency
  pub next : List QueueEntry
  pub warnings : List Text

unfoldable pub warn : Text → Traversal → Traversal
warn text w = record w { warnings = w.warnings ++ (text ∷ []) }

unfoldable pub add_dep : Text → Text → UseType → Traversal → Traversal
unfolding key_of text_eq
add_dep [] dep_type t w = w
add_dep (c ∷ name) dep_type t w =
    if any (text_eq (key_of (dep_type, c ∷ name))) w.visited then w else record {
      visited = w.visited ++ (key_of (dep_type, c ∷ name) ∷ []);
      deps = w.deps ++ (record { name = c ∷ name; use_type = t } ∷ []);
      next = w.next ++ ((dep_type, c ∷ name) ∷ []);
      warnings = w.warnings;
    }

abbrev pub ddic_max_field_rows : ℕ
ddic_max_field_rows = 2000

unfoldable pub add_fields : List (List Text) → Traversal → Traversal
unfolding add_dep
add_fields [] w = w
add_fields ((rollname ∷ checktable ∷ row) ∷ rows) w =
    add_fields rows
      (add_dep checktable (codes "TABL") table (add_dep rollname (codes "DTEL") data_element w))
add_fields (_ ∷ rows) w = add_fields rows w

-- The first cell of each row, of DD04L or DD01L.
unfoldable pub add_first : Text → UseType → List (List Text) → Traversal → Traversal
unfolding add_dep
add_first dep_type t [] w = w
add_first dep_type t ([] ∷ rows) w = add_first dep_type t rows w
add_first dep_type t ((name ∷ row) ∷ rows) w = add_first dep_type t rows (add_dep name dep_type t w)

-- DD40L's rows: the element types are added, the names of the structures are returned.
unfoldable pub add_element_types : List (List Text) → Traversal → Traversal
unfolding add_dep text_eq
add_element_types [] w = w
add_element_types ((name ∷ kind ∷ row) ∷ rows) w =
    add_element_types rows
      (if text_eq kind (codes "E") then add_dep name (codes "DTEL") data_element w else w)
add_element_types (_ ∷ rows) w = add_element_types rows w

unfoldable pub structure_names : List (List Text) → List Text
unfolding text_eq
structure_names [] = []
structure_names ((name ∷ kind ∷ row) ∷ rows) =
    let rest = structure_names rows in
    if not (text_eq name []) && text_eq kind (codes "S") then name ∷ rest else rest
structure_names (_ ∷ rows) = structure_names rows

unfoldable pub add_structures : UseTypes → List Text → Traversal → Traversal
unfolding add_dep type_of
add_structures types [] w = w
add_structures types (n ∷ names) w =
    add_structures types names (add_dep n (codes "TABL") (type_of n types) w)

unfoldable pub in_list_query : Text → List Text → Text
unfolding build_sql_in_list
in_list_query head names = head ++ (codes " IN (" ++ (build_sql_in_list names ++ codes ")"))

unfoldable pub warn_if_capped : List (List Text) → Traversal → Traversal
unfolding warn
warn_if_capped rows w =
    if leb ddic_max_field_rows (length rows)
    then warn (codes "DD03L result capped at 2000 rows; some field dependencies may be missing") w
    else w

unfoldable pub names_of_type : Text → List QueueEntry → List Text
unfolding filter text_eq
names_of_type obj_type current = map (λ e. e.1) (filter (λ e. text_eq e.0 obj_type) current)

abbrev pub TypeQuery : Type 0
TypeQuery = List Text → Traversal → Exec Traversal

unfoldable pub unless_none : List Text → TypeQuery → Traversal → Exec Traversal
unfolding pure
unless_none [] step w = pure w
unless_none (n ∷ names) step w = step (n ∷ names) w

-- The loop over the queries.
unfoldable pub query_types : List (Text × TypeQuery) → List QueueEntry → Traversal → Exec Traversal
unfolding unless_none names_of_type pure ◌>>=◌
query_types [] current w = pure w
query_types ((obj_type, step) ∷ queries) current w =
    unless_none (names_of_type obj_type current) step w >>= query_types queries current

module _ (query : Log → Text → ℕ → Result (Option QueryAnswer)) where
  -- One query for each chunk: its rows are added, its failure is a warning.
  unfoldable pub query_chunks :
      (List Text → Text)
      → (List Text → ℕ)
      → Text
      → (List (List Text) → Traversal → Traversal)
      → List (List Text)
      → Traversal
      → Exec Traversal
  unfolding run rows_of attempt unless_unauthorized warn pure ◌>>=◌
  query_chunks sql max_rows failed add [] w = pure w
  query_chunks sql max_rows failed add (chunk ∷ chunks) w =
      attempt (run query (sql chunk) (max_rows chunk)) >>= λ r. elim r [
        | ok qr ↦ query_chunks sql max_rows failed add chunks (add (rows_of qr) w)
        | err e ↦
            unless_unauthorized e (query_chunks sql max_rows failed add chunks (warn failed w))
      ]

  unfoldable pub ddic_query_tabl : List Text → Traversal → Exec Traversal
  unfolding query_chunks chunk_names in_list_query add_fields warn_if_capped
  ddic_query_tabl names =
      query_chunks (in_list_query (codes "SELECT ROLLNAME, CHECKTABLE FROM DD03L WHERE TABNAME"))
        (λ _. ddic_max_field_rows) (codes "DD03L query failed")
        (λ rows w. warn_if_capped rows (add_fields rows w))
        (chunk_names names ddic_in_list_max_bytes)

  unfoldable pub ddic_query_dtel : List Text → Traversal → Exec Traversal
  unfolding query_chunks chunk_names in_list_query add_first
  ddic_query_dtel names =
      query_chunks (in_list_query (codes "SELECT DOMNAME FROM DD04L WHERE ROLLNAME")) length
        (codes "DD04L query failed") (add_first (codes "DOMA") domain)
        (chunk_names names ddic_in_list_max_bytes)

  unfoldable pub ddic_query_doma : List Text → Traversal → Exec Traversal
  unfolding query_chunks chunk_names in_list_query add_first
  ddic_query_doma names =
      query_chunks (in_list_query (codes "SELECT ENTITYTAB FROM DD01L WHERE DOMNAME")) length
        (codes "DD01L query failed") (add_first (codes "TABL") table)
        (chunk_names names ddic_in_list_max_bytes)

  -- ddicQueryTtyp's first loop, with the names of the structures so far.
  unfoldable pub query_row_types :
      List (List Text) → List Text → Traversal → Exec (List Text × Traversal)
  unfolding run in_list_query rows_of add_element_types structure_names attempt unless_unauthorized
      warn pure ◌>>=◌
  query_row_types [] structures w = pure (structures, w)
  query_row_types (chunk ∷ chunks) structures w =
      attempt (
        run query (in_list_query (codes "SELECT ROWTYPE, ROWKIND FROM DD40L WHERE TYPENAME") chunk)
          (length chunk))
      >>= λ r. elim r [
        | ok qr ↦
            query_row_types chunks (structures ++ structure_names (rows_of qr))
              (add_element_types (rows_of qr) w)
        | err e ↦
            unless_unauthorized e
              (query_row_types chunks structures (warn (codes "DD40L query failed") w))
      ]

  unfoldable pub classify_chunks : List (List Text) → Traversal → Exec Traversal
  unfolding classify_ddic_objects add_structures pure ◌>>=◌
  classify_chunks [] w = pure w
  classify_chunks (chunk ∷ chunks) w = classify_ddic_objects query chunk >>= λ types.
      classify_chunks chunks (add_structures types chunk w)

  unfoldable pub ddic_query_ttyp : List Text → Traversal → Exec Traversal
  unfolding query_row_types classify_chunks chunk_names ◌>>=◌
  ddic_query_ttyp names w =
      query_row_types (chunk_names names ddic_in_list_max_bytes) [] w >>= λ (structures, w').
      classify_chunks (chunk_names structures ddic_in_list_max_bytes) w'

  unfoldable pub queries : List (Text × TypeQuery)
  unfolding ddic_query_tabl ddic_query_dtel ddic_query_doma ddic_query_ttyp
  queries =
      (codes "TABL", ddic_query_tabl)
      ∷ (codes "DTEL", ddic_query_dtel)
      ∷ (codes "DOMA", ddic_query_doma)
      ∷ (codes "TTYP", ddic_query_ttyp)
      ∷ []

  -- One round of the loop.
  unfoldable pub query_level : List QueueEntry → Traversal → Exec Traversal
  unfolding query_types queries
  query_level = query_types queries

  unfoldable pub chain : ℕ → List QueueEntry → Traversal → Exec Traversal
  unfolding query_level pure ◌>>=◌
  chain zero current w = pure w
  chain (suc depth) [] w = pure w
  chain (suc depth) (e ∷ current) w =
      query_level (e ∷ current) (record w { next = [] }) >>= λ w'. chain depth w'.next w'

  unfoldable pub ddic_chain_deps : Text → Text → ℕ → Exec Traversal
  unfolding chain key_of
  ddic_chain_deps name obj_type max_depth =
      chain max_depth ((obj_type, name) ∷ [])
        (record { visited = key_of (obj_type, name) ∷ []; deps = []; next = []; warnings = [] })
