-- ===== src/Dependencies/Objects.antt =====
-- GetObjectDependencies of adt/dependencies.go: the lookups of each kind of object.
pub mod Quiet
use adtler.Prelude.{
  ℕ, zero, suc, Bool, true, false, not, ◌&&◌, ◌||◌, List, [], ◌∷◌, ◌++◌, Option, none, some, ltb,
  if◌then◌else◌, length, map, take, Text, codes, text_eq, join, to_upper,
}
use adtler.Sql.{escape_value}
use adtler.Transport.{QueryAnswer, cell}
use adtler.Adt.{GoError, plain, Result, ok, err, Log, Exec, pure, raise, wrap_error, ◌>>=◌}
use adtler.Dependencies.{
  UseType, ui_app, transaction, web_dynpro_app, web_client_target, ui5_app, ObjectDependency,
  UseTypes, type_of, oo_rel_type_to_use_type, build_sql_in_list, fugr_pool_program_name,
  pool_program_name, rows_of, first_cells, run, classify_ddic_objects,
}
use adtler.Dependencies.Walk.{Traversal, ddic_chain_deps}

pub record DependencyResult : Type 0 where
  pub object_type : Text
  pub object_name : Text
  pub count : ℕ
  pub dependencies : List ObjectDependency
  pub warnings : List Text

unfoldable pub new_dependency_result :
    Text → Text → List ObjectDependency → List Text → DependencyResult
new_dependency_result object_type object_name deps warnings = record {
  object_type = object_type;
  object_name = object_name;
  count = length deps;
  dependencies = deps;
  warnings = warnings;
}

-- A statement that ends with a value as a literal.
unfoldable pub lookup_query : Text → Text → Text
unfolding escape_value
lookup_query head value = head ++ (codes " = '" ++ (escape_value value ++ codes "'"))

abbrev pub seometarel_max_rows : ℕ
seometarel_max_rows = 100

abbrev pub dependency_max_depth_ceiling : ℕ
dependency_max_depth_ceiling = 10

-- uiadTargetColumns
abbrev pub uiad_target_columns : List (Text × UseType)
uiad_target_columns =
    (codes "TCODE", transaction)
    ∷ (codes "WD_APPL_ID", web_dynpro_app)
    ∷ (codes "WCF_TARGET_ID", web_client_target)
    ∷ (codes "UI5_APP_ID", ui5_app)
    ∷ []

unfoldable pub relations : List (List Text) → List ObjectDependency
unfolding oo_rel_type_to_use_type text_eq
relations [] = []
relations ((name ∷ kind ∷ row) ∷ rows) =
    let rest = relations rows in
    if text_eq name []
    then rest
    else record { name = name; use_type = oo_rel_type_to_use_type kind } ∷ rest
relations (_ ∷ rows) = relations rows

unfoldable pub unless_blank : Text → UseType → List ObjectDependency → List ObjectDependency
unless_blank [] t deps = deps
unless_blank (c ∷ name) t deps = record { name = c ∷ name; use_type = t } ∷ deps

unfoldable pub apps : QueryAnswer → List (List Text) → List ObjectDependency
unfolding cell unless_blank
apps qr [] = []
apps qr (row ∷ rows) = unless_blank (cell qr row (codes "APP_ID")) ui_app (apps qr rows)

unfoldable pub targets : QueryAnswer → List Text → List (Text × UseType) → List ObjectDependency
unfolding cell unless_blank
targets qr row [] = []
targets qr row ((column, t) ∷ columns) =
    unless_blank (cell qr row column) t (targets qr row columns)

unfoldable pub uiac_result : Option QueryAnswer → List ObjectDependency × List Text
unfolding apps
uiac_result none = ([], [])
uiac_result (some qr) = (
  apps qr qr.rows,
  if ltb (length qr.rows) qr.total_rows then codes "output truncated" ∷ [] else [],
)

unfoldable pub launch_targets : Text → List ObjectDependency → List ObjectDependency × List Text
launch_targets app_type [] = ([], (codes "app entry has no launch target" ++ app_type) ∷ [])
launch_targets app_type (d ∷ deps) = (d ∷ deps, [])

unfoldable pub uiad_row : QueryAnswer → List (List Text) → List ObjectDependency × List Text
unfolding cell targets launch_targets
uiad_row qr [] = ([], codes "no SUI_TM_MM_APP entry" ∷ [])
uiad_row qr (row ∷ rows) =
    launch_targets (cell qr row (codes "APP_TYPE")) (targets qr row uiad_target_columns)

unfoldable pub uiad_result : Option QueryAnswer → List ObjectDependency × List Text
unfolding uiad_row
uiad_result none = ([], codes "no SUI_TM_MM_APP entry" ∷ [])
uiad_result (some qr) = uiad_row qr qr.rows

unfoldable pub cap_results :
    ℕ → List ObjectDependency × List Text → List ObjectDependency × List Text
cap_results max_results (deps, warnings) =
    if ltb 0 max_results && ltb max_results (length deps)
    then (take max_results deps, warnings ++ (codes "output truncated" ∷ []))
    else (deps, warnings)

unfoldable pub clamp_depth : ℕ → ℕ
clamp_depth depth =
    let low = if ltb depth 1 then 1 else depth in
    if ltb dependency_max_depth_ceiling low then dependency_max_depth_ceiling else low

unfoldable pub is_ddic_type : Text → Bool
unfolding text_eq
is_ddic_type t =
    text_eq t (codes "TABL")
    || (text_eq t (codes "DTEL") || (text_eq t (codes "DOMA") || text_eq t (codes "TTYP")))

module _ (query : Log → Text → ℕ → Result (Option QueryAnswer)) where
  unfoldable pub typed_deps : List Text → Exec (List ObjectDependency)
  unfolding classify_ddic_objects type_of pure ◌>>=◌
  typed_deps [] = pure []
  typed_deps (n ∷ names) = classify_ddic_objects query (n ∷ names) >>= λ types.
      pure (map (λ m. record { name = m; use_type = type_of m types }) (n ∷ names))

  unfoldable pub d010tab_deps : Text → ℕ → Exec (List ObjectDependency)
  unfolding run lookup_query rows_of first_cells typed_deps ◌>>=◌
  d010tab_deps master max_results =
      run query
        (lookup_query (codes "SELECT TABNAME FROM D010TAB WHERE MASTER") master
          ++ codes " ORDER BY TABNAME")
        max_results
      >>= λ qr. typed_deps (first_cells (rows_of qr))

  unfoldable pub oo_deps : Text → List Text → Exec (List ObjectDependency)
  unfolding run lookup_query build_sql_in_list rows_of relations pure ◌>>=◌
  oo_deps cls_name rel_types =
      run query
        (lookup_query (codes "SELECT REFCLSNAME, RELTYPE FROM SEOMETAREL WHERE CLSNAME") cls_name
          ++ (codes " AND RELTYPE IN ("
              ++ (build_sql_in_list rel_types ++ codes ") ORDER BY RELTYPE, REFCLSNAME")))
        seometarel_max_rows
      >>= λ qr. pure (relations (rows_of qr))

  unfoldable pub pool_of_rows : Text → List (List Text) → Exec Text
  unfolding raise pure
  pool_of_rows func_name (((c ∷ name) ∷ row) ∷ rows) = pure (c ∷ name)
  pool_of_rows func_name _ = raise (plain (func_name ++ codes " not found in TFDIR"))

  unfoldable pub func_pool_program_name : Text → Exec Text
  unfolding run lookup_query rows_of pool_of_rows wrap_error ◌>>=◌
  func_pool_program_name func_name =
      wrap_error (codes "looking up function module in TFDIR")
        (run query (lookup_query (codes "SELECT PNAME FROM TFDIR WHERE FUNCNAME") func_name) 1)
      >>= λ qr. pool_of_rows func_name (rows_of qr)

  unfoldable pub class_deps : Text → Text → List Text → ℕ → Exec (List ObjectDependency)
  unfolding d010tab_deps pool_program_name oo_deps pure ◌>>=◌
  class_deps suffix name rel_types max_results = do
    ddic ← d010tab_deps (pool_program_name suffix name) max_results
    oo ← oo_deps name rel_types
    pure (ddic ++ oo)

  unfoldable pub uiac_deps : Text → ℕ → Exec (List ObjectDependency × List Text)
  unfolding run lookup_query uiac_result pure ◌>>=◌
  uiac_deps cat_id max_results =
      run query
        (lookup_query (codes "SELECT APP_ID FROM SUI_TM_MM_APP WHERE CAT_ID") cat_id
          ++ codes " ORDER BY APP_ID")
        max_results
      >>= λ qr. pure (uiac_result qr)

  unfoldable pub uiad_deps : Text → Exec (List ObjectDependency × List Text)
  unfolding run lookup_query join uiad_result pure ◌>>=◌
  uiad_deps app_id =
      run query
        (lookup_query
          (codes "SELECT "
            ++ (join (codes "APP_TYPE" ∷ map (λ t. t.0) uiad_target_columns) (codes ", ")
                ++ codes " FROM SUI_TM_MM_APP WHERE APP_ID"))
          app_id)
        1
      >>= λ qr. pure (uiad_result qr)

  unfoldable pub capped_chain : Text → Text → ℕ → ℕ → Exec (List ObjectDependency × List Text)
  unfolding ddic_chain_deps clamp_depth cap_results pure ◌>>=◌
  capped_chain obj_type name max_results max_depth =
      ddic_chain_deps query name obj_type (clamp_depth max_depth) >>= λ w.
      pure (cap_results max_results (w.deps, w.warnings))

  unfoldable pub without_warnings :
      Exec (List ObjectDependency) → Exec (List ObjectDependency × List Text)
  unfolding pure ◌>>=◌
  without_warnings m = m >>= λ deps. pure (deps, [])

  unfoldable pub deps_of_type : Text → Text → ℕ → ℕ → Exec (List ObjectDependency × List Text)
  unfolding text_eq without_warnings d010tab_deps fugr_pool_program_name func_pool_program_name
      class_deps uiac_deps uiad_deps is_ddic_type capped_chain raise ◌>>=◌
  deps_of_type obj_type name max_results max_depth =
      if text_eq obj_type (codes "PROG")
      then without_warnings (d010tab_deps name max_results)
      else if text_eq obj_type (codes "FUGR")
      then without_warnings (d010tab_deps (fugr_pool_program_name name) max_results)
      else if text_eq obj_type (codes "FUNC")
      then without_warnings
          (func_pool_program_name name >>= λ master. d010tab_deps master max_results)
      else if text_eq obj_type (codes "CLAS")
      then without_warnings (class_deps (codes "CP") name (codes "1" ∷ codes "2" ∷ []) max_results)
      else if text_eq obj_type (codes "INTF")
      then without_warnings (class_deps (codes "IP") name (codes "0" ∷ []) max_results)
      else if text_eq obj_type (codes "UIAC")
      then uiac_deps name max_results
      else if text_eq obj_type (codes "UIAD")
      then uiad_deps name
      else if is_ddic_type obj_type
      then capped_chain obj_type name max_results max_depth
      else raise (plain (codes "unsupported object type " ++ obj_type))

  unfoldable pub get_object_dependencies : Text → Text → ℕ → ℕ → Exec DependencyResult
  unfolding to_upper deps_of_type new_dependency_result pure ◌>>=◌
  get_object_dependencies object_type object_name max_results max_depth =
      deps_of_type (to_upper object_type) object_name max_results max_depth >>= λ (deps, warnings).
      pure (new_dependency_result (to_upper object_type) object_name deps warnings)
