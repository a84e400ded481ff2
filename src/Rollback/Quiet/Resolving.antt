-- ===== src/Rollback/Quiet/Resolving.antt =====
-- The resolution of a transport's entries stops behind a 401, and deletes nothing.
use adtler.Prelude.{◌≡◌, refl, ◌-◌, first_field, true, false, length, drop, Text}
use adtler.Adt.{Backend, Call, run_query, TransportObject}
use adtler.Adt.Stops.{Policy, is_delete, Stops, stops_rules, Stops-pure, Stops-bind, Stops-if}
use adtler.Adt.Handling.{Stops-option, Stops-list}
use adtler.Rollback.Names.{pool_include_target}
use adtler.Rollback.Targets.{
  query_one, resolve_func, resolve_module_include, resolve_group_include, resolve_include,
  resolve_program, resolve_reps, resolve_limu, resolve_rollback_target,
}

module _ (b : Backend) (P : Policy) (spares : (c : Call) → is_delete c ≡ false → P.allows c) where
  pub query_one-Stops : (sql : Text) → Stops P (query_one b sql)
  unfolding query_one is_delete
  query_one-Stops sql = search (stops_rules, spares (run_query sql 1) refl)

  pub resolve_func-Stops : (name : Text) → Stops P (resolve_func b name)
  unfolding resolve_func
  resolve_func-Stops name =
      Stops-bind P _ _ (query_one-Stops _)
        (λ found. Stops-option P found _ _ (Stops-pure P _) (λ pool. Stops-pure P _))

  pub resolve_module_include-Stops :
      (pool number : Text) → Stops P (resolve_module_include b pool number)
  unfolding resolve_module_include
  resolve_module_include-Stops pool number = Stops-if P _ _ _ (Stops-pure P _) (
      Stops-bind P _ _ (query_one-Stops _)
        (λ found. Stops-option P found _ _ (Stops-pure P _) (λ name. resolve_func-Stops name)))

  pub resolve_group_include-Stops :
      (name space rest : Text) → Stops P (resolve_group_include b name space rest)
  unfolding resolve_group_include
  resolve_group_include-Stops name space rest =
      Stops-list P (drop (length rest - 3) rest) _ _ (Stops-pure P _)
        (λ kind number. search (stops_rules, query_one-Stops, resolve_module_include-Stops))

  pub resolve_include-Stops : (name : Text) → Stops P (resolve_include b name)
  unfolding resolve_include
  resolve_include-Stops name = Stops-bind P _ _ (query_one-Stops _) (λ found.
      Stops-option P found _ _ (search (stops_rules, resolve_group_include-Stops))
        (λ _. Stops-pure P _))

  pub resolve_program-Stops : (name subc : Text) → Stops P (resolve_program b name subc)
  unfolding resolve_program
  resolve_program-Stops name subc = search (stops_rules, resolve_include-Stops)

  pub resolve_reps-Stops : (name : Text) → Stops P (resolve_reps b name)
  unfolding resolve_reps
  resolve_reps-Stops name =
      Stops-option P (pool_include_target name true) _ _
        (Stops-bind P _ _ (query_one-Stops _) (λ subc.
          Stops-option P subc _ _ (Stops-pure P _) (λ kind. resolve_program-Stops name kind)))
        (λ t. Stops-pure P _)

  pub resolve_limu-Stops : (object_type name : Text) → Stops P (resolve_limu b object_type name)
  unfolding resolve_limu
  resolve_limu-Stops object_type name =
      Stops-if P _ _ _
        (Stops-option P (first_field name) _ _ (Stops-pure P _) (λ owner. Stops-pure P _))
        (Stops-if P _ _ _ (Stops-pure P _) (
          Stops-if P _ _ _ (resolve_reps-Stops name)
            (Stops-if P _ _ _ (resolve_func-Stops name) (Stops-pure P _))))

  pub resolve_rollback_target-Stops :
      (obj : TransportObject) → Stops P (resolve_rollback_target b obj)
  unfolding resolve_rollback_target
  resolve_rollback_target-Stops obj = search (stops_rules, resolve_limu-Stops)
