-- ===== src/Rollback/Safety/Resolved.antt =====
-- The resolution of a transport's entries does not depend on earlier calls where the queries do not.
use adtler.Prelude.{ℕ, ◌≡◌, ◌∙◌, sym, [], ◌-◌, first_field, true, length, drop, Text}
use adtler.Adt.{Backend, run_query, TransportObject, Log}
use adtler.Adt.Steady.{
  Steady, steady_rules, Steady-pure, Steady-bind, Steady-if, Steady-option, Steady-list,
  Steady-perform,
}
use adtler.Rollback.Names.{pool_include_target}
use adtler.Rollback.Targets.{
  query_one, resolve_func, resolve_module_include, resolve_group_include, resolve_include,
  resolve_program, resolve_reps, resolve_limu, resolve_rollback_target,
}

module _ (b : Backend)
    (same_rows : (log : Log) (sql : Text) (rows : ℕ)
      → b.query log sql rows ≡ b.query [] sql rows) where
  query_one-Steady : (sql : Text) → Steady (query_one b sql)
  unfolding query_one
  query_one-Steady sql =
      Steady-bind _ _
        (Steady-perform (run_query sql 1) (λ log. b.query log sql 1)
          (λ log log'. same_rows log sql 1 ∙ sym (same_rows log' sql 1)))
        (λ rows. Steady-pure _)

  resolve_func-Steady : (name : Text) → Steady (resolve_func b name)
  unfolding resolve_func
  resolve_func-Steady name =
      Steady-bind _ _ (query_one-Steady _)
        (λ found. Steady-option found _ _ (Steady-pure _) (λ pool. Steady-pure _))

  resolve_module_include-Steady :
      (pool number : Text) → Steady (resolve_module_include b pool number)
  unfolding resolve_module_include
  resolve_module_include-Steady pool number = Steady-if _ _ _ (Steady-pure _) (
      Steady-bind _ _ (query_one-Steady _)
        (λ found. Steady-option found _ _ (Steady-pure _) (λ name. resolve_func-Steady name)))

  resolve_group_include-Steady :
      (name space rest : Text) → Steady (resolve_group_include b name space rest)
  unfolding resolve_group_include
  resolve_group_include-Steady name space rest =
      Steady-list (drop (length rest - 3) rest) _ _ (Steady-pure _)
        (λ kind number. search (steady_rules, query_one-Steady, resolve_module_include-Steady))

  resolve_include-Steady : (name : Text) → Steady (resolve_include b name)
  unfolding resolve_include
  resolve_include-Steady name = Steady-bind _ _ (query_one-Steady _) (λ found.
      Steady-option found _ _ (search (steady_rules, resolve_group_include-Steady))
        (λ _. Steady-pure _))

  resolve_program-Steady : (name subc : Text) → Steady (resolve_program b name subc)
  unfolding resolve_program
  resolve_program-Steady name subc = search (steady_rules, resolve_include-Steady)

  resolve_reps-Steady : (name : Text) → Steady (resolve_reps b name)
  unfolding resolve_reps
  resolve_reps-Steady name =
      Steady-option (pool_include_target name true) _ _
        (Steady-bind _ _ (query_one-Steady _) (λ subc.
          Steady-option subc _ _ (Steady-pure _) (λ kind. resolve_program-Steady name kind)))
        (λ t. Steady-pure _)

  resolve_limu-Steady : (object_type name : Text) → Steady (resolve_limu b object_type name)
  unfolding resolve_limu
  resolve_limu-Steady object_type name =
      Steady-if _ _ _
        (Steady-option (first_field name) _ _ (Steady-pure _) (λ owner. Steady-pure _))
        (Steady-if _ _ _ (Steady-pure _) (
          Steady-if _ _ _ (resolve_reps-Steady name)
            (Steady-if _ _ _ (resolve_func-Steady name) (Steady-pure _))))

  pub resolve_rollback_target-Steady :
      (obj : TransportObject) → Steady (resolve_rollback_target b obj)
  unfolding resolve_rollback_target
  resolve_rollback_target-Steady obj = search (steady_rules, resolve_limu-Steady)
