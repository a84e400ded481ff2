-- ===== src/Rollback/Targets.antt =====
-- adt/rollback_targets.go: the unit of source that each entry of a transport stands for.
use adtler.Prelude.{
  ◌-◌, Bool, true, false, not, ◌&&◌, ◌||◌, List, [], ◌∷◌, ◌++◌, Option, none, some, leb, ◌==◌,
  if◌then◌else◌, any, length, take, drop, Text, codes, text_eq, has_prefix, trim_prefix, to_lower,
  trim_space, first_field,
}
use adtler.Sql.{escape_value}
use adtler.Adt.{
  GoError, is_unauthorized, Result, ok, err, TransportObject, Backend, run_query, Exec, pure,
  perform, attempt, ◌>>=◌,
}
use adtler.Rollback.Entries.{
  Reason, non_source_type, non_source_limu, unresolved_limu, not_r3tr_or_limu, generated_include,
  no_program, no_function_module, resolving, not_attempted, RollbackEntry, RollbackResult,
  add_failed, add_skipped, is_source_type, is_class_part, RollbackTarget, Resolution, target, skip,
}
use adtler.Rollback.Names.{split_namespace, adt_name, entry_of, r3tr_target, pool_include_target}

unfoldable pub pool_resolution : Option RollbackTarget → Resolution
pool_resolution none = skip unresolved_limu
pool_resolution (some t) = target t

-- The function group that a function pool SAPL<group> belongs to.
unfoldable pub pool_group : Text → Option Text
unfolding split_namespace has_prefix trim_prefix
pool_group pool =
    let (space, rest) = split_namespace pool in
    if has_prefix rest (codes "SAPL") then some (space ++ trim_prefix rest (codes "SAPL")) else none

unfoldable pub group_uri : Text → Text → Text → Text
unfolding adt_name
group_uri group part name =
    codes "/sap/bc/adt/functions/groups/" ++ (adt_name group ++ (part ++ adt_name name))

unfoldable pub module_target : Text → Option Text → Resolution
unfolding group_uri entry_of
module_target name none = skip unresolved_limu
module_target name (some group) = target (record {
  entry = entry_of (codes "FUNC") name;
  uri = group_uri group (codes "/fmodules/") name;
  tadir = false;
})

unfoldable pub group_target : Option Text → Resolution
unfolding r3tr_target
group_target none = skip unresolved_limu
group_target (some group) = r3tr_target (codes "FUGR") group

unfoldable pub include_target : Text → Resolution
unfolding adt_name entry_of
include_target name = target (record {
  entry = entry_of (codes "PROG") name;
  uri = codes "/sap/bc/adt/programs/includes/" ++ adt_name name;
  tadir = true;
})

unfoldable pub group_include_target : Text → Text → Option Text → Resolution
unfolding group_uri entry_of
group_include_target group name none = skip unresolved_limu
group_include_target group name (some found) = target (record {
  entry = entry_of (codes "REPS") name;
  uri = group_uri group (codes "/includes/") name;
  tadir = false;
})

unfoldable pub is_digit_pair : Text → Bool
is_digit_pair [] = false
is_digit_pair (a ∷ []) = false
is_digit_pair (a ∷ b ∷ []) = (leb b'0' a && leb a b'9') && (leb b'0' b && leb b b'9')
is_digit_pair (a ∷ b ∷ c ∷ s) = false

-- The trimmed first column of the first row.
unfoldable pub first_cell : List (List Text) → Option Text
unfolding trim_space
first_cell [] = none
first_cell ([] ∷ rows) = none
first_cell ((cell ∷ row) ∷ rows) = some (trim_space cell)

-- `obj = 'name'` with the name quoted
unfoldable pub equals_name : Text → Text → Text
unfolding escape_value
equals_name sql name = sql ++ (codes " = '" ++ (escape_value name ++ codes "'"))

module _ (b : Backend) where
  unfoldable pub query_one : Text → Exec (Option Text)
  unfolding perform first_cell pure ◌>>=◌
  query_one sql = do
    rows ← perform (run_query sql 1) (λ log. b.query log sql 1)
    pure (first_cell rows)

  unfoldable pub resolve_func : Text → Exec Resolution
  unfolding query_one equals_name pool_group module_target pure ◌>>=◌
  resolve_func name = do
    found ← query_one (equals_name (codes "SELECT PNAME FROM TFDIR WHERE FUNCNAME") name)
    elim found [
      | none ↦ pure (skip (no_function_module name))
      | some pool ↦ pure (module_target name (pool_group pool))
    ]

  unfoldable pub resolve_module_include : Text → Text → Exec Resolution
  unfolding is_digit_pair query_one equals_name resolve_func pure ◌>>=◌
  resolve_module_include pool number =
      if not (is_digit_pair number) then pure (skip generated_include) else do
        found ← query_one (
            equals_name (codes "SELECT FUNCNAME FROM TFDIR WHERE PNAME") pool
            ++ (codes " AND INCLUDE = '" ++ (number ++ codes "'")))
        elim found [ none ↦ pure (skip unresolved_limu) | some name ↦ resolve_func name ]

  -- A function group include: the name's part behind the namespace is `rest`.
  unfoldable pub resolve_group_include : Text → Text → Text → Exec Resolution
  unfolding resolve_module_include query_one equals_name group_include_target pure ◌>>=◌
  resolve_group_include name space rest =
      let group = take (length rest - 4) (drop 1 rest) in
      elim (drop (length rest - 3) rest) [
        -- not reached: the suffix has three characters
        | [] ↦ pure (skip unresolved_limu)
        | kind ∷ number ↦
            if kind == b'U'
            then resolve_module_include (space ++ (codes "SAPL" ++ group)) number
            else do
              found ← query_one (
                  equals_name
                    (codes
                      "SELECT OBJ_NAME FROM TADIR WHERE PGMID = 'R3TR' AND OBJECT = 'FUGR' AND OBJ_NAME")
                    (space ++ group))
              pure (group_include_target (space ++ group) name found)
      ]

  unfoldable pub resolve_include : Text → Exec Resolution
  unfolding query_one equals_name include_target split_namespace has_prefix resolve_group_include
      pure ◌>>=◌
  resolve_include name = do
    standalone ← query_one (
        equals_name
          (codes "SELECT OBJ_NAME FROM TADIR WHERE PGMID = 'R3TR' AND OBJECT = 'PROG' AND OBJ_NAME")
          name)
    elim standalone [
      | some found ↦ pure (include_target name)
      | none ↦
          let (space, rest) = split_namespace name in
          if not (has_prefix rest (codes "L")) || leb (length rest) 4
          then pure (skip unresolved_limu)
          else resolve_group_include name space rest
    ]

  -- The `switch` over TRDIR-SUBC.
  unfoldable pub resolve_program : Text → Text → Exec Resolution
  unfolding text_eq pool_group group_target resolve_include r3tr_target pure
  resolve_program name subc =
      if text_eq subc (codes "F")
      then pure (group_target (pool_group name))
      else if text_eq subc (codes "I")
      then resolve_include name
      else if any (text_eq subc) (codes "1" ∷ codes "M" ∷ codes "S" ∷ [])
      then pure (r3tr_target (codes "PROG") name)
      else pure (skip unresolved_limu)

  unfoldable pub resolve_reps : Text → Exec Resolution
  unfolding pool_include_target query_one equals_name resolve_program pure ◌>>=◌
  resolve_reps name = elim (pool_include_target name true) [
    | some t ↦ pure (target t)
    | none ↦ do
      subc ← query_one (equals_name (codes "SELECT SUBC FROM TRDIR WHERE NAME") name)
      elim subc [ none ↦ pure (skip (no_program name)) | some kind ↦ resolve_program name kind ]
  ]

  unfoldable pub resolve_limu : Text → Text → Exec Resolution
  unfolding is_class_part first_field r3tr_target text_eq pool_resolution pool_include_target
      resolve_reps resolve_func pure
  resolve_limu object_type name =
      if is_class_part object_type
      then elim (first_field name) [
        | none ↦ pure (skip unresolved_limu)
        | some owner ↦ pure (r3tr_target (codes "CLAS") owner)
      ]
      else if text_eq object_type (codes "CINC")
      then pure (pool_resolution (pool_include_target name false))
      else if text_eq object_type (codes "REPS")
      then resolve_reps name
      else if text_eq object_type (codes "FUNC")
      then resolve_func name
      else pure (skip non_source_limu)

  unfoldable pub resolve_rollback_target : TransportObject → Exec Resolution
  unfolding text_eq is_source_type r3tr_target resolve_limu trim_space pure
  resolve_rollback_target obj =
      if text_eq obj.pgm_id (codes "R3TR")
      then if not (is_source_type obj.object_type)
        then pure (skip non_source_type)
        else pure (r3tr_target obj.object_type obj.name)
      else if text_eq obj.pgm_id (codes "LIMU")
      then resolve_limu obj.object_type (trim_space obj.name)
      else pure (skip not_r3tr_or_limu)

-- The variables of rollbackTargets' loop.
pub record TargetScan : Type 0 where
  pub seen : List Text
  pub targets : List RollbackTarget
  pub partial : Bool
  pub rejected : Option GoError
  pub result : RollbackResult

unfoldable pub is_limu : TransportObject → Bool
unfolding text_eq
is_limu obj = text_eq obj.pgm_id (codes "LIMU")

unfoldable pub with_reason : TransportObject → Reason → RollbackEntry
with_reason obj r = record { object_type = obj.object_type; name = obj.name; reason = r }

unfoldable pub rejection : GoError → Option GoError
unfolding is_unauthorized
rejection e = if is_unauthorized e then some e else none

unfoldable pub note_target : TransportObject → Result Resolution → TargetScan → TargetScan
unfolding rejection is_limu with_reason add_failed add_skipped to_lower text_eq
note_target obj (err e) st = record st {
  rejected = rejection e;
  partial = st.partial || is_limu obj;
  result = add_failed (with_reason obj (resolving e)) st.result;
}
note_target obj (ok (skip r)) st = record st {
  partial = st.partial || is_limu obj;
  result = add_skipped (with_reason obj r) st.result;
}
note_target obj (ok (target t)) st =
    if any (text_eq (to_lower t.uri)) st.seen
    then st
    else record st { seen = to_lower t.uri ∷ st.seen; targets = st.targets ++ (t ∷ []) }

module _ (b : Backend) where
  unfoldable pub scan_object : TransportObject → TargetScan → Exec TargetScan
  unfolding text_eq with_reason add_failed resolve_rollback_target note_target attempt pure ◌>>=◌
  scan_object obj st = if text_eq obj.pgm_id (codes "CORR") then pure st else elim st.rejected [
    | some e ↦
        pure (record st { result = add_failed (with_reason obj (not_attempted e)) st.result })
    | none ↦ do r ← attempt (resolve_rollback_target b obj); pure (note_target obj r st)
  ]

  unfoldable pub scan_objects : List TransportObject → TargetScan → Exec TargetScan
  unfolding scan_object pure ◌>>=◌
  scan_objects [] st = pure st
  scan_objects (obj ∷ objs) st = do st' ← scan_object obj st; scan_objects objs st'

  unfoldable pub rollback_targets : List TransportObject → RollbackResult → Exec TargetScan
  unfolding scan_objects
  rollback_targets objects result =
      scan_objects objects
        (record { seen = []; targets = []; partial = false; rejected = none; result = result })
