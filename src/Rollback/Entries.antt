-- ===== src/Rollback/Entries.antt =====
-- The result of a rollback. A reason is kept as what it is made of, not as its text.
use adtler.Prelude.{Bool, List, [], ◌∷◌, ◌++◌, any, Text, codes, text_eq}
use adtler.Adt.{GoError}

pub data Reason : Type 0 where
  no_reason : Reason
  -- why an entry has no source that a rollback restores
  non_source_type non_source_limu unresolved_limu not_r3tr_or_limu generated_include : Reason
  unsupported_type no_program no_function_module : Text → Reason
  -- why a restore has failed or has not been tried
  resolving restore_failed not_attempted : GoError → Reason
  -- why a created object is left in place
  created_kept created_restore_err created_sub_objects created_sub_object : Reason
  not_deleted origin_unread : GoError → Reason
  foreign_origin : Text → Reason
  -- why a deletion has failed
  delete_failed delete_not_attempted : GoError → Reason
  not_retried : GoError → GoError → Reason
  -- `rejected.Error()` without an error, which panics
  nil_error : Reason

pub record RollbackEntry : Type 0 where
  pub object_type : Text
  pub name : Text
  pub reason : Reason

pub record RollbackResult : Type 0 where
  pub restored : List RollbackEntry
  pub skipped : List RollbackEntry
  pub failed : List RollbackEntry
  pub created : List RollbackEntry
  pub deleted : List RollbackEntry

abbrev pub no_result : RollbackResult
no_result = record { restored = []; skipped = []; failed = []; created = []; deleted = [] }

unfoldable pub add_restored : RollbackEntry → RollbackResult → RollbackResult
add_restored e r = record r { restored = r.restored ++ (e ∷ []) }

unfoldable pub add_skipped : RollbackEntry → RollbackResult → RollbackResult
add_skipped e r = record r { skipped = r.skipped ++ (e ∷ []) }

unfoldable pub add_failed : RollbackEntry → RollbackResult → RollbackResult
add_failed e r = record r { failed = r.failed ++ (e ∷ []) }

unfoldable pub add_created : RollbackEntry → RollbackResult → RollbackResult
add_created e r = record r { created = r.created ++ (e ∷ []) }

unfoldable pub add_deleted : RollbackEntry → RollbackResult → RollbackResult
add_deleted e r = record r { deleted = r.deleted ++ (e ∷ []) }

-- rollbackSourceTypes
unfoldable pub is_source_type : Text → Bool
unfolding text_eq
is_source_type t = any (text_eq t) (codes "PROG" ∷ codes "CLAS" ∷ codes "INTF" ∷ codes "FUGR" ∷ [])

-- limuClassParts
unfoldable pub is_class_part : Text → Bool
unfolding text_eq
is_class_part t =
    any (text_eq t) (codes "METH" ∷ codes "CPUB" ∷ codes "CPRI" ∷ codes "CPRO" ∷ codes "CLSD" ∷ [])

-- A unit of source that is restored. `tadir` tells that the entry is an R3TR object.
pub record RollbackTarget : Type 0 where
  pub entry : RollbackEntry
  pub uri : Text
  pub tadir : Bool

-- A target, or the reason why there is none.
pub data Resolution : Type 0 where
  target : RollbackTarget → Resolution
  skip : Reason → Resolution
