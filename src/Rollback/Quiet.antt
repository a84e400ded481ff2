-- ===== src/Rollback/Quiet.antt =====
-- The actions of adt/rollback.go and adt/rollback_targets.go stop behind a 401.
pub mod Resolving
pub mod Restoring
pub mod Loops
pub mod Deleting
