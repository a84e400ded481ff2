-- ===== src/Rollback.antt =====
-- adt/rollback.go and adt/rollback_targets.go: putting the objects of a transport back to their state
-- before it.
pub mod Entries
pub mod Names
pub mod Targets
pub mod Versions
pub mod Restore
pub mod Deletion
pub mod Transport
pub mod Quiet
pub mod Safety
pub mod Accounting
