-- ===== src/Rollback/Accounting.antt =====
-- Every entry and every object of a rollback ends in one list of its result.
pub mod Deleting
pub mod Report
pub mod Targets
pub mod Whole
