-- ===== src/Rollback/Safety.antt =====
-- What the rollback of a transport may delete, and that it calls nothing behind a 401.
pub mod Resolved
pub mod Listed
pub mod Created
pub mod Origins
pub mod Calls
pub mod Unheeded
pub mod Deletes
