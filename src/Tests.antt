-- ===== src/Tests.antt =====
-- Tests of the definitions, and each property at an input that meets its hypotheses.
mod Wrap
mod Export
mod Patch
mod Token
mod Lock
mod TextElements
mod Dependencies
mod Errors
mod Redirect
mod Release
mod Rollback
mod Session
mod Transport
