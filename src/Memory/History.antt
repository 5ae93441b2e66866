-- ===== src/Memory/History.antt =====
-- The undo records of the memory adapter form a stack for each document: a rollback that is allowed
-- takes back exactly the transaction that it names.
mod Linked
mod Commits
mod Restores
pub mod Rollbacks
pub mod Reached
