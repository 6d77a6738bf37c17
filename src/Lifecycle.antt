-- ===== src/Lifecycle.antt =====
-- The small state machines of packages/core: a table of the next states that each state allows, and
-- a transition function that throws outside the table.
pub mod Backup
pub mod Authority
pub mod Trust
pub mod Laws
