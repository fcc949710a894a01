-- ===== src/Dlt/Groups.antt =====
-- The groups of dead-lettered records with one fingerprint, src/dlt/group_store.py.
pub mod Records
pub mod Reading
pub mod Bounds
pub mod Writing
pub mod Recording
pub mod Counting
mod Examples
