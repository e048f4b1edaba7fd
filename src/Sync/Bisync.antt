-- ===== src/Sync/Bisync.antt =====
-- object/sync/bisync.go: the synchronisation of two backends in both directions.
pub mod Types
pub mod Plan
pub mod Conflicts
pub mod Run
pub mod Untouched
pub mod Settling
pub mod Agreement
pub mod Counts
