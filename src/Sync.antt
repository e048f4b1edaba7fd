-- ===== src/Sync.antt =====
-- object/sync: the sync engine, its parts and what stands on top of it.
pub mod RateLimit
pub mod Retry
pub mod Options
pub mod Listing
pub mod Transfer
pub mod Engine
pub mod Content
pub mod Check
pub mod Verify
pub mod Copies
pub mod Bisync
pub mod Filter
