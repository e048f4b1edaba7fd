-- ===== src/Tests.antt =====
-- Runs at concrete inputs, and instances of the theorems.
mod Values
mod Users
mod Controls
mod Objects
mod Fans
mod Files
mod Limits
mod Retries
mod Syncs
mod Bisyncs
mod Records
mod Channels
mod Stores
