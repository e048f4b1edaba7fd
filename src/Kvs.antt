-- ===== src/Kvs.antt =====
-- kvs/kvs.go: the errors of a key-value store, and its interface. Its backends stand below.
pub mod Backend
pub mod Memory
use omnistorage_core.Base.{ℕ}

-- `ErrNotFound` and `ErrClosed`, and what else a backend may return, such as a driver's error
pub data KvsError : Type 0 where
  not_found closed : KvsError
  other : ℕ → KvsError
