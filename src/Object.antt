-- ===== src/Object.antt =====
-- object/errors.go: the errors of an object backend. The backends and what wraps them stand below.
pub mod Backend
pub mod Hashing
pub mod Features
pub mod Registry
pub mod Ndjson
pub mod Channel
pub mod Copying
pub mod FilePath
pub mod Files
pub mod Memory
pub mod Multi
use omnistorage_core.Base.{ℕ}

-- What a call of package os fails with: an error that `os.IsNotExist` or `os.IsPermission` knows, or
-- another.
pub data Fault : Type 0 where
  not_exist permission : Fault
  broken : ℕ → Fault

-- The sentinels, what `ctx.Err()` returns, `io.ErrShortWrite`, the errors that a
-- backend formats, one that wraps a failure of the operating system, and any other.
pub data Error : Type 0 where
  not_found permission_denied backend_closed writer_closed reader_closed invalid_path : Error
  is_directory not_directory directory_not_empty : Error
  context short_write not_supported unknown_backend : Error
  wrapped : Fault → Error
  other : ℕ → Error
