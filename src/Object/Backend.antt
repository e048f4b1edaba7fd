-- ===== src/Object/Backend.antt =====
-- object/interfaces.go and object/extended.go: what a client sees of a backend. The operations work on
-- a state that holds all that they consult, so that two backends can share theirs.
use omnistorage_core.Base.{ℕ, ℤ, Bool, Option, List, Result}
use omnistorage_core.Base.Dict.{Dict}
use omnistorage_core.Base.Text.{Text}
use omnistorage_core.Object.{Error}

-- `ObjectInfo`, with the MD5 hash or the empty string; an unknown size is -1.
pub record Info : Type 0 where
  pub size : ℤ
  pub mod_time : ℕ
  pub is_dir : Bool
  pub hash : Text
  pub content_type : Text
  pub metadata : Dict Text Text

-- What `WithContentType` and `WithMetadata` build.
pub data WriterOption : Type 0 where
  content_type : Text → WriterOption
  metadata : Dict Text Text → WriterOption

-- What the reads of an open reader return one after the other: chunks, then `io.EOF` or an error.
pub record Stream : Type 0 where
  pub chunks : List (List ℕ)
  pub failure : Option Error

-- `ExtendedBackend`: what it adds to a backend and the sync engine uses
pub record Extended (W : Type 0) : Type 0 where
  pub stat : Text → W → Result Error Info
  pub copies : Bool
  pub copy : Text → Text → W → W × Result Error (Unit {0})
  pub moves : Bool
  pub move : Text → Text → W → W × Result Error (Unit {0})

-- `Backend`; an open writer is known by a number. `extended` is what `AsExtended` finds.
pub record Backend (W : Type 0) : Type 0 where
  pub new_writer : Text → List WriterOption → W → W × Result Error ℕ
  pub write : ℕ → List ℕ → W → W × Result Error ℕ
  pub close_writer : ℕ → W → W × Result Error (Unit {0})
  pub new_reader : Text → W → Result Error Stream
  pub exists : Text → W → Result Error Bool
  pub delete : Text → W → W × Result Error (Unit {0})
  pub list : Text → W → Result Error (List Text)
  pub extended : Option (Extended W)
