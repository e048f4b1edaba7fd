-- ===== src/Sync/Listing.antt =====
-- object/sync/sync.go: `listFiles`. The clock, whose reading is `now`, stands still meanwhile.
use omnistorage_core.Base.{
  ℕ, Bool, false, not, ◌&&◌, ◌||◌, none, some, List, [], ◌∷◌, ltb, pos, length, drop, if◌then◌else◌,
  ◌==◌, list_eq, nat_eq, Result, ok, err,
}
use omnistorage_core.Base.Text.{Text}
use omnistorage_core.Object.{Error}
use omnistorage_core.Object.Backend.{Backend}
use omnistorage_core.Object.FilePath.{trim_slash}
use omnistorage_core.Sync.Filter
use omnistorage_core.Sync.Options.{Options, FileInfo}

-- `relPath`
unfoldable pub relative : Text → Text → Text
relative base p =
    if not (base == []) && ltb (length base) (length p)
    then trim_slash (drop (length base) p)
    else p

module _ {W : Type 0} (glob : Text → Text → Bool) (now : ℕ) (opts : Options) (b : Backend W) where
  -- the entry for a path, before the filter
  unfoldable pub file_info : Text → Text → W → FileInfo
  file_info base p w =
      let bare : FileInfo = record {
        path = relative base p;
        size = pos 0;
        mod_time = 0;
        hash = [];
        is_dir = false;
      } in
      elim b.extended [
        | none ↦ bare
        | some ext ↦ elim (ext.stat p w) [
          | err _ ↦ bare
          | ok info ↦ record bare {
            size = info.size;
            mod_time = info.mod_time;
            is_dir = info.is_dir;
            hash = if opts.checksum then info.hash else [];
          }
        ]
      ]

  -- whether the filter lets an entry through
  unfoldable pub is_kept : FileInfo → Bool
  is_kept f =
      f.is_dir
      || Filter.matches glob now opts.filter
          (record { path = f.path; size = f.size; mod_time = f.mod_time; is_dir = f.is_dir })

  unfoldable pub list_each : Text → List Text → W → List FileInfo
  list_each base [] w = []
  list_each base (p ∷ ps) w =
      let f = file_info base p w in let fs = list_each base ps w in if is_kept f then f ∷ fs else fs

  unfoldable pub list_files : Text → W → Result Error (List FileInfo)
  list_files base w = elim (b.list base w) [ err e ↦ err e | ok ps ↦ ok (list_each base ps w) ]
