-- ===== src/Object/Files/Extended.antt =====
-- object/backend/file/extended.go: metadata, directories, copies and moves on the local filesystem.
use omnistorage_core.Base.{
  ℕ, Bool, not, Option, none, some, [], ◌==◌, if◌then◌else◌, list_eq, nat_eq, Result, ok, err, ℤ,
}
use omnistorage_core.Base.Text.{Text}
use omnistorage_core.Object.{Error}
use omnistorage_core.Object.Files.{
  Os, Backend, check, check_both, full_path, found_error, refused_error, make_parents, ext,
}

-- `BasicObjectInfo` as `Stat` fills it in; there are no hashes.
pub record ObjectInfo : Type 0 where
  pub path : Text
  pub size : ℤ
  pub mod_time : ℕ
  pub is_dir : Bool
  pub content_type : Text

-- the errors that the methods make up: not a directory, and a source that is one
abbrev pub no_directory : Error
no_directory = Error.not_directory

abbrev pub source_directory : Error
source_directory = Error.is_directory

module _ {W : Type 0} (os : Os W) where
  unfoldable pub stat : Option Error → Text → Backend → W → Result Error ObjectInfo
  stat ctx p b w = elim (check ctx p b) [
    | err e ↦ err e
    | ok _ ↦ elim (os.stat (full_path b p) w) [
      | err f ↦ err (found_error f)
      | ok info ↦ ok (record {
        path = p;
        size = info.size;
        mod_time = info.mod_time;
        is_dir = info.is_dir;
        content_type =
            if info.is_dir then [] else if ext p == [] then [] else os.type_by_extension (ext p);
      })
    ]
  ]

  unfoldable pub mkdir : Option Error → Text → Backend → W → W × Result Error (Unit {0})
  mkdir ctx p b w = elim (check ctx p b) [
    | err e ↦ (w, err e)
    | ok _ ↦
        let (w', made) = os.mkdir_all (full_path b p) b.config.dir_permissions w in
        elim made [ none ↦ (w', ok tt) | some f ↦ (w', err (refused_error f)) ]
  ]

  unfoldable pub rmdir : Option Error → Text → Backend → W → W × Result Error (Unit {0})
  rmdir ctx p b w = elim (check ctx p b) [
    | err e ↦ (w, err e)
    | ok _ ↦
        let (w', removed) = os.remove (full_path b p) w in
        elim (os.stat (full_path b p) w) [
          | err f ↦ (w, err (found_error f))
          | ok info ↦
              if not info.is_dir
              then (w, err no_directory)
              else elim removed [ none ↦ (w', ok tt) | some f ↦ (w', err (refused_error f)) ]
        ]
  ]

  -- `copyFile`: the source's file is closed at last, and the error of that is dropped, as is that of
  -- the second close of the destination's.
  unfoldable pub copy_file : Text → Text → Backend → W → W × Result Error (Unit {0})
  copy_file src dst b w =
      let (w1, opened) = os.open_file src w in
      elim opened [
        | err f ↦ (w1, err (Error.wrapped f))
        | ok from ↦
            let (w2, created) = os.create dst b.config.file_permissions w1 in
            elim created [
              | err f ↦ ((os.close from w2).0, err (Error.wrapped f))
              | ok to ↦
                  let (w3, copied) = os.copy to from w2 in
                  let (w4, closed) = os.close to w3 in
                  elim copied [
                    | some f ↦ ((os.close from w4).0, err (Error.wrapped f))
                    | none ↦
                        let end = (os.close from (os.close to w4).0).0 in
                        elim closed [ none ↦ (end, ok tt) | some f ↦ (end, err (Error.wrapped f)) ]
                  ]
            ]
      ]

  unfoldable pub copy : Option Error → Text → Text → Backend → W → W × Result Error (Unit {0})
  copy ctx src dst b w = elim (check_both ctx src dst b) [
    | err e ↦ (w, err e)
    | ok _ ↦ elim (os.stat (full_path b src) w) [
      | err f ↦ (w, err (found_error f))
      | ok info ↦
          if info.is_dir
          then (w, err source_directory)
          else let (w1, made) = make_parents os b (full_path b dst) w in
            elim made [
              | some f ↦ (w1, err (Error.wrapped f))
              | none ↦ copy_file (full_path b src) (full_path b dst) b w1
            ]
    ]
  ]

  -- the fallback of `Move`: a copy, and then the removal of the source
  unfoldable pub copy_and_remove : Text → Text → Backend → W → W × Result Error (Unit {0})
  copy_and_remove src dst b w =
      let (w1, copied) = copy_file src dst b w in
      let (w2, removed) = os.remove src w1 in
      elim copied [
        | err e ↦ (w1, err e)
        | ok _ ↦ elim removed [ none ↦ (w2, ok tt) | some f ↦ (w2, err (Error.wrapped f)) ]
      ]

  unfoldable pub move : Option Error → Text → Text → Backend → W → W × Result Error (Unit {0})
  move ctx src dst b w = elim (check_both ctx src dst b) [
    | err e ↦ (w, err e)
    | ok _ ↦ elim (os.stat (full_path b src) w) [
      | err f ↦ (w, err (found_error f))
      | ok info ↦
          let (w1, made) = make_parents os b (full_path b dst) w in
          let (w2, renamed) = os.rename (full_path b src) (full_path b dst) w1 in
          elim made [
            | some f ↦ (w1, err (Error.wrapped f))
            | none ↦ elim renamed [
              | none ↦ (w2, ok tt)
              | some f ↦ copy_and_remove (full_path b src) (full_path b dst) b w2
            ]
          ]
    ]
  ]
