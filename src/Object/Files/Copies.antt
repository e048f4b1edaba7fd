-- ===== src/Object/Files/Copies.antt =====
-- `Copy` of object/backend/file/extended.go over an operating system that keeps what is asked of it.
use omnistorage_core.Base.{
  ℕ, ◌≡◌, refl, ◌∙◌, inl, inr, Bool, true, false, Option, none, List, [], if◌then◌else◌, ◌==◌,
  nat_eq, Bool-cases, Result-cases, Option-cases,
}
use omnistorage_core.Base.Text.{Text}
use omnistorage_core.Object.{Error, Fault}
use omnistorage_core.Object.Files.{Os, Backend, check_both, full_path, make_parents, dir}
use omnistorage_core.Object.Files.Laws.{IsFileSystem}
use omnistorage_core.Object.Files.Extended.{copy, copy_file}

either : {A : Type 0} (P : A → Type 0) (c : Bool) (x y : A) → P x → P y → P (if c then x else y)
either P true x y p q = p
either P false x y p q = q

-- what a file holds after a copy
abbrev pub after_copy : {W : Type 0} → (Text → ℕ) → (ℕ → W → List ℕ) → Text → Text → ℕ → W → List ℕ
after_copy node content src dst k w =
    if k == node dst
    then (if node src == node dst then [] else content (node src) w)
    else content k w

module _ {W : Type 0} (os : Os W) (node : Text → ℕ) (usable : Text → Bool)
    (content : ℕ → W → List ℕ) (source target : ℕ → W → Option ℕ)
    (L : IsFileSystem os node usable content source target) where
  copy_file_spares :
      (src dst : Text) (b : Backend) (w : W) (k : ℕ)
      → (k == node dst) ≡ false
      → content k (copy_file os src dst b w).0 ≡ content k w
  unfolding copy_file
  copy_file_spares src dst b w k other =
      let mode = b.config.file_permissions in
      let w1 = (os.open_file src w).0 in
      let w2 = (os.create dst mode w1).0 in
      let e1 = L.open_file-content src k w in
      let e2 = L.create-others dst mode k w1 other in
      elim (Result-cases (os.open_file src w).1) [
        | inr (f, failed) ↦ rw (copy_file, failed) e1
        | inl (from, opened) ↦ elim (Result-cases (os.create dst mode w1).1) [
          | inr (f, failed) ↦ rw (copy_file, opened, failed) (L.close-content from k w2 ∙ e2 ∙ e1)
          | inl (to, created) ↦
              let w3 = (os.copy to from w2).0 in
              let w4 = (os.close to w3).0 in
              let w5 = (os.close to w4).0 in
              let e3 =
                L.copy-others to from (node dst) k w2 (L.create-target dst mode to w1 created)
                  other in
              let e4 = L.close-content to k w3 ∙ e3 ∙ e2 ∙ e1 in
              let broken : content k (os.close from w4).0 ≡ content k w =
                L.close-content from k w4 ∙ e4 in
              let whole : content k (os.close from w5).0 ≡ content k w =
                L.close-content from k w5 ∙ L.close-content to k w4 ∙ e4 in
              elim (Option-cases (os.copy to from w2).1) [
                | inr (f, failed) ↦ rw (copy_file, opened, created, failed) broken
                | inl copied ↦ elim (Option-cases (os.close to w3).1) [
                  | inr (f, failed) ↦ rw (copy_file, opened, created, copied, failed) whole
                  | inl closed ↦ rw (copy_file, opened, created, copied, closed) whole
                ]
              ]
        ]
      ]

  parents_spare :
      (q : Text) (b : Backend) (w : W) (k : ℕ) → content k (make_parents os b q w).0 ≡ content k w
  unfolding make_parents
  parents_spare q b w k =
      either (λ (x : W × Option Fault). content k x.0 ≡ content k w) b.config.create_dirs
        (os.mkdir_all (dir q) b.config.dir_permissions w) (w, none)
        (L.mkdir_all-content (dir q) b.config.dir_permissions k w) refl

  -- Over an operating system that keeps what is asked of it, whatever fails on the way, and whatever the paths are, a Copy leaves all files but the destination's as
  -- they were.
  pub copy_spares :
      (ctx : Option Error) (src dst : Text) (b : Backend) (w : W) (k : ℕ)
      → (k == node (full_path b dst)) ≡ false
      → content k (copy os ctx src dst b w).0 ≡ content k w
  unfolding copy
  copy_spares ctx src dst b w k other =
      let p = full_path b src in
      let q = full_path b dst in
      let w1 = (make_parents os b q w).0 in
      let parents = parents_spare q b w k in
      elim (Result-cases (check_both ctx src dst b)) [
        | inr (e, refused) ↦ rw (copy, refused) refl
        | inl (_, valid) ↦ elim (Result-cases (os.stat p w)) [
          | inr (f, missing) ↦ rw (copy, valid, missing) refl
          | inl (info, there) ↦ elim (Bool-cases info.is_dir) [
            | inl directory ↦ rw (copy, valid, there, directory) refl
            | inr file ↦ elim (Option-cases (make_parents os b q w).1) [
              | inr (f, failed) ↦ rw (copy, valid, there, file, failed) parents
              | inl made ↦
                  rw (copy, valid, there, file, made) (copy_file_spares p q b w1 k other ∙ parents)
            ]
          ]
        ]
      ]
