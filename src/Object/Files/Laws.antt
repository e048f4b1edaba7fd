-- ===== src/Object/Files/Laws.antt =====
-- What the backend of object/backend/file asks of the operating system.
use omnistorage_core.Base.{
  ℕ, ◌≡◌, ◌⊎◌, Bool, true, false, Option, none, some, List, [], ◌++◌, if◌then◌else◌, ◌==◌, nat_eq,
  ok,
}
use omnistorage_core.Base.Text.{Text}
use omnistorage_core.Object.Files.{Os, FileInfo, dir}

-- What is asked of the operating system, where no path changes the file that it names, as `node` says.
-- `usable` are the paths whose file may be read, if it is there, and written, and whose directories can be
-- created. `content` is what a file holds, `source` the file that a handle reads from its beginning, and
-- `target` the one to whose end a handle writes. The contents change where a file is opened for writing, and
-- by a copy, alone; a copy of a file onto itself ends where the file is empty. A file that is open for
-- writing can be closed; nothing is said of a second close.
pub record IsFileSystem {W : Type 0} (os : Os W) (node : Text → ℕ) (usable : Text → Bool)
    (content : ℕ → W → List ℕ) (source target : ℕ → W → Option ℕ) : Type 0 where
  pub mkdir_all :
      (p : Text) (mode : ℕ) (w : W) → usable p ≡ true → (os.mkdir_all (dir p) mode w).1 ≡ none
  pub mkdir_all-content :
      (p : Text) (mode n : ℕ) (w : W) → content n (os.mkdir_all p mode w).0 ≡ content n w
  pub mkdir_all-stat :
      (p q : Text) (mode : ℕ) (w : W) (info : FileInfo)
      → os.stat q w ≡ ok info
      → info.is_dir ≡ false
      → os.stat q (os.mkdir_all p mode w).0 ≡ ok info
  pub open_file :
      (p : Text) (w : W) (info : FileInfo)
      → usable p ≡ true
      → os.stat p w ≡ ok info
      → info.is_dir ≡ false
      → (h : ℕ) × ((os.open_file p w).1 ≡ ok h) × (source h (os.open_file p w).0 ≡ some (node p))
  pub open_file-content : (p : Text) (n : ℕ) (w : W) → content n (os.open_file p w).0 ≡ content n w
  pub create :
      (p : Text) (mode : ℕ) (w : W) → usable p ≡ true → (h : ℕ) × ((os.create p mode w).1 ≡ ok h)
  pub create-target :
      (p : Text) (mode h : ℕ) (w : W)
      → (os.create p mode w).1 ≡ ok h
      → target h (os.create p mode w).0 ≡ some (node p)
  pub create-content :
      (p : Text) (mode h n : ℕ) (w : W)
      → (os.create p mode w).1 ≡ ok h
      → content n (os.create p mode w).0 ≡ (if n == node p then [] else content n w)
  pub create-others :
      (p : Text) (mode n : ℕ) (w : W)
      → (n == node p) ≡ false
      → content n (os.create p mode w).0 ≡ content n w
  pub create-source :
      (p : Text) (mode h n : ℕ) (w : W)
      → source h w ≡ some n
      → source h (os.create p mode w).0 ≡ some n
  pub copy :
      (to from m n : ℕ) (w : W)
      → target to w ≡ some m
      → source from w ≡ some n
      → ((n == m) ≡ false) ⊎ (content n w ≡ [])
      → ((os.copy to from w).1 ≡ none)
        × (target to (os.copy to from w).0 ≡ some m)
        × ((k : ℕ)
            → content k (os.copy to from w).0
              ≡ (if k == m then content m w ++ content n w else content k w))
  pub copy-others :
      (to from m k : ℕ) (w : W)
      → target to w ≡ some m
      → (k == m) ≡ false
      → content k (os.copy to from w).0 ≡ content k w
  pub close : (h n : ℕ) (w : W) → target h w ≡ some n → (os.close h w).1 ≡ none
  pub close-content : (h n : ℕ) (w : W) → content n (os.close h w).0 ≡ content n w
