-- ===== src/Sync/Check/Answers.antt =====
-- What `Check` of object/sync/check.go reports of each file.
use omnistorage_core.Base.{
  ◌+◌, ◌≡◌, refl, inl, inr, true, none, some, arith, ◌==◌, list_eq, nat_eq, length, ok,
  Result-cases, ◌≤◌, eqz, false, ℕ, ℤ,
}
use omnistorage_core.Base.Dict.{is_some}
use omnistorage_core.Base.Text.{Text}
use omnistorage_core.Sync.Check.{is_far, compare_content, files_match}
use omnistorage_core.Sync.Filter.{sub_time}
use omnistorage_core.Object.Backend.{Backend, Stream}
use omnistorage_core.Object.FilePath.{join_path}
use omnistorage_core.Object.Hashing.{concat}
use omnistorage_core.Sync.Content.{opened, buffer_size}
use omnistorage_core.Sync.Content.Equality.{compare_loop_lem, compare_loop_total}
use omnistorage_core.Sync.Options.{Options, FileInfo}

far_before :
    (t u : ℕ)
    → t + 9223372036854775808 ≤ u
    → (is_far (sub_time t u) ≡ false) × (is_far (sub_time u t) ≡ true)
unfolding is_far sub_time
far_before t u h = (ground arith, ground arith)

eqz_sym : (a b : ℤ) → eqz a b ≡ eqz b a
eqz_sym a b = ground arith

module _ {W : Type 0} (src dst : Backend W) (opts : Options) (src_path dst_path : Text) where
  -- Whatever the two readers' chunks, two files that can be opened and read to their end are compared by their contents.
  pub compare_content_lem :
      (p q : Text) (w : W) (a b : Stream)
      → src.new_reader (join_path src_path p) w ≡ ok a
      → dst.new_reader (join_path dst_path q) w ≡ ok b
      → a.failure ≡ none
      → b.failure ≡ none
      → compare_content src dst opts src_path dst_path p q w
        ≡ some (ok (concat a.chunks == concat b.chunks))
  unfolding compare_content opened
  compare_content_lem p q w a b e f g h =
      rw (compare_content, e, f, opened, g, h)
        (compare_loop_lem (length (concat a.chunks) + 1) buffer_size (concat a.chunks)
          (concat b.chunks) (omega arith) (omega arith))

  compare_content_total :
      (p q : Text) (w : W) → is_some (compare_content src dst opts src_path dst_path p q w) ≡ true
  unfolding compare_content opened
  compare_content_total p q w = elim (Result-cases (src.new_reader (join_path src_path p) w)) [
    | inr (e, f) ↦ rw (compare_content, f) refl
    | inl (a, f) ↦ elim (Result-cases (dst.new_reader (join_path dst_path q) w)) [
      | inr (e, g) ↦ rw (compare_content, f, g) refl
      | inl (b, g) ↦
          rw (compare_content, f, g)
            (compare_loop_total (length (opened a).content + 1) buffer_size (opened a) (opened b)
              (omega arith) (omega arith))
    ]
  ]

  -- The comparison of two files always ends with an answer or an error.
  pub files_match_total :
      (f g : FileInfo) (w : W) → is_some (files_match src dst opts src_path dst_path f g w) ≡ true
  unfolding files_match
  files_match_total f g w = ground (arith, compare_content_total f.path g.path w)

  -- A file of the source whose modification time is 2^63 nanoseconds or more before that of the
  -- destination's, as the zero time is, counts as one of the same time, and not the other way round; the
  -- sizes are equal, times are not ignored, and no checksums are asked for.
  pub files_match_far :
      (f g : FileInfo) (w : W)
      → opts.ignore_time ≡ false
      → opts.checksum ≡ false
      → eqz f.size g.size ≡ true
      → f.mod_time + 9223372036854775808 ≤ g.mod_time
      → (files_match src dst opts src_path dst_path f g w ≡ some (ok true))
        × (files_match src dst opts src_path dst_path g f w ≡ some (ok false))
  unfolding files_match
  files_match_far f g w timed unhashed equal before =
      let (near, far) = far_before f.mod_time g.mod_time before in
      (
        ground (arith, timed, unhashed, equal, near),
        ground (arith, timed, unhashed, equal, far, eqz_sym f.size g.size),
      )
