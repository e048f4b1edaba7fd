-- ===== src/Sync/Transfer/Contents.antt =====
-- What a copy of object/sync/sync.go leaves at its destination, for backends that keep what the
-- documentation of object/interfaces.go promises.
use omnistorage_core.Base.{
  ℕ, ◌≡◌, refl, ◌∙◌, Bool, true, false, Option, none, some, List, [], ◌∷◌, ◌++◌, arith,
  if◌then◌else◌, ◌==◌, ==-refl, list_eq, nat_eq, length, ok, Option-cases, Bool-cases, is_positive,
  inl, inr, err,
}
use mathlib.Core.List.{append-nil, append_assoc}
use omnistorage_core.Sync.Options.{Options, MetadataOptions}
use omnistorage_core.Sync.Transfer.{
  copy_file_with_context, copy_file_single, after_attempts, retried, build_writer_options,
  stream_copy,
}
use omnistorage_core.Sync.Retry.{retry_operation}
use omnistorage_core.Sync.Retry
use omnistorage_core.Sync.Retry.Attempts.{retry_succeeds}
use omnistorage_core.Object.{Error}
use omnistorage_core.Object.Backend.{Backend, WriterOption, Stream}
use omnistorage_core.Base.Text.{Text}
use omnistorage_core.Object.Copying.{copy_chunks}
use omnistorage_core.Object.Hashing.{concat}

-- What stands in the two backends at the paths that they accept, and what has been written to an open
-- writer of the destination, with its path.
pub record Views (W : Type 0) : Type 0 where
  pub is_path : Text → Bool
  pub in_src : W → Text → Option (List ℕ)
  pub in_dst : W → Text → Option (List ℕ)
  pub pending : W → ℕ → Option (Text × List ℕ)

module _ {W : Type 0} (v : Views W) where
  -- Neither backend's objects differ.
  abbrev pub Same : W → W → Type 0
  Same w w' =
      ((p : Text) → v.in_src w' p ≡ v.in_src w p) × ((p : Text) → v.in_dst w' p ≡ v.in_dst w p)

  -- The destination has another object at a path, or none, and nothing else differs.
  abbrev pub Differs : Text → Option (List ℕ) → W → W → Type 0
  Differs q o w w' =
      ((p : Text) → v.in_src w' p ≡ v.in_src w p)
      × ((p : Text) → v.in_dst w' p ≡ (if p == q then o else v.in_dst w p))

  -- The promises of two distinct backends that do not fail.
  pub record IsLawful (src dst : Backend W) : Type 0 where
    pub reads :
        (p : Text) (w : W) {content : List ℕ}
        → v.in_src w p ≡ some content
        → (s : Stream) × (src.new_reader p w ≡ ok s)
          × (concat s.chunks ≡ content)
          × (s.failure ≡ none)
    pub opens :
        (q : Text) (os : List WriterOption) (w : W)
        → v.is_path q ≡ true
        → (h : ℕ) × ((dst.new_writer q os w).1 ≡ ok h)
          × (v.pending (dst.new_writer q os w).0 h ≡ some (q, []))
          × Same w (dst.new_writer q os w).0
    pub writes :
        (h : ℕ) (chunk : List ℕ) (w : W) {q : Text} {buffer : List ℕ}
        → v.pending w h ≡ some (q, buffer)
        → ((dst.write h chunk w).1 ≡ ok (length chunk))
          × (v.pending (dst.write h chunk w).0 h ≡ some (q, buffer ++ chunk))
          × Same w (dst.write h chunk w).0
    pub closes :
        (h : ℕ) (w : W) {q : Text} {buffer : List ℕ}
        → v.pending w h ≡ some (q, buffer)
        → ((dst.close_writer h w).1 ≡ ok tt) × Differs q (some buffer) w (dst.close_writer h w).0
    pub deletes :
        (q : Text) (w : W)
        → v.is_path q ≡ true
        → ((dst.delete q w).1 ≡ ok tt) × Differs q none w (dst.delete q w).0

module _ {W : Type 0} (src dst : Backend W) (v : Views W) (lawful : IsLawful v src dst) where
  pub copy_chunks_lem :
      (h : ℕ) (chunks : List (List ℕ)) (failure : Option Error) (w : W) {q : Text} {buffer : List ℕ}
      → v.pending w h ≡ some (q, buffer)
      → ((copy_chunks dst h chunks failure w).1 ≡ failure)
        × (v.pending (copy_chunks dst h chunks failure w).0 h ≡ some (q, buffer ++ concat chunks))
        × Same v w (copy_chunks dst h chunks failure w).0
  unfolding copy_chunks
  copy_chunks_lem h [] failure w {q} {buffer} e =
      (refl, rw (append-nil buffer) e, (λ p. refl, λ p. refl))
  copy_chunks_lem h (chunk ∷ chunks) failure w {q} {buffer} e =
      let (fine, held, (same_src, same_dst)) = lawful.writes h chunk w e in
      let (fine', held', (same_src', same_dst')) =
        copy_chunks_lem h chunks failure (dst.write h chunk w).0 held in
      rw (copy_chunks, fine, ==-refl (length chunk))
        (
          fine',
          rw⁻¹ (append_assoc buffer chunk (concat chunks)) held',
          (λ p. same_src' p ∙ same_src p, λ p. same_dst' p ∙ same_dst p),
        )

  stream_copy_lem :
      (preserve : Option MetadataOptions) (p q : Text) (w : W) {content : List ℕ}
      → v.in_src w p ≡ some content
      → v.is_path q ≡ true
      → ((stream_copy src dst false preserve p q w).1 ≡ ok tt)
        × Differs v q (some content) w (stream_copy src dst false preserve p q w).0
  unfolding stream_copy
  stream_copy_lem preserve p q w {content} there good =
      let (s, opened, whole, no_failure) = lawful.reads p w there in
      let os = build_writer_options src dst false p preserve w in
      let (h, began, empty, (same_src, same_dst)) = lawful.opens q os w good in
      let w1 = (dst.new_writer q os w).0 in
      let (written, held, (same_src', same_dst')) = copy_chunks_lem h s.chunks s.failure w1 empty in
      let w2 = (copy_chunks dst h s.chunks s.failure w1).0 in
      let (closed, (same_src'', now_dst)) = lawful.closes h w2 held in
      rw (stream_copy, opened, began, written ∙ no_failure)
        (
          closed,
          (
            λ x. same_src'' x ∙ same_src' x ∙ same_src x,
            λ x. ground (arith, now_dst x, same_dst' x, same_dst x, whole),
          ),
        )

  -- A copy whose reader fails on the way, between two distinct backends that keep what their
  -- interface promises and to a path that the destination accepts, reports the reader's error, but
  -- closes the writer: what had been read stands at the destination, in place of what was there.
  pub stream_copy_truncates :
      (preserve : Option MetadataOptions) (p q : Text) (w : W) (s : Stream) {e : Error}
      → src.new_reader p w ≡ ok s
      → s.failure ≡ some e
      → v.is_path q ≡ true
      → ((stream_copy src dst false preserve p q w).1 ≡ err e)
        × Differs v q (some (concat s.chunks)) w (stream_copy src dst false preserve p q w).0
  unfolding stream_copy
  stream_copy_truncates preserve p q w s {e} opened failing good =
      let os = build_writer_options src dst false p preserve w in
      let (h, began, empty, (same_src, same_dst)) = lawful.opens q os w good in
      let w1 = (dst.new_writer q os w).0 in
      let (written, held, (same_src', same_dst')) = copy_chunks_lem h s.chunks s.failure w1 empty in
      let w2 = (copy_chunks dst h s.chunks s.failure w1).0 in
      let (closed, (same_src'', now_dst)) = lawful.closes h w2 held in
      rw (stream_copy, opened, began, written ∙ failing)
        (
          refl,
          (
            λ x. same_src'' x ∙ same_src' x ∙ same_src x,
            λ x. ground (arith, now_dst x, same_dst' x, same_dst x),
          ),
        )

  module _ (cancelled interrupted : W → Option Error) (scale : ℕ → ℕ) (jittered : ℕ → ℕ → ℕ) where
    retried_lem :
        (opts : Options) (config : Retry.Config Error) (p q : Text) (w : W)
        → (copy_file_single src dst false opts.preserve_metadata p q w).1 ≡ ok tt
        → let outcome =
            retried src dst false cancelled interrupted scale jittered opts config p q w in
          (outcome.calls ≡ 1) × (outcome.result ≡ ok tt)
    unfolding retried after_attempts
    retried_lem opts config p q w fine =
        retry_succeeds config _ _ _ scale jittered 0 (λ j l. absurd (omega arith)) (omega arith)
          (rw fine refl)

    -- Between two distinct backends that keep what their interface promises, with retries or without, a
    -- copy of a file that is there to a path that the destination accepts succeeds at once: its content then stands at the
    -- destination, however the reader cuts it into chunks, and nothing else has changed.
    pub copy_file_with_context_lem :
        (opts : Options) (p q : Text) (w : W) {content : List ℕ}
        → v.in_src w p ≡ some content
        → v.is_path q ≡ true
        → ((copy_file_with_context src dst false cancelled interrupted scale jittered opts p q w).1
            ≡ ok tt)
          × Differs v q
              (some content)
              w
              (copy_file_with_context src dst false cancelled interrupted scale jittered opts p q
                w).0
    unfolding copy_file_with_context copy_file_single after_attempts
    copy_file_with_context_lem opts p q w there good =
        let (fine, differs) = stream_copy_lem opts.preserve_metadata p q w there good in
        elim (Option-cases opts.retry) [
          | inl no_retry ↦ rw (copy_file_with_context, no_retry, fine) (refl, differs)
          | inr (config, retry) ↦ elim (Bool-cases (is_positive config.max_retries)) [
            | inr once ↦ rw (copy_file_with_context, retry, once, fine) (refl, differs)
            | inl again ↦
                let (called, good) = retried_lem opts config p q w fine in
                rw (copy_file_with_context, retry, again, called, good) (refl, differs)
          ]
        ]
