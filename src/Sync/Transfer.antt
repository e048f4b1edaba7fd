-- ===== src/Sync/Transfer.antt =====
-- object/sync/sync.go: the copy of one file. The rate limiter only slows the reads down, and is left
-- out. `same_backend` says whether source and destination are the same backend.
pub mod Contents
use omnistorage_core.Base.{
  ℕ, zero, suc, ◌+◌, Bool, not, ◌&&◌, Option, none, some, List, [], ◌∷◌, ◌++◌, length,
  if◌then◌else◌, ◌==◌, list_eq, nat_eq, Result, ok, err, is_positive,
}
use omnistorage_core.Base.Text.{Text}
use omnistorage_core.Object.{Error}
use omnistorage_core.Object.Backend.{Backend, WriterOption, Info}
use omnistorage_core.Object.Copying.{copy_chunks}
use omnistorage_core.Sync.Options.{Options, MetadataOptions, default_metadata_options}
use omnistorage_core.Sync.Retry
use omnistorage_core.Sync.Retry.{Failure, plain, retry_operation}

-- the options for what `Stat` tells, once it is settled what to preserve
unfoldable pub options_for : MetadataOptions → Info → List WriterOption
options_for preserved info =
    (if preserved.content_type && not (info.content_type == [])
      then WriterOption.content_type info.content_type ∷ []
      else [])
    ++ (if preserved.custom_metadata
        then elim info.metadata [ [] ↦ [] | _ ∷ _ ↦ WriterOption.metadata info.metadata ∷ [] ]
        else [])

module _ {W : Type 0} (src dst : Backend W) (same_backend : Bool) where
  unfoldable pub build_writer_options : Text → Option MetadataOptions → W → List WriterOption
  build_writer_options p preserve w = elim src.extended [
    | none ↦ []
    | some ext ↦ elim (ext.stat p w) [
      | err _ ↦ []
      | ok info ↦ options_for (elim preserve [ none ↦ default_metadata_options | some m ↦ m ]) info
    ]
  ]

  -- the part of `copyFileSingle` behind the server-side copy
  unfoldable pub stream_copy :
      Option MetadataOptions → Text → Text → W → W × Result Error (Unit {0})
  stream_copy preserve p q w = elim (src.new_reader p w) [
    | err e ↦ (w, err e)
    | ok reader ↦
        let (w1, opened) = dst.new_writer q (build_writer_options p preserve w) w in
        elim opened [
          | err e ↦ (w1, err e)
          | ok h ↦
              let (w2, failed) = copy_chunks dst h reader.chunks reader.failure w1 in
              let (w3, closed) = dst.close_writer h w2 in
              (w3, elim failed [ none ↦ closed | some e ↦ err e ])
        ]
  ]

  -- `copyFileSingle`
  unfoldable pub copy_file_single :
      Option MetadataOptions → Text → Text → W → W × Result Error (Unit {0})
  copy_file_single preserve p q w =
      if not same_backend then stream_copy preserve p q w else elim src.extended [
        | none ↦ stream_copy preserve p q w
        | some ext ↦ if ext.copies then ext.copy p q w else stream_copy preserve p q w
      ]

  -- `copyFile`
  unfoldable pub copy_file : Text → Text → W → W × Result Error (Unit {0})
  copy_file p q w = copy_file_single none p q w

  -- the state after a number of attempts
  unfoldable pub after_attempts : Option MetadataOptions → Text → Text → ℕ → W → W
  after_attempts preserve p q zero w = w
  after_attempts preserve p q (suc n) w =
      after_attempts preserve p q n (copy_file_single preserve p q w).0

  -- `MoveFile`
  unfoldable pub move_file : Text → Text → W → W × Result Error (Unit {0})
  move_file p q w =
      let (w', r) = copy_file p q w in
      let fallback : W × Result Error (Unit {0}) = elim r [
        | err e ↦ (w', err e)
        | ok _ ↦ src.delete p w'
      ] in
      if not same_backend then fallback else elim src.extended [
        | none ↦ fallback
        | some ext ↦ if ext.moves then ext.move p q w else fallback
      ]

  -- `cancelled` is what `ctx.Err()` returns, and `interrupted` tells whether it cuts a wait short.
  module _ (cancelled interrupted : W → Option Error) (scale : ℕ → ℕ) (jittered : ℕ → ℕ → ℕ) where
    -- the operation that is retried, begun in a given state
    unfoldable pub retried : Options → Retry.Config Error → Text → Text → W → Retry.Outcome Error
    retried opts config p q w =
        let at = λ (i : ℕ). after_attempts opts.preserve_metadata p q i w in
        retry_operation config
          (λ i. elim (copy_file_single opts.preserve_metadata p q (at i)).1 [
            | ok _ ↦ none
            | err e ↦ some e
          ])
          (λ i. cancelled (at (i + 1))) (λ i. interrupted (at (i + 1))) scale jittered

    -- `copyFileWithContext`
    unfoldable pub copy_file_with_context :
        Options → Text → Text → W → W × Result (Failure Error) (Unit {0})
    copy_file_with_context opts p q w =
        let (w', r) = copy_file_single opts.preserve_metadata p q w in
        let once : W × Result (Failure Error) (Unit {0}) =
          (w', elim r [ ok _ ↦ ok tt | err e ↦ err (plain e) ]) in
        elim opts.retry [
          | none ↦ once
          | some config ↦
              if not (is_positive config.max_retries)
              then once
              else let outcome = retried opts config p q w in
                (after_attempts opts.preserve_metadata p q outcome.calls w, outcome.result)
        ]
