-- ===== src/Tests/Syncs/Copies.antt =====
-- Runs of the copies of object/copy.go and object/sync/copy.go, and instances of the theorems on them.
use omnistorage_core.Base.{
  ℕ, ◌%◌, ◌<◌, ◌≡◌, refl, sym, ap, ◌∙◌, All, Option, false, none, some, List, [], ◌∷◌, arith,
  if◌then◌else◌, ◌==◌, list_eq, nat_eq, ok, err, Bool-cases, inl, inr,
}
use omnistorage_core.Base.Dict
use omnistorage_core.Object.Hashing.{
  concat, Digests, sha1_type, new_hash, hash_bytes, hash_bytes_from_sum, char_at,
}
use omnistorage_core.Base.Dict.{Dict}
use omnistorage_core.Base.Text.{Text, bytes}
use omnistorage_core.Object.{Error}
use omnistorage_core.Object.Backend.{Backend, Stream}
use omnistorage_core.Sync.Transfer.{stream_copy}
use omnistorage_core.Sync.Transfer.Contents.{Views, IsLawful, stream_copy_truncates}
use omnistorage_core.Object.Copying.{copy_path_with_hash}
use omnistorage_core.Object.Copying.Hashes.{copy_path_with_hash_lem, IsStandard, hex_of}
use omnistorage_core.Tests.Syncs.{
  World, look, source_backend, destination, views, lawful, reads, program, world,
}

-- a source whose file b breaks off
abbrev partial_stream : Stream
partial_stream = record { chunks = (1 ∷ []) ∷ []; failure = some Error.context }

abbrev partial_source : Backend World
partial_source = record source_backend {
  new_reader = λ p w. if p == bytes "b" then ok partial_stream else look p w.from;
}

abbrev whole_views : Views World
whole_views = record views { in_src = λ w p. if p == bytes "b" then none else Dict.lookup p w.from }

reads_whole :
    (p : Text) (w : World) {content : List ℕ}
    → (if p == bytes "b" then none else Dict.lookup p w.from) ≡ some content
    → (s : Stream) × ((if p == bytes "b" then ok partial_stream else look p w.from) ≡ ok s)
      × (concat s.chunks ≡ content)
      × (s.failure ≡ none)
reads_whole p w h = elim (Bool-cases (p == bytes "b")) [
  | inl e ↦ absurd (ground (arith, e, h))
  | inr e ↦ rw e (reads p w (ground (arith, e, h)))
]

partial-IsLawful : IsLawful whole_views partial_source destination
partial-IsLawful = record {
  reads = reads_whole;
  opens = λ q os w h. (0, refl, refl, (λ p. refl, λ p. refl));
  writes = λ h chunk w {q} {buffer} e.
      (rw e refl, rw e refl, (λ p. ground (arith, e), λ p. ground (arith, e)));
  closes = λ h w {q} {buffer} e. (
    rw e refl,
    (λ p. ground (arith, e), λ p. ground (arith, e, Dict.lookup-insert p q buffer w.into)),
  );
  deletes = λ q w h. (refl, (λ p. refl, λ p. Dict.lookup-erase p q w.into));
}

truncated_example :
    let copy = stream_copy partial_source destination false none (bytes "b") (bytes "x") world in
    (copy.1 ≡ err Error.context)
    × (((p : Text)
          → (if p == bytes "b" then none else Dict.lookup p copy.0.from)
            ≡ (if p == bytes "b" then none else Dict.lookup p world.from))
        × ((p : Text)
            → Dict.lookup p copy.0.into
              ≡ (if p == bytes "x" then some (1 ∷ []) else Dict.lookup p world.into)))
unfolding program
truncated_example =
    stream_copy_truncates partial_source destination whole_views partial-IsLawful none (bytes "b")
      (bytes "x") world partial_stream refl refl refl

-- digests that are the content itself, as bytes
abbrev modulo : List ℕ → List ℕ
modulo [] = []
modulo (c ∷ content) = c % 256 ∷ modulo content

abbrev plain_digests : Digests
plain_digests = record {
  md5 = modulo;
  sha1 = modulo;
  sha256 = modulo;
  crc32c = modulo;
  encode_to_string = hex_of;
}

modulo-All : (content : List ℕ) → All (λ b. b < 256) (modulo content)
modulo-All [] = tt
modulo-All (c ∷ content) = (omega arith, modulo-All content)

abbrev or_modulo : Option (List ℕ → List ℕ) → List ℕ → List ℕ
or_modulo none = modulo
or_modulo (some digest) = digest

plain_lem : (t content : Text) → or_modulo (new_hash plain_digests t) content ≡ modulo content
unfolding new_hash
plain_lem t content = ground arith

plain-All :
    (t content : Text) {digest : List ℕ → List ℕ}
    → new_hash plain_digests t ≡ some digest
    → All (λ b. b < 256) (digest content)
unfolding new_hash
plain-All t content {digest} e =
    let same : modulo content ≡ digest content =
      sym (plain_lem t content) ∙ ap (λ d. or_modulo d content) e in
    rw⁻¹ same (modulo-All content)

plain_digests-IsStandard : IsStandard plain_digests
plain_digests-IsStandard = record { encodes = λ sum h. refl; are_bytes = plain-All }

copied_with_hash_example :
    let copy =
      copy_path_with_hash source_backend destination plain_digests sha1_type
        (bytes "in/b")
        (bytes "x")
        []
        world in
    (copy.1 ≡ ok (bytes "02"))
    × (hash_bytes plain_digests (2 ∷ []) sha1_type ≡ bytes "02")
    × (((p : Text) → Dict.lookup p copy.0.from ≡ Dict.lookup p world.from)
        × ((p : Text)
            → Dict.lookup p copy.0.into
              ≡ (if p == bytes "x" then some (2 ∷ []) else Dict.lookup p world.into)))
unfolding program new_hash hash_bytes hash_bytes_from_sum char_at
copied_with_hash_example =
    copy_path_with_hash_lem source_backend destination views lawful plain_digests sha1_type
      (bytes "in/b") (bytes "x") [] world refl refl refl plain_digests-IsStandard
