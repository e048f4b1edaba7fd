-- ===== src/Object/Copying/Hashes.antt =====
-- What `CopyPathWithHash` of object/copy.go returns, for backends that keep what the documentation of
-- object/interfaces.go promises.
use omnistorage_core.Base.{
  ℕ, zero, suc, ◌+◌, ◌-◌, ◌/◌, ◌%◌, ◌<◌, ◌≡◌, refl, ap, ◌∙◌, sym, Bool, true, ◌&&◌, Option, none,
  some, List, [], ◌∷◌, ◌++◌, arith, list_eq, nat_eq, Result, ok, err, All, Bool-cases, inl, inr,
  ◌==◌, ==-true, ==-refl, ltb, if◌then◌else◌, length,
}
use mathlib.Core.List.{append-nil, append_assoc}
use mathlib.Core.Path.{ap₂}
use omnistorage_core.Base.Text.{Text}
use omnistorage_core.Object.{Error}
use omnistorage_core.Object.Backend.{Backend, WriterOption, Stream}
use omnistorage_core.Object.Copying.{copy_chunks, copy_hashed, copy_path_with_hash}
use omnistorage_core.Object.Hashing.{
  Digests, new_hash, hash_bytes, hash_bytes_from_sum, char_at, hex_chars, concat,
}
use omnistorage_core.Sync.Transfer.Contents.{Views, IsLawful, Differs, copy_chunks_lem}

-- the lower-case hexadecimal digit of a number below 16
abbrev pub digit_of : ℕ → ℕ
digit_of n = if ltb n 10 then b'0' + n else b'a' + (n - 10)

-- The hexadecimal encoding: for each byte its two digits, the higher one first.
abbrev pub hex_of : List ℕ → Text
hex_of [] = []
hex_of (b ∷ sum) = digit_of (b / 16) ∷ digit_of (b % 16) ∷ hex_of sum

-- What is documented of the standard library: `hex.EncodeToString` is the hexadecimal encoding, and a
-- digest consists of bytes.
pub record IsStandard (ds : Digests) : Type 0 where
  pub encodes : (sum : List ℕ) → All (λ b. b < 256) sum → ds.encode_to_string sum ≡ hex_of sum
  pub are_bytes :
      (t content : Text) {digest : List ℕ → List ℕ}
      → new_hash ds t ≡ some digest
      → All (λ b. b < 256) (digest content)

digits_agree : ℕ → Bool
digits_agree zero = true
digits_agree (suc n) = char_at hex_chars n == digit_of n && digits_agree n

all_agree : digits_agree 16 ≡ true
unfolding digits_agree char_at nat_eq
all_agree = refl

agreed : (k n : ℕ) → digits_agree k ≡ true → n < k → char_at hex_chars n ≡ digit_of n
unfolding digits_agree
agreed zero n h l = absurd (omega arith)
agreed (suc k) n h l = elim (Bool-cases (n == k)) [
  | inl same ↦ rw (==-true n k same) (==-true (char_at hex_chars k) (digit_of k) (ground arith))
  | inr other ↦ agreed k n (ground arith) (ground arith)
]

-- `HashBytesFromSum` is the hexadecimal encoding.
hash_bytes_from_sum_lem :
    (sum : List ℕ) → All (λ b. b < 256) sum → hash_bytes_from_sum sum ≡ hex_of sum
unfolding hash_bytes_from_sum
hash_bytes_from_sum_lem [] h = refl
hash_bytes_from_sum_lem (b ∷ sum) (h, hs) =
    ap₂ ◌∷◌ (agreed 16 (b / 16) all_agree (omega arith))
      (ap₂ ◌∷◌ (agreed 16 (b % 16) all_agree (omega arith)) (hash_bytes_from_sum_lem sum hs))

module _ {W : Type 0} (src dst : Backend W) (v : Views W) (lawful : IsLawful v src dst) where
  -- Where nothing fails, what is hashed is what is written.
  copy_hashed_lem :
      (h : ℕ) (chunks : List (List ℕ)) (hashed : List ℕ) (w : W) {q : Text} {buffer : List ℕ}
      → v.pending w h ≡ some (q, buffer)
      → copy_hashed dst h chunks none hashed w
        ≡ ((copy_chunks dst h chunks none w).0, none, hashed ++ concat chunks)
  unfolding copy_hashed copy_chunks
  copy_hashed_lem h [] hashed w e = rw (append-nil hashed) refl
  copy_hashed_lem h (chunk ∷ chunks) hashed w e =
      let (fine, held, same) = lawful.writes h chunk w e in
      let rest = copy_hashed_lem h chunks (hashed ++ chunk) (dst.write h chunk w).0 held in
      rw (copy_hashed, copy_chunks, fine, ==-refl (length chunk))
        (rw⁻¹ (append_assoc hashed chunk (concat chunks)) rest)

  copy_path_with_hash_runs :
      (ds : Digests) (t p q : Text) (os : List WriterOption) (w w2 : W) (s : Stream) (h : ℕ)
      (digest : List ℕ → List ℕ) (content : List ℕ)
      → src.new_reader p w ≡ ok s
      → (dst.new_writer q os w).1 ≡ ok h
      → new_hash ds t ≡ some digest
      → copy_hashed dst h s.chunks s.failure [] (dst.new_writer q os w).0 ≡ (w2, none, content)
      → (dst.close_writer h w2).1 ≡ ok tt
      → copy_path_with_hash src dst ds t p q os w
        ≡ ((dst.close_writer h w2).0, ok (hash_bytes_from_sum (digest content)))
  unfolding copy_path_with_hash
  copy_path_with_hash_runs ds t p q os w w2 s h digest content opened began supported hashed
        closed =
      let finish : W × Option Error × List ℕ → W × Result Error Text = λ x. (
        (dst.close_writer h x.0).0,
        elim x.1 [
          | some e ↦ err e
          | none ↦ elim (dst.close_writer h x.0).1 [
            | err e ↦ err e
            | ok _ ↦ ok (hash_bytes_from_sum (digest x.2))
          ]
        ],
      ) in
      let same : copy_path_with_hash src dst ds t p q os w
          ≡ finish (copy_hashed dst h s.chunks s.failure [] (dst.new_writer q os w).0) =
        rw (copy_path_with_hash, opened, began, supported) refl in
      same ∙ ap finish hashed ∙ rw closed refl

  -- Between two distinct backends that keep what their interface promises, `CopyPathWithHash` of a file that
  -- is there, to a path that the destination accepts and with a hash type that is supported, returns
  -- what `HashBytes` makes of the content, the hexadecimal encoding of its digest, and leaves the content
  -- at the destination. `hex.EncodeToString` does what is documented.
  pub copy_path_with_hash_lem :
      (ds : Digests) (t p q : Text) (os : List WriterOption) (w : W) {digest : List ℕ → List ℕ}
      {content : List ℕ}
      → new_hash ds t ≡ some digest
      → v.in_src w p ≡ some content
      → v.is_path q ≡ true
      → IsStandard ds
      → ((copy_path_with_hash src dst ds t p q os w).1 ≡ ok (hash_bytes ds content t))
        × (hash_bytes ds content t ≡ hex_of (digest content))
        × Differs v q (some content) w (copy_path_with_hash src dst ds t p q os w).0
  unfolding copy_path_with_hash hash_bytes
  copy_path_with_hash_lem ds t p q os w {digest} {content} supported there good standard =
      let (s, opened, whole, no_failure) = lawful.reads p w there in
      let (h, began, empty, (same_src, same_dst)) = lawful.opens q os w good in
      let w1 = (dst.new_writer q os w).0 in
      let (written, held, (same_src', same_dst')) =
        copy_chunks_lem src dst v lawful h s.chunks none w1 empty in
      let w2 = (copy_chunks dst h s.chunks none w1).0 in
      let hashed : copy_hashed dst h s.chunks s.failure [] w1 ≡ (w2, none, content) =
        ap (λ f. copy_hashed dst h s.chunks f [] w1) no_failure
        ∙ copy_hashed_lem h s.chunks [] w1 empty
        ∙ rw whole refl in
      let (closed, (same_src'', now_dst)) = lawful.closes h w2 held in
      let encoded = standard.encodes (digest content) (standard.are_bytes t content supported) in
      let named =
        hash_bytes_from_sum_lem (digest content) (standard.are_bytes t content supported) in
      let run =
        copy_path_with_hash_runs ds t p q os w w2 s h digest content opened began supported hashed
          closed in
      rw (run, hash_bytes, supported)
        (
          ap ok (named ∙ sym encoded),
          encoded,
          (
            λ x. same_src'' x ∙ same_src' x ∙ same_src x,
            λ x. ground (arith, now_dst x, same_dst' x, same_dst x, whole),
          ),
        )
