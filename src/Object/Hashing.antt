-- ===== src/Object/Hashing.antt =====
-- object/hash.go: hash types, digests and hash sets. The digests themselves are of the standard library.
use omnistorage_core.Base.{
  ℕ, zero, suc, ◌/◌, ◌%◌, Bool, true, false, Option, none, some, List, [], ◌∷◌, ◌++◌, if◌then◌else◌,
  ◌==◌, list_eq, nat_eq, Result, ok, err,
}
use omnistorage_core.Base.Dict
use omnistorage_core.Base.Dict.{Dict}
use omnistorage_core.Base.Text.{Text, bytes}
use omnistorage_core.Object.{Error}
use omnistorage_core.Object.Backend.{Stream}

-- `HashType`
abbrev pub md5_type : Text
md5_type = bytes "md5"

abbrev pub sha1_type : Text
sha1_type = bytes "sha1"

abbrev pub sha256_type : Text
sha256_type = bytes "sha256"

abbrev pub crc32c_type : Text
crc32c_type = bytes "crc32c"

-- `SupportedHashes`
abbrev pub supported_hashes : List Text
supported_hashes = md5_type ∷ sha1_type ∷ sha256_type ∷ crc32c_type ∷ []

-- The digests of the standard library, by the content that is hashed, and `hex.EncodeToString`.
pub record Digests : Type 0 where
  pub md5 : List ℕ → List ℕ
  pub sha1 : List ℕ → List ℕ
  pub sha256 : List ℕ → List ℕ
  pub crc32c : List ℕ → List ℕ
  pub encode_to_string : List ℕ → Text

-- `NewHash`
unfoldable pub new_hash : Digests → Text → Option (List ℕ → List ℕ)
new_hash ds t =
    if t == md5_type
    then some ds.md5
    else if t == sha1_type
    then some ds.sha1
    else if t == sha256_type
    then some ds.sha256
    else if t == crc32c_type
    then some ds.crc32c
    else none

-- `hexChars` of object/copy.go, and a byte of it; the indices there are below 16.
abbrev pub hex_chars : Text
hex_chars = bytes "0123456789abcdef"

unfoldable pub char_at : Text → ℕ → ℕ
char_at [] n = 0
char_at (c ∷ s) zero = c
char_at (c ∷ s) (suc n) = char_at s n

-- `HashBytesFromSum` of object/copy.go
unfoldable pub hash_bytes_from_sum : List ℕ → Text
hash_bytes_from_sum [] = []
hash_bytes_from_sum (b ∷ sum) =
    char_at hex_chars (b / 16) ∷ char_at hex_chars (b % 16) ∷ hash_bytes_from_sum sum

abbrev pub concat : List (List ℕ) → List ℕ
concat [] = []
concat (chunk ∷ chunks) = chunk ++ concat chunks

-- `HashReader`
unfoldable pub hash_reader : Digests → Stream → Text → Result Error Text
hash_reader ds r t = elim (new_hash ds t) [
  | none ↦ err Error.not_supported
  | some h ↦ elim r.failure [
    | some e ↦ err e
    | none ↦ ok (ds.encode_to_string (h (concat r.chunks)))
  ]
]

-- `HashBytes`
unfoldable pub hash_bytes : Digests → List ℕ → Text → Text
hash_bytes ds content t = elim (new_hash ds t) [
  | none ↦ []
  | some h ↦ ds.encode_to_string (h content)
]

-- `HashSet`, where `none` is nil
abbrev pub HashSet : Type 0
HashSet = Option (Dict Text Text)

-- `Get`, `Set` and `Has`
unfoldable pub get : Text → HashSet → Text
get t none = []
get t (some d) = elim (Dict.lookup t d) [ none ↦ [] | some v ↦ v ]

unfoldable pub set : Text → Text → HashSet → HashSet
set t v none = none
set t v (some d) = some (Dict.insert t v d)

unfoldable pub has : Text → HashSet → Bool
has t none = false
has t (some d) = Dict.is_some (Dict.lookup t d)

-- the loop of `Equal`, with `foundCommon`
unfoldable pub equal_loop : Dict Text Text → Dict Text Text → Bool → Bool
equal_loop [] other found = found
equal_loop ((t, v) ∷ d) other found =
    let common = equal_loop d other true in
    let rest = equal_loop d other found in
    elim (Dict.lookup t other) [ none ↦ rest | some ov ↦ if v == ov then common else false ]

-- `Equal`
unfoldable pub equal : HashSet → HashSet → Bool
equal none other = false
equal (some d) none = false
equal (some d) (some other) = equal_loop d other false
