-- ===== src/Session/Ids.antt =====
-- session/session.go: session IDs, how they are generated and which are accepted.
use omnistorage_core.Base.{
  ℕ, ◌+◌, ◌*◌, ◌/◌, ◌%◌, ◌≡◌, refl, ◌∙◌, Bool, true, false, ◌&&◌, ◌||◌, List, [], ◌∷◌, arith, leb,
  ltb, ◌==◌, nat_eq, list_eq, length, if◌then◌else◌, Result, ok, err, ap, ◌-◌, sym,
}
use omnistorage_core.Base.Text.{Text}

-- `MaxSessionIDLength`
abbrev pub max_session_id_length : ℕ
max_session_id_length = 256

-- the characters that `ValidSessionID` lets pass
unfoldable pub is_id_byte : ℕ → Bool
is_id_byte c =
    leb b'A' c && leb c b'Z'
    || leb b'a' c && leb c b'z'
    || leb b'0' c && leb c b'9'
    || c == b'-'
    || c == b'_'
    || c == b'.'

-- the loop of `ValidSessionID`
unfoldable pub are_id_bytes : Text → Bool
unfolding is_id_byte
are_id_bytes [] = true
are_id_bytes (c ∷ s) = is_id_byte c && are_id_bytes s

-- `ValidSessionID`
unfoldable pub valid_session_id : Text → Bool
valid_session_id id =
    if id == [] || ltb max_session_id_length (length id) then false else are_id_bytes id

-- The alphabet of `base64.RawURLEncoding`.
unfoldable pub base64_char : ℕ → ℕ
base64_char n =
    if ltb n 26
    then n + b'A'
    else if ltb n 52
    then n - 26 + b'a'
    else if ltb n 62
    then n - 52 + b'0'
    else if n == 62
    then b'-'
    else b'_'

-- `base64.RawURLEncoding.EncodeToString`
unfoldable pub base64_encode : List ℕ → Text
unfolding base64_char
base64_encode [] = []
base64_encode (a ∷ []) = base64_char (a / 4) ∷ base64_char (a % 4 * 16) ∷ []
base64_encode (a ∷ b ∷ []) =
    base64_char (a / 4) ∷ base64_char (a % 4 * 16 + b / 16) ∷ base64_char (b % 16 * 4) ∷ []
base64_encode (a ∷ b ∷ c ∷ rest) =
    base64_char (a / 4)
    ∷ base64_char (a % 4 * 16 + b / 16)
    ∷ base64_char (b % 16 * 4 + c / 64)
    ∷ base64_char (c % 64)
    ∷ base64_encode rest

-- `GenerateSessionID`, given what `rand.Read` yields: an error, or `SessionIDLength` bytes.
unfoldable pub generate_session_id {ℓ} : {E : Type ℓ} → Result E (List ℕ) → Result E Text
unfolding base64_encode
generate_session_id (err e) = err e
generate_session_id (ok random) = ok (base64_encode random)

base64_char-is_id_byte : (n : ℕ) → is_id_byte (base64_char n) ≡ true
unfolding base64_char is_id_byte
base64_char-is_id_byte n = ground arith

base64_encode-are_id_bytes : (xs : List ℕ) → are_id_bytes (base64_encode xs) ≡ true
unfolding base64_encode are_id_bytes
base64_encode-are_id_bytes [] = refl
base64_encode-are_id_bytes (a ∷ []) =
    ground (arith, base64_char-is_id_byte (a / 4), base64_char-is_id_byte (a % 4 * 16))
base64_encode-are_id_bytes (a ∷ b ∷ []) = ground (
  arith,
  base64_char-is_id_byte (a / 4),
  base64_char-is_id_byte (a % 4 * 16 + b / 16),
  base64_char-is_id_byte (b % 16 * 4),
)
base64_encode-are_id_bytes (a ∷ b ∷ c ∷ rest) = ground (
  arith,
  base64_char-is_id_byte (a / 4),
  base64_char-is_id_byte (a % 4 * 16 + b / 16),
  base64_char-is_id_byte (b % 16 * 4 + c / 64),
  base64_char-is_id_byte (c % 64),
  base64_encode-are_id_bytes rest,
)

-- six bits for each character, rounded up
length-base64_encode : (xs : List ℕ) → length (base64_encode xs) ≡ (length xs * 4 + 2) / 3
unfolding base64_encode
length-base64_encode [] = omega arith
length-base64_encode (a ∷ []) = omega arith
length-base64_encode (a ∷ b ∷ []) = omega arith
length-base64_encode (a ∷ b ∷ c ∷ rest) = omega (arith, length-base64_encode rest)

valid_of_bytes : (id : Text) → length id ≡ 43 → are_id_bytes id ≡ true → valid_session_id id ≡ true
unfolding valid_session_id
valid_of_bytes [] h k = absurd (omega arith)
valid_of_bytes (c ∷ s) h k = ground arith

-- A generated ID is a valid one: for any 32 random bytes the encoded text has 43 characters and
-- passes `ValidSessionID`.
pub generate_session_id-valid :
    {E : Type 0} (random : List ℕ) {id : Text}
    → length random ≡ 32
    → generate_session_id {E = E} (ok random) ≡ ok id
    → (length id ≡ 43) × (valid_session_id id ≡ true)
unfolding generate_session_id
generate_session_id-valid random {id} h e =
    let same : base64_encode random ≡ id = cc in
    let size : length id ≡ 43 =
      ap length (sym same) ∙ length-base64_encode random ∙ (omega arith) in
    (size, valid_of_bytes id size (rw same at (base64_encode-are_id_bytes random)))
