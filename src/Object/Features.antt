-- ===== src/Object/Features.antt =====
-- object/features.go: what a backend can do, and which hash two backends share.
use omnistorage_core.Base.{
  ◌≡◌, refl, Bool, true, false, ◌&&◌, List, [], ◌∷◌, arith, if◌then◌else◌, ◌==◌, list_eq, nat_eq,
  Bool-cases, inl, inr,
}
use omnistorage_core.Base.Text.{Text}
use omnistorage_core.Object.Hashing.{md5_type, sha1_type, sha256_type, crc32c_type}

-- `Features`
pub record Features : Type 0 where
  pub copy : Bool
  pub move : Bool
  pub mkdir : Bool
  pub rmdir : Bool
  pub stat : Bool
  pub hashes : List Text
  pub can_stream : Bool
  pub server_side_encryption : Bool
  pub versioning : Bool
  pub range_read : Bool
  pub list_prefix : Bool
  pub set_mod_time : Bool
  pub custom_metadata : Bool

-- the loop of `SupportsHash`
unfoldable pub has_hash : Text → List Text → Bool
has_hash t [] = false
has_hash t (h ∷ hs) = let rest = has_hash t hs in if h == t then true else rest

-- `SupportsHash`
abbrev pub supports_hash : Features → Text → Bool
supports_hash f t = has_hash t f.hashes

-- the order of preference
abbrev pub preference_order : List Text
preference_order = sha256_type ∷ sha1_type ∷ md5_type ∷ crc32c_type ∷ []

-- the loops of `PreferredHash` and `CommonHash`; the empty type is `HashNone`
unfoldable pub first_hash : (Text → Bool) → List Text → Text
first_hash fits [] = []
first_hash fits (t ∷ ts) = let rest = first_hash fits ts in if fits t then t else rest

-- `PreferredHash`
unfoldable pub preferred_hash : Features → Text
preferred_hash f = first_hash (supports_hash f) preference_order

-- `CommonHash`
unfoldable pub common_hash : Features → Features → Text
common_hash f g = first_hash (λ t. supports_hash f t && supports_hash g t) preference_order

first_hash_same :
    (p q : Text → Bool) (ts : List Text)
    → ((t : Text) → p t ≡ q t)
    → first_hash p ts ≡ first_hash q ts
unfolding first_hash
first_hash_same p q [] h = refl
first_hash_same p q (t ∷ ts) h = rw (h t, first_hash_same p q ts h) refl

and_comm : (a b : Bool) → a && b ≡ b && a
and_comm a b = ground arith

-- Two backends agree on their common hash whichever is asked.
pub common_hash_comm : (f g : Features) → common_hash f g ≡ common_hash g f
unfolding common_hash
common_hash_comm f g =
    first_hash_same (λ t. supports_hash f t && supports_hash g t)
      (λ t. supports_hash g t && supports_hash f t) preference_order
      (λ t. and_comm (supports_hash f t) (supports_hash g t))

first_hash_fits :
    (p : Text → Bool) (ts : List Text)
    → (first_hash p ts == []) ≡ false
    → p (first_hash p ts) ≡ true
unfolding first_hash list_eq
first_hash_fits p [] h = cc
first_hash_fits p (t ∷ ts) h = elim (Bool-cases (p t)) [
  | inl e ↦ rw e e
  | inr e ↦ rw e (first_hash_fits p ts (rw e at h))
]

-- A common hash other than `HashNone` is one that both support.
pub common_hash_supported :
    (f g : Features)
    → ((common_hash f g == []) ≡ false)
    → supports_hash f (common_hash f g) && supports_hash g (common_hash f g) ≡ true
unfolding common_hash
common_hash_supported f g h =
    first_hash_fits (λ t. supports_hash f t && supports_hash g t) preference_order h
