-- ===== src/Session/Kvs/Keys.antt =====
-- The keys of the session store of session/backend/kvs/kvs.go: no session's key is that of another
-- session or of a user's index.
use mathlib.Core.List.{append_assoc}
use omnistorage_core.Base.{
  sym, drop, length, ◌≡◌, refl, ◌∙◌, true, false, [], ◌∷◌, ◌++◌, arith, ◌==◌, list_eq, nat_eq,
}
use omnistorage_core.Base.Text.{Text, has_prefix, bytes}
use omnistorage_core.Session.{Config}
use omnistorage_core.Session.Ids.{is_id_byte, are_id_bytes, valid_session_id}
use omnistorage_core.Session.Kvs.{session_key, user_sessions_key, trim_prefix}

==-append : (p s t : Text) → (p ++ s == p ++ t) ≡ (s == t)
==-append [] s t = refl
==-append (c ∷ p) s t = ground (arith, ==-append p s t)

pub session_key-eq :
    (config : Config) (i j : Text) → (session_key config i == session_key config j) ≡ (i == j)
unfolding session_key
session_key-eq config i j = ==-append config.key_prefix i j

colon : (s t : Text) → are_id_bytes s ≡ true → (s == b'u' ∷ b's' ∷ b'e' ∷ b'r' ∷ b':' ∷ t) ≡ false
unfolding are_id_bytes is_id_byte
colon [] t h = ground arith
colon (a ∷ []) t h = ground arith
colon (a ∷ b ∷ []) t h = ground arith
colon (a ∷ b ∷ c ∷ []) t h = ground arith
colon (a ∷ b ∷ c ∷ d ∷ []) t h = ground arith
colon (a ∷ b ∷ c ∷ d ∷ e ∷ s) t h = ground arith

valid_bytes : (id : Text) → valid_session_id id ≡ true → are_id_bytes id ≡ true
unfolding valid_session_id
valid_bytes id h = ground arith

-- The key of a valid session ID is not the key of a user's index, whoever the user.
pub session_key-ne-user_sessions_key :
    (config : Config) (id user : Text)
    → valid_session_id id ≡ true
    → (session_key config id == user_sessions_key config user) ≡ false
unfolding session_key user_sessions_key
session_key-ne-user_sessions_key config id user h =
    ==-append config.key_prefix id _ ∙ colon id user (valid_bytes id h)

has_prefix-split : (s p : Text) → has_prefix s p ≡ true → p ++ drop (length p) s ≡ s
unfolding has_prefix
has_prefix-split s [] h = refl
has_prefix-split [] (c ∷ p) h = cc
has_prefix-split (d ∷ s) (c ∷ p) h = ground (arith, has_prefix-split s p)

-- A key below the prefix of the indexes is that of the user whose name stands behind the prefix.
pub user_sessions_key-trim_prefix :
    (config : Config) (key : Text)
    → has_prefix key (config.key_prefix ++ bytes "user:") ≡ true
    → user_sessions_key config (trim_prefix key (config.key_prefix ++ bytes "user:")) ≡ key
unfolding user_sessions_key trim_prefix
user_sessions_key-trim_prefix config key h = rw h (
    sym (append_assoc config.key_prefix (bytes "user:") _)
    ∙ has_prefix-split key (config.key_prefix ++ bytes "user:") h)
