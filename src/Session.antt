-- ===== src/Session.antt =====
-- session/session.go and session/errors.go: sessions, their configuration and their errors. A time
-- is a number of nanoseconds since the zero `time.Time`, which is 0. A `uuid.UUID` is its 16 bytes.
pub mod Ids
pub mod Order
pub mod Memory
pub mod Backend
pub mod Controls
pub mod Kvs
use omnistorage_core.Base.{
  ℕ, suc, ◌-◌, ◌+◌, Bool, true, false, not, ◌&&◌, ◌||◌, Option, List, ltb, ◌==◌, nat_eq, ℤ, pos,
  is_positive, pos_part, if◌then◌else◌, none, some, list_eq, replicate, Eq, Result, ok, err, [],
}
use omnistorage_core.Base.Text.{Text, bytes}
use omnistorage_core.Session.Ids.{generate_session_id}

-- `Session`, generic in what `Data` holds
pub record Session (D : Type 0) : Type 0 where
  pub id : Text
  pub user_id : Text
  pub site_id : Text
  pub organization_id : Option Text
  pub content : D
  pub created_at : ℕ
  pub updated_at : ℕ
  pub last_accessed_at : ℕ
  pub expires_at : ℕ
  pub ip_address : Text
  pub user_agent : Text

-- `Config`
pub record Config : Type 0 where
  pub site_id : Text
  pub max_session_size : ℤ
  pub max_sessions_per_user : ℤ
  pub default_ttl : ℤ
  pub cleanup_interval : ℤ
  pub key_prefix : Text

-- `DefaultConfig`
abbrev pub default_config : Config
default_config = record {
  site_id = [];
  max_session_size = pos 1048576;
  max_sessions_per_user = pos 0;
  default_ttl = pos 86400000000000;
  cleanup_interval = pos 300000000000;
  key_prefix = bytes "session:";
}

-- The package's sentinel errors.
pub data Sentinel : Type 0 where
  not_found expired invalid_session size_limit_exceeded session_limit_exceeded : Sentinel
  site_mismatch closed : Sentinel

-- The codes of a `SessionError`.
pub data Code : Type 0 where
  invalid_session size_limit_exceeded not_serializable not_found expired store_closed : Code
  session_limit_exceeded site_mismatch : Code

-- An error: a sentinel, what `ctx.Err()` returns, one of another package, a `SessionError` with
-- its cause, or one wrapped by `fmt.Errorf` with `%w`.
pub data Error : Type 0 where
  sentinel : Sentinel → Error
  context : ℕ → Error
  foreign : ℕ → Error
  coded : Code → Error → Error
  wrapped : Error → Error

pub Sentinel-discrete : Discrete Sentinel
Sentinel-discrete = hlevel

instance unfoldable pub sentinel_eq : Eq Sentinel
unfolding Sentinel-discrete
sentinel_eq = record { dec = Sentinel-discrete }

-- The switch of `SessionError.Is`, at a sentinel as the target.
unfoldable pub matches_code : Code → Sentinel → Bool
unfolding sentinel_eq
matches_code Code.not_found t = t == Sentinel.not_found
matches_code Code.expired t = t == Sentinel.expired
matches_code Code.invalid_session t = t == Sentinel.invalid_session
matches_code Code.size_limit_exceeded t = t == Sentinel.size_limit_exceeded
matches_code Code.store_closed t = t == Sentinel.closed
matches_code Code.session_limit_exceeded t = t == Sentinel.session_limit_exceeded
matches_code Code.site_mismatch t = t == Sentinel.site_mismatch
matches_code Code.not_serializable t = false

-- `errors.Is(err, target)` at a sentinel
unfoldable pub is_error : Error → Sentinel → Bool
unfolding matches_code
is_error (sentinel s) t = s == t
is_error (context n) t = false
is_error (foreign n) t = false
is_error (coded c cause) t = matches_code c t || is_error cause t
is_error (wrapped cause) t = is_error cause t

-- `ErrorCode`, `none` being ""
unfoldable pub error_code : Error → Option Code
error_code (coded c cause) = some c
error_code (wrapped cause) = error_code cause
error_code _ = none

module _ {D : Type 0} where
  -- `IsExpired`
  unfoldable pub is_expired : ℕ → Session D → Bool
  is_expired now s = not (s.expires_at == 0) && ltb s.expires_at now

  -- `TTL`
  unfoldable pub ttl : ℕ → Session D → ℕ
  ttl now s = if s.expires_at == 0 then 0 else s.expires_at - now

  -- `NewSession`: the random bytes, if they could be read, the empty map, and the clock.
  unfoldable pub new_session : Result Error (List ℕ) → D → ℕ → Text → ℤ → Result Error (Session D)
  unfolding generate_session_id
  new_session random empty now user_id life = elim (generate_session_id random) [
    | err e ↦ err e
    | ok id ↦ ok (record {
      id = id;
      user_id = user_id;
      site_id = [];
      organization_id = none;
      content = empty;
      created_at = now;
      updated_at = now;
      last_accessed_at = now;
      expires_at = if is_positive life then now + pos_part life else 0;
      ip_address = [];
      user_agent = [];
    })
  ]
