-- ===== src/Session/Controls.antt =====
-- session/wrapper.go: `ControlledStore`. The calls of encoding/json, crypto/sha256 and the package
-- uuid are fields of `Codec`. The texts of messages and the details of errors are left out.
pub mod Sites
pub mod Limit
use omnistorage_core.Base.{
  ℕ, ◌+◌, ◌-◌, Bool, not, ◌||◌, Option, none, some, List, [], ◌∷◌, ◌++◌, ltb, if◌then◌else◌, ◌==◌,
  list_eq, nat_eq, length, take, replicate, filter, Result, ok, err, pos_part, is_positive,
}
use omnistorage_core.Base.Text.{Text}
use omnistorage_core.Session.{
  Session, Config, Error, Code, coded, sentinel, foreign, Sentinel, is_error,
}
use omnistorage_core.Session.Backend.{Backend}

pub record Codec (D : Type 0) : Type 0 where
  -- whether `Data` is a nil map
  pub is_nil : D → Bool
  -- `json.Marshal` of `Data` and of the session, and whether `json.Unmarshal` reads a map back
  pub marshal_data : D → Result Error Text
  pub unmarshal_data : Text → Result Error (Unit {0})
  pub marshal_session : Session D → Result Error Text
  -- `SessionRef` and `uuid.UUID.String`
  pub session_ref : Text → Text
  pub uuid_string : Text → Text

-- `ViolationType`
pub data Violation : Type 0 where
  size_exceeded not_serializable invalid_session session_limit_exceeded site_mismatch : Violation

-- `ViolationEvent`
pub record Event : Type 0 where
  pub kind : Violation
  pub session_ref : Text
  pub user_id : Text
  pub site_id : Text
  pub size : ℕ
  pub limit : ℕ

-- `uuid.UUID{}`
abbrev pub nil_uuid : Text
nil_uuid = replicate 16 0

abbrev pub no_event : Violation → Event
no_event kind = record {
  kind = kind;
  session_ref = [];
  user_id = nil_uuid;
  site_id = [];
  size = 0;
  limit = 0;
}

module _ {D : Type 0} (B : Backend D) where
  -- The wrapped store, and the violations that were logged and handed to the handler.
  pub record Controlled : Type 0 where
    pub store : B.State
    pub events : List Event

module _ {D : Type 0} (B : Backend D) where
  -- A method: from a state to a state and a result.
  abbrev pub M {ℓ} : Type ℓ → Type ℓ
  M A = Controlled B → Controlled B × Result Error A

module _ {D : Type 0} {B : Backend D} where
  infixl 5 ◌>>=◌ ◌>>◌
  abbrev pub ◌>>=◌ : {A C : Type 0} → M B A → (A → M B C) → M B C
  ◌>>=◌ m f c = let (c', r) = m c in elim r [ ok a ↦ f a c' | err e ↦ (c', err e) ]

  abbrev pub ◌>>◌ : {C : Type 0} → M B (Unit {0}) → M B C → M B C
  m >> k = m >>= λ _. k

  abbrev pub return : {A : Type 0} → A → M B A
  return a c = (c, ok a)

  abbrev pub fail : {A : Type 0} → Error → M B A
  fail e c = (c, err e)

  -- `reportViolation`
  unfoldable pub report_violation : Event → M B (Unit {0})
  report_violation e c = (record c { events = c.events ++ e ∷ [] }, ok tt)

  -- a call of a method of the wrapped store
  abbrev pub call : {A : Type 0} → (B.State → B.State × Result Error A) → M B A
  call m c = let (s, r) = m c.store in (record c { store = s }, r)

module _ {D : Type 0} (B : Backend D) (codec : Codec D) (config : Config) where
  -- `validateSession`; a success carries the session, which is not nil.
  unfoldable pub validate_session : Option (Session D) → M B (Session D)
  validate_session none = do
    report_violation (no_event Violation.invalid_session)
    fail (coded Code.invalid_session (sentinel Sentinel.invalid_session))
  validate_session (some s) =
      if s.id == []
      then (do
        report_violation (record (no_event Violation.invalid_session) { user_id = s.user_id })
        fail (coded Code.invalid_session (sentinel Sentinel.invalid_session)))
      else if s.user_id == nil_uuid
      then (do
        report_violation
            (record (no_event Violation.invalid_session) { session_ref = codec.session_ref s.id })
        fail (coded Code.invalid_session (sentinel Sentinel.invalid_session)))
      else return s

  abbrev event_of : Violation → Session D → Event
  event_of kind s = record (no_event kind) {
    session_ref = codec.session_ref s.id;
    user_id = s.user_id;
  }

  -- `validateSerializable`
  unfoldable pub validate_serializable : Session D → M B (Unit {0})
  validate_serializable s =
      if codec.is_nil s.content then return tt else elim (codec.marshal_data s.content) [
        | err e ↦ do
          report_violation (event_of Violation.not_serializable s)
          fail (coded Code.not_serializable e)
        | ok text ↦ elim (codec.unmarshal_data text) [
          | err e ↦ do
            report_violation (event_of Violation.not_serializable s)
            fail (coded Code.not_serializable e)
          | ok _ ↦ return tt
        ]
      ]

  -- `checkSizeLimit`
  unfoldable pub check_size_limit : Session D → M B (Unit {0})
  check_size_limit s =
      if not (is_positive config.max_session_size)
      then return tt
      else elim (codec.marshal_session s) [
        | err e ↦ fail (coded Code.not_serializable e)
        | ok text ↦
            if ltb (pos_part config.max_session_size) (length text)
            then (do
              report_violation (record (event_of Violation.size_exceeded s) {
                size = length text;
                limit = pos_part config.max_session_size;
              })
              fail (coded Code.size_limit_exceeded (sentinel Sentinel.size_limit_exceeded)))
            else return tt
      ]

  -- `session.SiteID = s.config.SiteID`, if a site is configured
  unfoldable pub tag : Session D → Session D
  tag s = if config.site_id == [] then s else record s { site_id = config.site_id }

  -- the sessions that count for the site
  unfoldable pub of_site : List (Session D) → List (Session D)
  of_site xs = if config.site_id == [] then xs else filter (λ x. x.site_id == config.site_id) xs

  -- The loop of `enforceSessionLimit` that evicts. An error of a `Delete` is logged and passed over.
  unfoldable pub evict : List (Session D) → M B (Unit {0})
  evict [] c = return tt c
  evict (x ∷ xs) c = evict xs (call (B.delete x.id) c).0

  -- what `enforceSessionLimit` does with the sessions that it found
  unfoldable pub make_room : Session D → List (Session D) → M B (Unit {0})
  make_room s sessions =
      let max = pos_part config.max_sessions_per_user in
      if ltb (length sessions) max then return tt else (do
        report_violation (record (event_of Violation.session_limit_exceeded s) {
          site_id = config.site_id;
          size = length sessions;
          limit = max;
        })
        evict (take (length sessions + 1 - max) sessions))

  -- `enforceSessionLimit`
  unfoldable pub enforce_session_limit : Session D → M B (Unit {0})
  enforce_session_limit s =
      if not (is_positive config.max_sessions_per_user) then return tt else elim B.list_by_user_id [
        | none ↦ return tt
        | some list ↦ λ c.
            let (c', r) = call (list (codec.uuid_string s.user_id)) c in
            elim r [ err _ ↦ (c', ok tt) | ok all ↦ make_room s (of_site all) c' ]
      ]

  unfoldable pub create : Option (Session D) → M B (Unit {0})
  create session = do
    given ← validate_session session
    let s = tag given
    validate_serializable s
    check_size_limit s
    enforce_session_limit s
    call (B.create (some s))

  -- `checkSite`
  unfoldable pub check_site : Session D → M B (Unit {0})
  check_site s = if config.site_id == [] || s.site_id == config.site_id then return tt else (do
    report_violation (record (event_of Violation.site_mismatch s) { site_id = s.site_id })
    fail (sentinel Sentinel.not_found))

  unfoldable pub get : Text → M B (Session D)
  get id = do s ← call (B.get id); check_site s; return s

  -- `verifyOwnership`
  unfoldable pub verify_ownership : Text → M B (Unit {0})
  verify_ownership id =
      if config.site_id == [] then return tt else (do stored ← call (B.get id); check_site stored)

  -- `Update`; a success carries the session as it leaves the caller's.
  unfoldable pub update : Option (Session D) → M B (Session D)
  update session = do
    given ← validate_session session
    verify_ownership given.id
    let s = tag given
    validate_serializable s
    check_size_limit s
    call (B.update (some s))

  unfoldable pub delete : Text → M B (Unit {0})
  delete id c =
      let (c', r) = verify_ownership id c in
      elim r [
        | ok _ ↦ call (B.delete id) c'
        | err e ↦ if is_error e Sentinel.not_found then (c', ok tt) else (c', err e)
      ]

  -- the loop of `DeleteByUserID`, which counts
  unfoldable pub delete_each : List (Session D) → ℕ → M B ℕ
  delete_each [] count c = return count c
  delete_each (x ∷ xs) count c =
      let skip = delete_each xs count c in
      let (c', r) = call (B.delete x.id) c in
      let rest = delete_each xs (count + 1) c' in
      if not (x.site_id == config.site_id)
      then skip
      else elim r [ ok _ ↦ rest | err e ↦ (c', err (Error.wrapped e)) ]

  -- `foreign 0` is the error that the store cannot list.
  unfoldable pub delete_by_user_id : Text → M B ℕ
  delete_by_user_id user =
      if config.site_id == [] then call (B.delete_by_user_id user) else elim B.list_by_user_id [
        | none ↦ fail (foreign 0)
        | some list ↦ do sessions ← call (list user); delete_each sessions 0
      ]

  unfoldable pub touch : Text → M B (Unit {0})
  touch id = do verify_ownership id; call (B.touch id)

  unfoldable pub close : M B (Unit {0})
  close = call B.close

  unfoldable pub list_by_user_id : Text → M B (List (Session D))
  list_by_user_id user = elim B.list_by_user_id [
    | none ↦ fail (foreign 0)
    | some list ↦ do sessions ← call (list user); return (of_site sessions)
  ]
