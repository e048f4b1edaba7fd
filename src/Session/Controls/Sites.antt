-- ===== src/Session/Controls/Sites.antt =====
-- Sites, validation and sizes under the controls of session/wrapper.go.
use omnistorage_core.Base.{
  ◌≤◌, ◌≡◌, ◌≢◌, inl, inr, true, some, [], arith, list_eq, nat_eq, length, ok, err, pos_part,
  is_positive, Result-cases,
}
use omnistorage_core.Base.Text.{Text}
use omnistorage_core.Session.{Session, Config, sentinel, Sentinel, is_error}
use omnistorage_core.Session.Backend.{Backend}
use omnistorage_core.Session.Controls
use omnistorage_core.Session.Controls.{
  ◌>>=◌, ◌>>◌, Codec, Controlled, M, return, fail, call, nil_uuid, report_violation, check_site,
  check_size_limit, verify_ownership, tag, get, update, delete, touch, create,
}

module _ {D : Type 0} (B : Backend D) (codec : Codec D) (config : Config) where
  -- With a site configured, `Get` returns only sessions of that site.
  pub get-site_id :
      (id : Text) (c : Controlled B) {s : Session D}
      → config.site_id ≢ []
      → (get B codec config id c).1 ≡ ok s
      → s.site_id ≡ config.site_id
  unfolding get check_site report_violation
  get-site_id id c configured h = ground arith

  verify_foreign :
      (id : Text) (c : Controlled B) (stored : Session D) (st : B.State)
      → config.site_id ≢ []
      → B.get id c.store ≡ (st, ok stored)
      → stored.site_id ≢ config.site_id
      → ((verify_ownership B codec config id c).1 ≡ err (sentinel Sentinel.not_found))
        × ((verify_ownership B codec config id c).0.store ≡ st)
  unfolding verify_ownership check_site report_violation
  verify_foreign id c stored st configured found other = ground arith

  -- What another site's session answers: with a site configured, `Update`, `Touch` and `Delete` of an
  -- ID under which the wrapped store finds a session of another site leave the wrapped store as
  -- that `Get` left it; `Update` and `Touch` report that there is no session, `Delete` succeeds.
  -- The session that is given has an ID and a user.
  pub foreign_session :
      (s stored : Session D) (c : Controlled B) (st : B.State)
      → config.site_id ≢ []
      → s.id ≢ []
      → s.user_id ≢ nil_uuid
      → B.get s.id c.store ≡ (st, ok stored)
      → stored.site_id ≢ config.site_id
      → (((update B codec config (some s) c).1 ≡ err (sentinel Sentinel.not_found))
          × ((update B codec config (some s) c).0.store ≡ st))
        × (((touch B codec config s.id c).1 ≡ err (sentinel Sentinel.not_found))
            × ((touch B codec config s.id c).0.store ≡ st))
        × (((delete B codec config s.id c).1 ≡ ok tt)
            × ((delete B codec config s.id c).0.store ≡ st))
  unfolding update touch delete Controls.validate_session is_error
  foreign_session s stored c st configured named owned found other =
      let (r, left) = verify_foreign s.id c stored st configured found other in
      (ground arith, ground arith, ground arith)

  tag-site_id :
      (s : Session D) → config.site_id ≢ [] → (tag B codec config s).site_id ≡ config.site_id
  unfolding tag
  tag-site_id s configured = ground arith

  -- what `create` does with a valid session
  abbrev stages : Session D → M B (Unit {0})
  stages t = do
    Controls.validate_serializable B codec config t
    check_size_limit B codec config t
    Controls.enforce_session_limit B codec config t
    call (B.create (some t))

  create_validated :
      (s : Session D) (c : Controlled B)
      → (create B codec config (some s) c).1 ≡ ok tt
      → (s.id ≢ [])
        × (s.user_id ≢ nil_uuid)
        × (((stages (tag B codec config s) c).1 ≡ ok tt)
            × ((create B codec config (some s) c).0 ≡ (stages (tag B codec config s) c).0))
  unfolding create Controls.validate_session report_violation
  create_validated s c h = (λ e. ground arith, λ e. ground arith, (ground arith, ground arith))

  stages_ok :
      (t : Session D) (c : Controlled B)
      → (stages t c).1 ≡ ok tt
      → let c' = (Controls.validate_serializable B codec config t c).0 in
        (st : B.State) × ((check_size_limit B codec config t c').1 ≡ ok tt)
        × (B.create (some t) st ≡ ((stages t c).0.store, ok tt))
  stages_ok t c h =
      let c' = (Controls.validate_serializable B codec config t c).0 in
      let d = (check_size_limit B codec config t c').0 in
      let d' = (Controls.enforce_session_limit B codec config t d).0 in
      (d'.store, ground arith, ground arith)

  check_size_limit_ok :
      (t : Session D) (c : Controlled B)
      → is_positive config.max_session_size ≡ true
      → (check_size_limit B codec config t c).1 ≡ ok tt
      → (text : Text) × (codec.marshal_session t ≡ ok text)
        × (length text ≤ pos_part config.max_session_size)
  unfolding check_size_limit report_violation
  check_size_limit_ok t c limited h = elim (Result-cases (codec.marshal_session t)) [
    | inl (text, e) ↦ (text, e, ground arith)
    | inr (x, e) ↦ absurd (ground arith)
  ]

  -- Whatever a successful `Create` stores has been checked: the session has an ID and a user, what is
  -- stored carries the configured site, its JSON is no longer than the limit, and the last thing
  -- done to the wrapped store was to create it there. A site and a limit are configured.
  pub create_checked :
      (s : Session D) (c : Controlled B)
      → config.site_id ≢ []
      → is_positive config.max_session_size ≡ true
      → (create B codec config (some s) c).1 ≡ ok tt
      → let t = tag B codec config s in
        (s.id ≢ [])
        × (s.user_id ≢ nil_uuid)
        × (t.site_id ≡ config.site_id)
        × ((text : Text) × (codec.marshal_session t ≡ ok text)
            × (length text ≤ pos_part config.max_session_size))
        × ((st : B.State) × (B.create (some t) st
              ≡ ((create B codec config (some s) c).0.store, ok tt)))
  create_checked s c configured limited h =
      let (named, owned, (staged, whole)) = create_validated s c h in
      let t = tag B codec config s in
      let (st, sized, stored) = stages_ok t c staged in
      (
        named,
        owned,
        tag-site_id s configured,
        check_size_limit_ok t _ limited sized,
        (st, rw whole stored),
      )
