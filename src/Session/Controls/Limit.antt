-- ===== src/Session/Controls/Limit.antt =====
-- The session limit under the controls of session/wrapper.go.
use omnistorage_core.Base.{
  ℕ, ◌+◌, ◌-◌, ◌≤◌, ◌≡◌, refl, ◌⊎◌, inl, inr, Bool, true, false, not, ◌&&◌, some, sym, ap, ◌∙◌,
  ◌==◌, ==-refl, any, filter, length-filter-le, List, [], ◌∷◌, ◌++◌, arith, ltb, Bool-cases,
  list_eq, nat_eq, length, take, drop, length-take, length-drop, take-append-drop, Result, ok,
  pos_part, is_positive,
}
use omnistorage_core.Base.Text.{Text}
use omnistorage_core.Session.{Session, Config, Error}
use omnistorage_core.Session.Backend.{Backend}
use omnistorage_core.Session.Controls.{
  Codec, Controlled, of_site, evict, make_room, enforce_session_limit, report_violation,
}

module _ {D : Type 0} (B : Backend D) (codec : Codec D) (config : Config) where
  -- the wrapped store after a `Delete` of each session in turn
  abbrev pub delete_all : List (Session D) → B.State → B.State
  delete_all [] st = st
  delete_all (x ∷ xs) st = delete_all xs (B.delete x.id st).0

  evict_lem :
      (xs : List (Session D)) (c : Controlled B)
      → ((evict B codec config xs c).0.store ≡ delete_all xs c.store)
        × ((evict B codec config xs c).1 ≡ ok tt)
  unfolding evict
  evict_lem [] c = (refl, refl)
  evict_lem (x ∷ xs) c = evict_lem xs (record c { store = (B.delete x.id c.store).0 })

  -- how many sessions must go to make room for one more
  abbrev pub surplus : List (Session D) → ℕ
  surplus xs = length xs + 1 - pos_part config.max_sessions_per_user

  take_none : (xs : List (Session D)) (k : ℕ) → k ≡ 0 → take k xs ≡ []
  take_none xs k h = rw h refl

  make_room_lem :
      (s : Session D) (xs : List (Session D)) (c : Controlled B)
      → ((make_room B codec config s xs c).0.store ≡ delete_all (take (surplus xs) xs) c.store)
        × ((make_room B codec config s xs c).1 ≡ ok tt)
  unfolding make_room report_violation
  make_room_lem s xs c =
      elim (Bool-cases (ltb (length xs) (pos_part config.max_sessions_per_user))) [
        | inl fits ↦ rw (fits, take_none xs (surplus xs) (ground arith)) (refl, refl)
        | inr full ↦ rw full (evict_lem (take (surplus xs) xs) _)
      ]

  module _ (s : Session D) (c : Controlled B)
      {list : Text → B.State → B.State × Result Error (List (Session D))} {st : B.State}
      {all : List (Session D)} where
    limit_lem :
        is_positive config.max_sessions_per_user ≡ true
        → B.list_by_user_id ≡ some list
        → list (codec.uuid_string s.user_id) c.store ≡ (st, ok all)
        → let xs = of_site B codec config all in
          ((enforce_session_limit B codec config s c).0.store
            ≡ delete_all (take (surplus xs) xs) st)
          × ((enforce_session_limit B codec config s c).1 ≡ ok tt)
    unfolding enforce_session_limit
    limit_lem limited lists listed =
        ground (arith, make_room_lem s (of_site B codec config all) (record c { store = st }))

  -- whether an ID is not among those of the sessions
  abbrev pub spared : List (Session D) → Session D → Bool
  spared gone y = not (any (λ (x : Session D). y.id == x.id) gone)

  -- A wrapped store that, in the states in which it is ready, lists the user's sessions, `sessions`, and
  -- whose `Delete` removes what has the ID from them, and nothing else.
  pub record Deletes (user : Text)
      (list : Text → B.State → B.State × Result Error (List (Session D)))
      (sessions : B.State → List (Session D)) (Ready : B.State → Type 0) : Type 0 where
    pub lists : (st : B.State) → Ready st → (list user st).1 ≡ ok (sessions st)
    pub list-sessions : (st : B.State) → Ready st → sessions (list user st).0 ≡ sessions st
    pub list-Ready : (st : B.State) → Ready st → Ready (list user st).0
    pub delete-sessions :
        (id : Text) (st : B.State)
        → Ready st
        → sessions (B.delete id st).0 ≡ filter (λ (x : Session D). not (x.id == id)) (sessions st)
    pub delete-Ready : (id : Text) (st : B.State) → Ready st → Ready (B.delete id st).0

  filter_all : (xs : List (Session D)) → filter (spared []) xs ≡ xs
  filter_all [] = refl
  filter_all (x ∷ xs) = ap (λ ys. x ∷ ys) (filter_all xs)

  filter_both :
      (p q r : Session D → Bool) (xs : List (Session D))
      → ((y : Session D) → r y ≡ q y && p y)
      → filter p (filter q xs) ≡ filter r xs
  filter_both p q r [] h = refl
  filter_both p q r (x ∷ xs) h = ground (arith, h x, filter_both p q r xs h)

  filter_append :
      (p : Session D → Bool) (xs ys : List (Session D))
      → filter p (xs ++ ys) ≡ filter p xs ++ filter p ys
  filter_append p [] ys = refl
  filter_append p (x ∷ xs) ys = ground (arith, filter_append p xs ys)

  -- Of the sessions that are gone none is spared.
  none_spared :
      (gone xs : List (Session D))
      → ((y : Session D) → spared xs y ≡ false → spared gone y ≡ false)
      → filter (spared gone) xs ≡ []
  none_spared gone [] h = refl
  none_spared gone (x ∷ xs) h =
      ground (arith, h x, ==-refl x.id, none_spared gone xs (λ y e. h y (ground (arith, e))))

  filter_comm :
      (p q : Session D → Bool) (xs : List (Session D))
      → filter q (filter p xs) ≡ filter p (filter q xs)
  filter_comm p q [] = refl
  filter_comm p q (x ∷ xs) = ground (arith, filter_comm p q xs)

  of_site-filter :
      (p : Session D → Bool) (xs : List (Session D))
      → of_site B codec config (filter p xs) ≡ filter p (of_site B codec config xs)
  unfolding of_site
  of_site-filter p xs =
      ground (arith, filter_comm p (λ (x : Session D). x.site_id == config.site_id) xs)

  delete_all-sessions :
      {user : Text} {list : Text → B.State → B.State × Result Error (List (Session D))}
      {sessions : B.State → List (Session D)} {Ready : B.State → Type 0}
      → Deletes user list sessions Ready
      → (xs : List (Session D)) (st : B.State) → Ready st
      → sessions (delete_all xs st) ≡ filter (spared xs) (sessions st)
  delete_all-sessions {user} {list} {sessions} L [] st ready = sym (filter_all (sessions st))
  delete_all-sessions {user} {list} {sessions} L (x ∷ xs) st ready =
      delete_all-sessions L xs (B.delete x.id st).0 (L.delete-Ready x.id st ready)
      ∙ ap (λ ys. filter (spared xs) ys) (L.delete-sessions x.id st ready)
      ∙ filter_both (spared xs) (λ y. not (y.id == x.id)) (spared (x ∷ xs)) (sessions st)
          (λ y. ground arith)

  -- With a session limit, over a wrapped store that lists the user's sessions and deletes what it is asked
  -- to, the limit makes room and never fails: of the sessions that count for the site, in the order in which
  -- they are listed, it deletes a first part, after which those that the store lists for the site and one
  -- more are no more than the limit allows, and it deletes no session with another ID. What it deletes is no
  -- more than that takes: it deletes nothing, or exactly the limit is reached by the rest.
  pub session_limit :
      (s : Session D) (c : Controlled B)
      {list : Text → B.State → B.State × Result Error (List (Session D))}
      {sessions : B.State → List (Session D)} {Ready : B.State → Type 0}
      → is_positive config.max_sessions_per_user ≡ true
      → B.list_by_user_id ≡ some list
      → Deletes (codec.uuid_string s.user_id) list sessions Ready
      → Ready c.store
      → let after = (enforce_session_limit B codec config s c).0.store in
        ((enforce_session_limit B codec config s c).1 ≡ ok tt)
        × (length (of_site B codec config (sessions after)) + 1
            ≤ pos_part config.max_sessions_per_user)
        × ((gone : List (Session D)) × (kept : List (Session D)) × (gone ++ kept
              ≡ of_site B codec config (sessions c.store))
            × (sessions after ≡ filter (spared gone) (sessions c.store))
            × ((length gone ≡ 0) ⊎ (length kept + 1 ≡ pos_part config.max_sessions_per_user)))
  session_limit s c {list} {sessions} limited lists L ready =
      let user = codec.uuid_string s.user_id in
      let st = (list user c.store).0 in
      let all = sessions c.store in
      let xs = of_site B codec config all in
      let k = surplus xs in
      let gone = take k xs in
      let kept = drop k xs in
      let after = (enforce_session_limit B codec config s c).0.store in
      let (e, r) =
        limit_lem s c {list = list} {st = st} {all = all} limited lists
          (ap (λ res. (st, res)) (L.lists c.store ready)) in
      let least : (length gone ≡ 0) ⊎ (length kept + 1 ≡ pos_part config.max_sessions_per_user) =
        ground (arith, length-drop k xs, length-take k xs) in
      let left : sessions after ≡ filter (spared gone) all =
        ap sessions e
        ∙ delete_all-sessions L gone st (L.list-Ready c.store ready)
        ∙ ap (λ ys. filter (spared gone) ys) (L.list-sessions c.store ready) in
      let at_site : of_site B codec config (sessions after) ≡ filter (spared gone) kept =
        ap (of_site B codec config) left
        ∙ of_site-filter (spared gone) all
        ∙ ap (λ ys. filter (spared gone) ys) (sym (take-append-drop k xs))
        ∙ filter_append (spared gone) gone kept
        ∙ ap (λ ys. ys ++ filter (spared gone) kept) (none_spared gone gone (λ y h. h)) in
      let few = length-filter-le (spared gone) kept in
      (
        r,
        rw at_site (ground (arith, few, length-drop k xs, limited)),
        (gone, kept, take-append-drop k xs, left, least),
      )
