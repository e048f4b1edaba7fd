-- ===== src/Session/Backend.antt =====
-- The interfaces `Store` and `SessionLister` of session/session.go, as the controls of
-- session/wrapper.go use them. The state of a store includes all that its methods consult, the
-- clock and the contexts too.
use omnistorage_core.Base.{ℕ, Option, List, list_eq, nat_eq, Result}
use omnistorage_core.Base.Text.{Text}
use omnistorage_core.Session.{Session, Error}

pub record Backend (D : Type 0) : Type 1 where
  pub State : Type 0
  pub create : Option (Session D) → State → State × Result Error (Unit {0})
  pub get : Text → State → State × Result Error (Session D)
  pub update : Option (Session D) → State → State × Result Error (Session D)
  pub delete : Text → State → State × Result Error (Unit {0})
  pub delete_by_user_id : Text → State → State × Result Error ℕ
  pub touch : Text → State → State × Result Error (Unit {0})
  pub close : State → State × Result Error (Unit {0})
  -- `none` for a store that is no `SessionLister`
  pub list_by_user_id : Option (Text → State → State × Result Error (List (Session D)))
