-- ===== src/Auth/Users/LastAdmin.antt =====
-- was/app/routers/users.py: there is always an active administrator.
use soltrace.Base.{ℕ, ◌≡◌, Bool, true, List, [], ◌∷◌}
use soltrace.Auth.Text.{Text}
use soltrace.Auth.Keys.{Principal}
use soltrace.Auth.Users.{
  Holds, Answer, done, raised, Site, UserCreate, UserUpdate, create_user, update_user, unlock,
  delete_user,
}
use soltrace.Auth.Users.Rows.{has_admin}
use soltrace.Auth.Users.Handlers.{
  Any, create_user-Any, update_user-Any, unlock-Any, delete_user-Any,
}

-- A request of an administrator.
pub data Op : Type 0 where
  creates : UserCreate → Op
  updates : ℕ → UserUpdate → Op
  unlocks : ℕ → Op
  deletes : ℕ → Op

abbrev pub or_same : Answer Site → Site → Site
or_same (done after) site = after
or_same (raised e) site = site

module _ (is_network : Text → Bool) (hash : Text → Text) where
  abbrev pub handle : Principal → Op → Site → Answer Site
  handle me (creates body) site = create_user is_network hash me body site
  handle me (updates n body) site = update_user is_network hash me n body site
  handle me (unlocks n) site = unlock n site
  handle me (deletes n) site = delete_user me n site

  -- requests in any order, by any administrators
  abbrev pub serve : List (Principal × Op) → Site → Site
  serve [] site = site
  serve ((me, op) ∷ rest) site = serve rest (or_same (handle me op site) site)

  handle-Any : (me : Principal) (op : Op) (site : Site) → Any site → Holds Any (handle me op site)
  handle-Any me (creates body) site h = create_user-Any is_network hash me body site h
  handle-Any me (updates n body) site h = update_user-Any is_network hash me n body site h
  handle-Any me (unlocks n) site h = unlock-Any n site h
  handle-Any me (deletes n) site h = delete_user-Any me n site h

  or_same-Any : (m : Answer Site) (site : Site) → Any site → Holds Any m → Any (or_same m site)
  or_same-Any (done after) site h k = k
  or_same-Any (raised e) site h k = h

  -- Any sequence of creations, changes, unlockings and deletions of accounts, asked for by any
  -- administrators and with the refused ones changing nothing, leaves an active administrator
  -- where there was one.
  pub serve-has_admin :
      (requests : List (Principal × Op)) (site : Site)
      → has_admin site.rows ≡ true
      → has_admin (serve requests site).rows ≡ true
  serve-has_admin [] site h = h
  serve-has_admin ((me, op) ∷ rest) site h =
      serve-has_admin rest _ (or_same-Any (handle me op site) site h (handle-Any me op site h))
