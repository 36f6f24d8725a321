-- ===== src/Auth/Login.antt =====
-- was/app/routers/auth.py: `login`, and what it reads of was/app/security.py.
pub mod Lockout
pub mod Grants
use soltrace.Base.{
  ltb, ℕ, ◌==◌, ◌*◌, Bool, true, false, not, ◌&&◌, Option, none, some, List, [], ◌∷◌, if◌then◌else◌,
}
use soltrace.Auth.Text.{Text, text_eq, is_empty}
use soltrace.Auth.Passwords.{verify_password}
use soltrace.Auth.Accounts.{
  User, Role, admin, customer_user, lock_seconds_left, register_failed_login, clear_failed_login,
  login_lock_minutes, split_ips, is_listed, check_user_ip_allowed,
}

-- what `get_config` finds at each key, and the settings of the process
pub record Config : Type 0 where
  pub admin_username : Option Text
  pub admin_password_hash : Option Text
  pub office_ips : Option Text
  pub allowed_ips : Option Text
  pub default_username : Text
  pub default_password : Text

pub record Db : Type 0 where
  pub users : List User
  pub config : Config

pub record Request : Type 0 where
  pub username : Text
  pub password : Text
  pub client_ip : Text

-- `server_error` is an exception that the handler does not catch
pub data Answer : Type 0 where
  token : (username : Text) → Role → Option Text → Answer
  ip_blocked : Answer
  bad_credentials : (remaining : Option ℕ) → Answer
  account_locked : (seconds : ℕ) → Answer
  account_disabled : Answer
  server_error : Answer

-- `get_config(…) or default`
abbrev pub or_default : Option Text → Text → Text
or_default none d = d
or_default (some s) d = if is_empty s then d else s

unfoldable pub get_admin_username : Config → Text
get_admin_username cfg = or_default cfg.admin_username cfg.default_username

abbrev pub office_list : Option Text → Option Text → List Text
office_list none legacy = split_ips legacy
office_list (some raw) legacy = split_ips (some raw)

unfoldable pub get_office_ips : Config → List Text
get_office_ips cfg = office_list cfg.office_ips cfg.allowed_ips

-- `get_user`
unfoldable pub find_user : Text → List User → Option User
find_user name [] = none
find_user name (u ∷ us) = if text_eq u.username name then some u else find_user name us

-- the row that the session writes back
unfoldable pub put_user : User → List User → List User
put_user user [] = []
put_user user (u ∷ us) =
    if text_eq u.username user.username then user ∷ us else u ∷ put_user user us

abbrev pub is_admin : Role → Bool
is_admin admin = true
is_admin customer_user = false

-- `hmac.compare_digest` on text, which raises TypeError when a text is not ASCII
unfoldable pub is_ascii : Text → Bool
is_ascii [] = true
is_ascii (c ∷ cs) = ltb c 128 && is_ascii cs

unfoldable pub compare_digest : Text → Text → Option Bool
compare_digest a b = if is_ascii a && is_ascii b then some (text_eq a b) else none

abbrev pub both_of : Option Bool → Option Bool → Option Bool
both_of (some a) (some b) = some (a && b)
both_of _ _ = none

unfoldable pub check_ip_allowed :
    (in_network : (client entry : Text) → Option Bool) → Config → Text → Bool
check_ip_allowed in_network cfg client = is_listed in_network client (get_office_ips cfg)

abbrev pub after_failure : ℕ × User → Answer × User
after_failure (remaining, user) =
    if remaining == 0
    then (account_locked (login_lock_minutes * 60), user)
    else (bad_credentials (some remaining), user)

module _ (pbkdf2 : (password salt iters : Text) → Option Text)
    (in_network : (client entry : Text) → Option Bool) where
  abbrev pub verify_stored : Option Text → Text → Text → Option Bool
  verify_stored none default password = compare_digest password default
  verify_stored (some s) default password =
      if is_empty s
      then compare_digest password default
      else some (verify_password pbkdf2 password s)

  unfoldable pub verify_admin_password : Config → Text → Option Bool
  verify_admin_password cfg password =
      verify_stored cfg.admin_password_hash cfg.default_password password

  -- both tests are made, and either may raise
  unfoldable pub verify_admin_credentials : Config → Text → Text → Option Bool
  verify_admin_credentials cfg username password =
      both_of (compare_digest username (get_admin_username cfg))
        (verify_admin_password cfg password)

  abbrev pub admin_answer : Text → Option Bool → Answer
  admin_answer name none = server_error
  admin_answer name (some true) = token name admin none
  admin_answer name (some false) = bad_credentials none

  abbrev pub bootstrap_answer : Config → Request → Option Bool → Answer
  bootstrap_answer cfg req none = server_error
  bootstrap_answer cfg req (some false) = bad_credentials none
  bootstrap_answer cfg req (some true) =
      if not (check_ip_allowed in_network cfg req.client_ip)
      then ip_blocked
      else admin_answer req.username (verify_admin_credentials cfg req.username req.password)

  -- the account is not in the table: the administrator of the settings, or nobody
  unfoldable pub login_bootstrap : Config → Request → Answer
  login_bootstrap cfg req =
      bootstrap_answer cfg req (compare_digest req.username (get_admin_username cfg))

  -- the account is in the table
  unfoldable pub login_user : ℕ → Config → Request → User → Answer × User
  login_user now cfg req user =
      let left = lock_seconds_left user now in
      if not (left == 0)
      then (account_locked left, user)
      else if not user.is_active
      then (account_disabled, user)
      else if is_admin user.role && not (check_ip_allowed in_network cfg req.client_ip)
      then (ip_blocked, user)
      else if not (check_user_ip_allowed in_network user.allowed_ips req.client_ip)
      then (ip_blocked, user)
      else if not (verify_password pbkdf2 req.password user.password_hash)
      then after_failure (register_failed_login now user)
      else (token user.username user.role user.customer, clear_failed_login now user)

  abbrev pub login_as : ℕ → Request → Db → Option User → Answer × Db
  login_as now req db none = (login_bootstrap db.config req, db)
  login_as now req db (some user) =
      let (answer, user') = login_user now db.config req user in
      (answer, record db { users = put_user user' db.users })

  unfoldable pub login : ℕ → Request → Db → Answer × Db
  login now req db = login_as now req db (find_user req.username db.users)
