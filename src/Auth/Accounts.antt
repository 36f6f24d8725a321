-- ===== src/Auth/Accounts.antt =====
-- was/app/security.py: the lockout of accounts after failures, and the lists of addresses.
use soltrace.Base.{
  ℕ, ◌+◌, ◌-◌, ◌*◌, ◌/◌, leb, Bool, true, false, not, ◌||◌, Option, none, some, List, [], ◌∷◌, map,
  select, if◌then◌else◌,
}
use soltrace.Auth.Text.{Text, text_eq, is_empty, split_at, is_break, strip, replace}

pub data Role : Type 0 where
  admin customer_user : Role

pub record User : Type 0 where
  pub username : Text
  pub password_hash : Text
  pub role : Role
  pub customer : Option Text
  pub allowed_ips : Option Text
  pub is_active : Bool
  pub failed_attempts : ℕ
  pub locked_until : Option ℕ
  pub last_login_at : Option ℕ

abbrev pub second : ℕ
second = 1000000

abbrev pub login_max_attempts : ℕ
login_max_attempts = 5

abbrev pub login_lock_minutes : ℕ
login_lock_minutes = 15

abbrev pub lock_time : ℕ
lock_time = login_lock_minutes * 60 * second

-- `lock_seconds_left`: whole seconds, so 0 in the last one
abbrev pub seconds_until : Option ℕ → ℕ → ℕ
seconds_until none now = 0
seconds_until (some until) now = (until - now) / second

unfoldable pub lock_seconds_left : User → ℕ → ℕ
lock_seconds_left user now = seconds_until user.locked_until now

-- the remaining tries, and the account
unfoldable pub register_failed_login : ℕ → User → ℕ × User
register_failed_login now user =
    let failed = user.failed_attempts + 1 in
    if leb login_max_attempts failed
    then (0, record user { locked_until = some (now + lock_time); failed_attempts = 0 })
    else (login_max_attempts - failed, record user { failed_attempts = failed })

unfoldable pub clear_failed_login : ℕ → User → User
clear_failed_login now user = record user {
  failed_attempts = 0;
  locked_until = none;
  last_login_at = some now;
}

unfoldable pub unlock_user : User → User
unlock_user user = record user { failed_attempts = 0; locked_until = none }

abbrev pub text_or_empty : Option Text → Text
text_or_empty none = []
text_or_empty (some s) = s

unfoldable pub split_ips : Option Text → List Text
split_ips raw =
    select (λ e. not (is_empty e))
      (map strip (split_at is_break (replace 44 10 (text_or_empty raw))))

-- `ipaddress` decides whether an address lies in a network; none is its ValueError
module _ (in_network : (client entry : Text) → Option Bool) where
  abbrev pub or_same : Option Bool → Text → Text → Bool
  or_same none client entry = text_eq client entry
  or_same (some b) client entry = b

  unfoldable pub ip_matches : Text → Text → Bool
  ip_matches client entry = or_same (in_network client entry) client entry

  unfoldable pub any_matches : Text → List Text → Bool
  any_matches client [] = false
  any_matches client (e ∷ es) = ip_matches client e || any_matches client es

  -- the test of `check_ip_allowed` and of `check_user_ip_allowed` on a list
  abbrev pub is_listed : Text → List Text → Bool
  is_listed client [] = true
  is_listed client (e ∷ es) = any_matches client (e ∷ es)

  unfoldable pub check_user_ip_allowed : Option Text → Text → Bool
  check_user_ip_allowed raw client = is_listed client (split_ips raw)
