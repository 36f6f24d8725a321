-- ===== src/Auth/Tests.antt =====
-- was/app/routers/auth.py, was/app/deps.py: accounts and keys with short texts.
use soltrace.Base.{
  ℕ, ◌-◌, ◌≤◌, ◌≡◌, ◌⊎◌, refl, Bool, true, Option, none, some, List, [], ◌∷◌, arith,
}
use soltrace.Auth.Text.{strip, Text}
use soltrace.Auth.Passwords.{hash_password, verify_password, verify_password-hash_password}
use soltrace.Auth.Accounts.{User, Role, admin, customer_user}
use soltrace.Auth.Login.{
  Config, Db, Request, Answer, token, server_error, login, find_user, is_ascii,
}
use soltrace.Auth.Login.Lockout.{guesses, guesses-bound}
use soltrace.Auth.Login.Grants.{IsEntitled, IsBootstrap, login-token}
use soltrace.Auth.Keys.{
  Account, Store, ApiKey, Headers, get, Claims, Principal, granted, get_current_user, raw_key,
  key_header,
}
use soltrace.Auth.Keys.Rights.{IsKeyed, IsBorne, get_current_user-grant}

-- a derivation that hands the password on, and addresses that are no addresses
abbrev plain : Text → Text → Text → Option Text
plain password salt iters = some password

abbrev no_address : Text → Text → Option Bool
no_address client entry = none

abbrev secret : Text
secret = 5 ∷ 6 ∷ []

abbrev wrong : Text
wrong = 7 ∷ []

-- `pbkdf2_sha256$240000$$` and the secret
abbrev stored : Text
stored =
    112 ∷ 98 ∷ 107 ∷ 100 ∷ 102 ∷ 50 ∷ 95 ∷ 115 ∷ 104 ∷ 97 ∷ 50 ∷ 53 ∷ 54 ∷ 36 ∷ 50 ∷ 52 ∷ 48 ∷ 48
    ∷ 48 ∷ 48 ∷ 36 ∷ 36 ∷ 5 ∷ 6 ∷ []

abbrev user : User
user = record {
  username = 65 ∷ [];
  password_hash = stored;
  role = customer_user;
  customer = some (66 ∷ []);
  allowed_ips = none;
  is_active = true;
  failed_attempts = 3;
  locked_until = none;
  last_login_at = none;
}

abbrev config : Config
config = record {
  admin_username = none;
  admin_password_hash = none;
  office_ips = none;
  allowed_ips = none;
  default_username = 90 ∷ [];
  default_password = secret;
}

abbrev db : Db
db = record { users = user ∷ []; config = config }

abbrev right_login : Request
right_login = record { username = 65 ∷ []; password = secret; client_ip = [] }

abbrev wrong_login : Request
wrong_login = record { username = 65 ∷ []; password = wrong; client_ip = [] }

abbrev korean_login : Request
korean_login = record { username = 44608 ∷ []; password = secret; client_ip = [] }

abbrev three_tries : List (ℕ × Request)
three_tries = (100, wrong_login) ∷ (200, wrong_login) ∷ (300, wrong_login) ∷ []

verify_password-hash_password_example :
    (s : Text) × (hash_password plain secret [] ≡ some s) × (verify_password plain secret s ≡ true)
verify_password-hash_password_example =
    verify_password-hash_password plain secret [] secret refl tt (refl, (refl, tt))

guesses-bound_example : guesses plain no_address config three_tries user ≤ 5 - 3
unfolding verify_password soltrace.Auth.Text.split_at
guesses-bound_example =
    guesses-bound plain no_address config 100 three_tries user (omega arith)
      ((omega arith, omega arith), ((omega arith, omega arith), ((omega arith, omega arith), tt)))
      (refl, (refl, (refl, tt)))

login-token_example :
    ((u : User) × (find_user (65 ∷ []) db.users ≡ some u)
      × IsEntitled plain no_address 100 config right_login
          (65 ∷ [])
          customer_user
          (some (66 ∷ []))
          u)
    ⊎ ((find_user (65 ∷ []) db.users ≡ none)
        × IsBootstrap plain no_address config right_login (65 ∷ []) customer_user (some (66 ∷ [])))
unfolding login find_user soltrace.Auth.Login.login_user soltrace.Auth.Accounts.lock_seconds_left
    soltrace.Auth.Accounts.check_user_ip_allowed soltrace.Auth.Accounts.split_ips
    soltrace.Auth.Text.split_at soltrace.Auth.Text.replace strip soltrace.Auth.Text.rstrip
    soltrace.Auth.Text.lstrip verify_password
login-token_example =
    login-token plain no_address 100 right_login db (65 ∷ []) customer_user (some (66 ∷ [])) refl

abbrev key : ApiKey
key = record {
  key_hash = 1 ∷ [];
  user_id = some 4;
  is_active = true;
  expires_at = none;
  last_used_at = none;
}

abbrev store : Store
store = record { keys = key ∷ []; accounts = record { id = 4; user = user } ∷ []; config = config }

abbrev by_key : Headers
by_key = record { api_key = some (1 ∷ []); bearer = none; method = get }

abbrev same_hash : Text → Text
same_hash s = s

abbrev no_claims : Text → Option Claims
no_claims s = none

abbrev speaker : Principal
speaker = record {
  username = 65 ∷ [];
  role = customer_user;
  customer = some (66 ∷ []);
  via_api_key = true;
}

get_current_user-grant_example :
    ((raw : Text) × (raw_key (key_header (some (1 ∷ []))) none ≡ some raw)
      × IsKeyed same_hash no_claims 100 (strip raw) get store speaker)
    ⊎ ((raw_key (key_header (some (1 ∷ []))) none ≡ none)
        × IsBorne same_hash no_claims none store speaker)
unfolding get_current_user strip soltrace.Auth.Text.rstrip soltrace.Auth.Text.lstrip
    soltrace.Auth.Text.is_space soltrace.Auth.Keys.principal_from_api_key soltrace.Auth.Keys.resolve
    soltrace.Auth.Keys.find_key soltrace.Auth.Keys.find_account
get_current_user-grant_example =
    get_current_user-grant same_hash no_claims 100 by_key store speaker refl
