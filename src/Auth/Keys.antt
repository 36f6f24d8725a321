-- ===== src/Auth/Keys.antt =====
-- was/app/api_keys.py, was/app/deps.py: API keys, and who a request is made by. Reading a token is
-- jose's, and the hash of a key hashlib's.
pub mod Rights
use soltrace.Base.{
  ℕ, ◌+◌, ◌==◌, ◌*◌, leb, ltb, Bool, true, false, not, ◌&&◌, ◌||◌, Option, none, some, List, [],
  ◌∷◌, if◌then◌else◌,
}
use soltrace.Auth.Text.{Text, text_eq, is_empty, strip}
use soltrace.Auth.Accounts.{User, Role, admin, customer_user, second}
use soltrace.Auth.Login.{Config, get_admin_username, find_user}

pub record ApiKey : Type 0 where
  pub key_hash : Text
  pub user_id : Option ℕ
  pub is_active : Bool
  pub expires_at : Option ℕ
  pub last_used_at : Option ℕ

-- a row of `users` with its id
pub record Account : Type 0 where
  pub id : ℕ
  pub user : User

pub record Store : Type 0 where
  pub keys : List ApiKey
  pub accounts : List Account
  pub config : Config

pub record Principal : Type 0 where
  pub username : Text
  pub role : Role
  pub customer : Option Text
  pub via_api_key : Bool

-- `_TOUCH_INTERVAL`
abbrev pub touch_interval : ℕ
touch_interval = 60 * second

-- `slt_`
abbrev pub key_prefix : Text
key_prefix = 115 ∷ 108 ∷ 116 ∷ 95 ∷ []

unfoldable pub starts_with : Text → Text → Bool
starts_with [] s = true
starts_with (p ∷ ps) [] = false
starts_with (p ∷ ps) (c ∷ cs) = p == c && starts_with ps cs

abbrev pub looks_like_key : Text → Bool
looks_like_key s = starts_with key_prefix s

unfoldable pub find_key : Text → List ApiKey → Option ApiKey
find_key hash [] = none
find_key hash (k ∷ ks) = if text_eq k.key_hash hash then some k else find_key hash ks

unfoldable pub find_account : ℕ → List Account → Option Account
find_account n [] = none
find_account n (a ∷ rest) = if a.id == n then some a else find_account n rest

abbrev pub is_expired : Option ℕ → ℕ → Bool
is_expired none now = false
is_expired (some t) now = leb t now

-- the account of a key: one that is there and active, or none for a key of the administrator
abbrev pub active_owner : ApiKey → Option Account → Option (ApiKey × Option User)
active_owner key none = none
active_owner key (some a) = if a.user.is_active then some (key, some a.user) else none

abbrev pub owner_of : List Account → ApiKey → Option ℕ → Option (ApiKey × Option User)
owner_of accounts key none = some (key, none)
owner_of accounts key (some n) = active_owner key (find_account n accounts)

abbrev pub valid_key : ℕ → List Account → Option ApiKey → Option (ApiKey × Option User)
valid_key now accounts none = none
valid_key now accounts (some key) =
    if not key.is_active || is_expired key.expires_at now
    then none
    else owner_of accounts key key.user_id

abbrev pub is_recent : Option ℕ → ℕ → Bool
is_recent none now = false
is_recent (some t) now = ltb now (t + touch_interval)

-- the key with its time of use, which is written at most once in the interval
unfoldable pub touched : ℕ → ApiKey → ApiKey
touched now key =
    if is_recent key.last_used_at now then key else record key { last_used_at = some now }

unfoldable pub put_key : ApiKey → List ApiKey → List ApiKey
put_key key [] = []
put_key key (k ∷ ks) = if text_eq k.key_hash key.key_hash then key ∷ ks else k ∷ put_key key ks

unfoldable pub touch : ℕ → ApiKey → Store → Store
touch now key st = record st { keys = put_key (touched now key) st.keys }

pub data Method : Type 0 where
  get head options post put delete : Method

abbrev pub is_read : Method → Bool
is_read get = true
is_read head = true
is_read options = true
is_read post = false
is_read put = false
is_read delete = false

-- a token's claims, as `payload.get` finds them
pub record Claims : Type 0 where
  pub sub : Option Text
  pub role : Option Role
  pub customer : Option Text

pub data Access : Type 0 where
  granted : Principal → Access
  unauthorized : Access
  forbidden : Access

-- `Authorization: Bearer …` and `X-API-Key`
pub record Headers : Type 0 where
  pub api_key : Option Text
  pub bearer : Option Text
  pub method : Method

-- `admin`
abbrev pub admin_name : Text
admin_name = 97 ∷ 100 ∷ 109 ∷ 105 ∷ 110 ∷ []

abbrev pub key_principal : Config → Option User → Principal
key_principal cfg none = record {
  username = get_admin_username cfg;
  role = admin;
  customer = none;
  via_api_key = true;
}
key_principal cfg (some u) = record {
  username = u.username;
  role = u.role;
  customer = u.customer;
  via_api_key = true;
}

abbrev pub use_key : ℕ → Method → Store → Option (ApiKey × Option User) → Access × Store
use_key now method st none = (unauthorized, st)
use_key now method st (some (key, user)) =
    if not (is_read method)
    then (forbidden, st)
    else (granted (key_principal st.config user), touch now key st)

abbrev pub key_header : Option Text → Option Text
key_header none = none
key_header (some s) = if is_empty s then none else some s

abbrev pub bearer_key : Option Text → Option Text
bearer_key none = none
bearer_key (some s) = if looks_like_key s then some s else none

-- the key of the request: its header, or a bearer that looks like a key
abbrev pub raw_key : Option Text → Option Text → Option Text
raw_key none bearer = bearer_key bearer
raw_key (some k) bearer = some k

abbrev pub role_or_default : Option Role → Text → Role
role_or_default (some r) sub = r
role_or_default none sub = if text_eq sub admin_name then admin else customer_user

unfoldable pub account_named : Text → List Account → Option User
account_named name [] = none
account_named name (a ∷ rest) =
    if text_eq a.user.username name then some a.user else account_named name rest

-- the state of the account counts, and the token only where there is none
abbrev pub current : Claims → Text → Option User → Access
current c sub none = granted (record {
  username = sub;
  role = role_or_default c.role sub;
  customer = c.customer;
  via_api_key = false;
})
current c sub (some u) =
    if not u.is_active
    then unauthorized
    else granted
        (record { username = sub; role = u.role; customer = u.customer; via_api_key = false })

abbrev pub with_subject : Claims → Option Text → List Account → Access
with_subject c none accounts = unauthorized
with_subject c (some sub) accounts =
    if is_empty sub then unauthorized else current c sub (account_named sub accounts)

abbrev pub with_claims : Option Claims → List Account → Access
with_claims none accounts = unauthorized
with_claims (some c) accounts = with_subject c c.sub accounts

module _ (hash_key : Text → Text) (decode : Text → Option Claims) where
  unfoldable pub resolve : ℕ → Text → Store → Option (ApiKey × Option User)
  resolve now raw st = valid_key now st.accounts (find_key (hash_key raw) st.keys)

  -- `_principal_from_api_key`
  unfoldable pub principal_from_api_key : ℕ → Text → Method → Store → Access × Store
  principal_from_api_key now raw method st = use_key now method st (resolve now raw st)

  abbrev pub with_token : Option Text → Store → Access
  with_token none st = unauthorized
  with_token (some t) st = with_claims (decode t) st.accounts

  abbrev pub authenticate : ℕ → Option Text → Headers → Store → Access × Store
  authenticate now none h st = (with_token h.bearer st, st)
  authenticate now (some raw) h st = principal_from_api_key now (strip raw) h.method st

  unfoldable pub get_current_user : ℕ → Headers → Store → Access × Store
  get_current_user now h st = authenticate now (raw_key (key_header h.api_key) h.bearer) h st

-- `require_admin`
unfoldable pub require_admin : Access → Access
require_admin unauthorized = unauthorized
require_admin forbidden = forbidden
require_admin (granted p) = elim p.role [ admin ↦ granted p | customer_user ↦ forbidden ]
