-- ===== src/Auth/Users.antt =====
-- was/app/routers/users.py: the accounts as administrators manage them. A handler that raises leaves
-- the database as it was, since it commits at its end only. Reading an address and hashing a password
-- are parameters; the database removes the mappings of a row that is deleted.
pub mod Rows
pub mod Handlers
pub mod LastAdmin
pub mod Mappings
pub mod Tests
use soltrace.Base.{
  ◌≡◌, refl, ℕ, suc, ◌+◌, ◌==◌, ltb, Bool, true, false, not, ◌&&◌, ◌||◌, Option, none, some, List,
  [], ◌∷◌, ◌++◌, length, select, if◌then◌else◌,
}
use soltrace.Auth.Text.{Text, text_eq, is_empty}
use soltrace.Auth.Text.Split.{join}
use soltrace.Auth.Accounts.{User, Role, admin, customer_user, text_or_empty, unlock_user}
use soltrace.Auth.Login.{Config, get_admin_username, is_admin}
use soltrace.Auth.Keys.{Principal}
use soltrace.Auth.Addresses.{strip_input, Entered, validate_ip_entries}

-- what the handlers raise
pub data Problem : Type 0 where
  not_found : Problem
  invalid_ip : Problem
  no_username no_customer : Problem
  username_taken admin_username_taken : Problem
  own_account last_admin : Problem
  not_a_customer no_group foreign_group long_ftp_username too_many_ftp_accounts : Problem

-- What a handler returns, or the HTTPException that it raises.
pub data Answer (A : Type 0) : Type 0 where
  raised : Problem → Answer A
  done : A → Answer A

infixl 5 ◌>>=◌ ◌>>◌
abbrev pub ◌>>=◌ : {A B : Type 0} → Answer A → (A → Answer B) → Answer B
raised problem >>= handler = raised problem
done value >>= handler = handler value

abbrev pub ◌>>◌ : {B : Type 0} → Answer (Unit {0}) → Answer B → Answer B
check >> handler = check >>= λ _. handler

-- What holds of the value of a result, if it has one.
abbrev pub Holds {κ} : {A : Type 0} → (A → Type κ) → Answer A → Type κ
Holds P (done a) = P a
Holds P (raised e) = Unit

pub bind-Holds {κ κ'} :
    {A B : Type 0} (P : A → Type κ) (Q : B → Type κ') (m : Answer A) (f : A → Answer B)
    → Holds P m
    → ((a : A) → P a → Holds Q (f a))
    → Holds Q (m >>= f)
bind-Holds P Q (done a) f h k = k a h
bind-Holds P Q (raised e) f h k = tt

-- `if test: raise`
abbrev pub refuse : Bool → Problem → Answer (Unit {0})
refuse true e = raised e
refuse false e = done tt

pub refuse_then {κ} :
    {B : Type 0} (Q : B → Type κ) (b : Bool) (e : Problem) (k : Answer B)
    → (b ≡ false → Holds Q k)
    → Holds Q (refuse b e >>= λ _. k)
refuse_then Q true e k h = tt
refuse_then Q false e k h = h refl

-- A step of which nothing is known.
pub any_then {κ} :
    {A B : Type 0} (Q : B → Type κ) (m : Answer A) (f : A → Answer B)
    → ((a : A) → Holds Q (f a))
    → Holds Q (m >>= f)
any_then Q (done a) f k = k a
any_then Q (raised e) f k = tt

pub record Row : Type 0 where
  pub id : ℕ
  pub user : User
  pub note : Option Text
  pub created_by : Option Text

pub record Group : Type 0 where
  pub id : ℕ
  pub customer : Option Text

pub record FtpAccount : Type 0 where
  pub user_id : ℕ
  pub group_id : ℕ
  pub ftp_username : Text

pub record Site : Type 0 where
  pub rows : List Row
  pub ftp_accounts : List FtpAccount
  pub groups : List Group
  pub next_id : ℕ
  pub config : Config

-- an item of the body: a group with the FTP names of it
pub record FtpMap : Type 0 where
  pub group_id : ℕ
  pub usernames : List Text

-- `_MAX_FTP_ACCOUNTS`
abbrev pub max_ftp_accounts : ℕ
max_ftp_accounts = 500

unfoldable pub find_row : ℕ → List Row → Option Row
find_row n [] = none
find_row n (r ∷ rest) = if r.id == n then some r else find_row n rest

-- `_get`
abbrev pub or_not_found : Option Row → Answer Row
or_not_found none = raised not_found
or_not_found (some r) = done r

unfoldable pub get : ℕ → Site → Answer Row
get n site = or_not_found (find_row n site.rows)

unfoldable pub put_row : Row → List Row → List Row
put_row r [] = []
put_row r (x ∷ rest) = if x.id == r.id then r ∷ rest else x ∷ put_row r rest

unfoldable pub drop_row : ℕ → List Row → List Row
drop_row n [] = []
drop_row n (x ∷ rest) = if x.id == n then rest else x ∷ drop_row n rest

unfoldable pub has_username : Text → List Row → Bool
has_username name [] = false
has_username name (r ∷ rest) = text_eq r.user.username name || has_username name rest

unfoldable pub find_group : ℕ → List Group → Option Group
find_group n [] = none
find_group n (g ∷ rest) = if g.id == n then some g else find_group n rest

-- `pairs`, which are also what `seen` holds
abbrev pub Pair : Type 0
Pair = ℕ × Text

unfoldable pub has_pair : ℕ → Text → List Pair → Bool
has_pair gid name [] = false
has_pair gid name ((g, n) ∷ rest) = (g == gid && text_eq n name) || has_pair gid name rest

abbrev pub add_pair : ℕ → Text → List Pair → List Pair
add_pair gid name pairs =
    if is_empty name
    then pairs
    else if has_pair gid name pairs
    then pairs
    else pairs ++ (gid, name) ∷ []

unfoldable pub add_names : ℕ → List Text → List Pair → Answer (List Pair)
add_names gid [] pairs = done pairs
add_names gid (raw ∷ rest) pairs =
    let name = strip_input raw in
    let more = add_names gid rest (add_pair gid name pairs) in
    if ltb 255 (length name) then raised long_ftp_username else more

abbrev pub or_no_group : Option Group → Answer Group
or_no_group none = raised no_group
or_no_group (some g) = done g

unfoldable pub collect_pairs :
    List Group → Option Text → List FtpMap → List Pair → Answer (List Pair)
collect_pairs groups customer [] pairs = done pairs
collect_pairs groups customer (e ∷ rest) pairs = do
  group ← or_no_group (find_group e.group_id groups)
  refuse (not (text_eq (text_or_empty group.customer) (text_or_empty customer))) foreign_group
  more ← add_names group.id e.usernames pairs
  collect_pairs groups customer rest more

unfoldable pub others_of : ℕ → List FtpAccount → List FtpAccount
others_of n accounts = select (λ a. not (a.user_id == n)) accounts

unfoldable pub as_accounts : ℕ → List Pair → List FtpAccount
as_accounts n [] = []
as_accounts n ((gid, name) ∷ rest) =
    record { user_id = n; group_id = gid; ftp_username = name } ∷ as_accounts n rest

-- `_save_ftp_map`, on a site that holds the row
unfoldable pub save_ftp_map : Row → List FtpMap → Site → Answer Site
save_ftp_map r entries site = do
  refuse (is_admin r.user.role) not_a_customer
  pairs ← collect_pairs site.groups r.user.customer entries []
  refuse (ltb max_ftp_accounts (length pairs)) too_many_ftp_accounts
  done (record site { ftp_accounts = others_of r.id site.ftp_accounts ++ as_accounts r.id pairs })

abbrev pub is_active_admin : Row → Bool
is_active_admin r = is_admin r.user.role && r.user.is_active

-- whether the query for other active administrators counts any
unfoldable pub has_other_admin : ℕ → List Row → Bool
has_other_admin n [] = false
has_other_admin n (r ∷ rest) = (is_active_admin r && not (r.id == n)) || has_other_admin n rest

unfoldable pub assert_can_disable : Site → Row → Principal → Answer (Unit {0})
assert_can_disable site r me = do
  refuse (text_eq r.user.username me.username) own_account
  refuse (is_admin r.user.role && not (has_other_admin r.id site.rows)) last_admin

pub record UserCreate : Type 0 where
  pub username : Text
  pub password : Text
  pub role : Role
  pub customer : Option Text
  pub allowed_ips : List Entered
  pub note : Option Text
  pub ftp_accounts : List FtpMap

pub record UserUpdate : Type 0 where
  pub password : Option Text
  pub customer : Option Text
  pub allowed_ips : Option (List Entered)
  pub is_active : Option Bool
  pub note : Option Text
  pub ftp_accounts : Option (List FtpMap)

abbrev pub or_none : Text → Option Text
or_none s = if is_empty s then none else some s

abbrev pub or_invalid_ip : Option (List Text) → Answer Text
or_invalid_ip none = raised invalid_ip
or_invalid_ip (some ips) = done (join 10 ips)

-- steps of the handlers, each for a field that may be missing
abbrev pub save_if_customer : Row → List FtpMap → Site → Answer Site
save_if_customer r entries site =
    if is_admin r.user.role then done site else save_ftp_map r entries site

abbrev pub set_customer : Option Text → Row → Answer Row
set_customer none r = done r
set_customer (some text) r =
    let customer = strip_input text in
    if not (is_admin r.user.role) && is_empty customer
    then raised no_customer
    else done (record r { user = record r.user { customer = or_none customer } })

abbrev pub set_note : Option Text → Row → Row
set_note none r = r
set_note (some note) r = record r { note = or_none (strip_input note) }

abbrev pub set_active : Site → Principal → Option Bool → Row → Answer Row
set_active site me none r = done r
set_active site me (some true) r = done (record r { user = record r.user { is_active = true } })
set_active site me (some false) r = do
  assert_can_disable site r me
  done (record r { user = record r.user { is_active = false } })

abbrev pub save_if_given : Option (List FtpMap) → Row → Site → Answer Site
save_if_given none r site = done site
save_if_given (some entries) r site = save_ftp_map r entries site

module _ (hash : Text → Text) where
  abbrev pub new_row : Principal → Text → Text → Text → UserCreate → ℕ → Row
  new_row me username customer ips body id = record {
    id = id;
    user = record {
      username = username;
      password_hash = hash (strip_input body.password);
      role = body.role;
      customer = if is_admin body.role then none else some customer;
      allowed_ips = some ips;
      is_active = true;
      failed_attempts = 0;
      locked_until = none;
      last_login_at = none;
    };
    note = or_none (strip_input (text_or_empty body.note));
    created_by = some me.username;
  }

  abbrev pub set_password : Option Text → Row → Row
  set_password none r = r
  set_password (some password) r = record r {
    user = record r.user {
      password_hash = hash (strip_input password);
      failed_attempts = 0;
      locked_until = none;
    };
  }

module _ (is_network : Text → Bool) where
  -- `_parse_ip_list`
  abbrev pub parse_ip_list : List Entered → Answer Text
  parse_ip_list entries = or_invalid_ip (validate_ip_entries is_network entries)

  abbrev pub set_allowed_ips : Option (List Entered) → Row → Answer Row
  set_allowed_ips none r = done r
  set_allowed_ips (some entries) r = do
    ips ← parse_ip_list entries
    done (record r { user = record r.user { allowed_ips = some ips } })

module _ (is_network : Text → Bool) (hash : Text → Text) where
  unfoldable pub create_user : Principal → UserCreate → Site → Answer Site
  create_user me body site = do
    let username = strip_input body.username
    let customer = strip_input (text_or_empty body.customer)
    refuse (is_empty username) no_username
    refuse (not (is_admin body.role) && is_empty customer) no_customer
    refuse (has_username username site.rows) username_taken
    refuse (not (is_admin body.role) && text_eq username (get_admin_username site.config))
        admin_username_taken
    ips ← parse_ip_list is_network body.allowed_ips
    let r = new_row hash me username customer ips body site.next_id
    save_if_customer r body.ftp_accounts
        (record site { rows = site.rows ++ r ∷ []; next_id = suc site.next_id })

  unfoldable pub update_user : Principal → ℕ → UserUpdate → Site → Answer Site
  update_user me n body site = do
    found ← get n site
    r ← set_customer body.customer (set_password hash body.password found)
    with_ips ← set_allowed_ips is_network body.allowed_ips r
    changed ← set_active site me body.is_active (set_note body.note with_ips)
    save_if_given body.ftp_accounts changed (record site { rows = put_row changed site.rows })

unfoldable pub unlock : ℕ → Site → Answer Site
unlock n site = do
  r ← get n site
  done (record site { rows = put_row (record r { user = unlock_user r.user }) site.rows })

unfoldable pub delete_user : Principal → ℕ → Site → Answer Site
delete_user me n site = do
  r ← get n site
  assert_can_disable site r me
  done (record site {
    rows = drop_row r.id site.rows;
    ftp_accounts = others_of r.id site.ftp_accounts;
  })
