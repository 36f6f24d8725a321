-- ===== src/Auth/Users/Tests.antt =====
-- was/app/routers/users.py: two administrators, of whom one goes, and the account of a customer.
use soltrace.Base.{◌==◌, ℕ, ◌≡◌, refl, Bool, true, false, Option, none, some, List, [], ◌∷◌, All}
use soltrace.Auth.Text.{is_empty, is_space, is_break, Text, codes}
use soltrace.Auth.Text.Split.{is_without, is_without_sound}
use soltrace.Auth.Accounts.{User, Role, admin, customer_user}
use soltrace.Auth.Login.{Config, get_office_ips}
use soltrace.Auth.Keys.{Principal}
use soltrace.Auth.Addresses.{IsAddress, set_office_ips, get-set_office_ips}
use soltrace.Auth.Users.{
  Answer, done, raised, Holds, last_admin, own_account, Row, Site, FtpMap, UserUpdate, save_ftp_map,
  delete_user,
}
use soltrace.Auth.Users.Rows.{has_admin}
use soltrace.Auth.Users.LastAdmin.{Op, updates, deletes, serve, serve-has_admin}
use soltrace.Auth.Users.Mappings.{IsOwned, save_ftp_map-IsOwned}

abbrev config : Config
config = record {
  admin_username = none;
  admin_password_hash = none;
  office_ips = none;
  allowed_ips = none;
  default_username = codes "admin";
  default_password = codes "secret";
}

abbrev account : Text → Role → Option Text → User
account name role customer = record {
  username = name;
  password_hash = [];
  role = role;
  customer = customer;
  allowed_ips = none;
  is_active = true;
  failed_attempts = 0;
  locked_until = none;
  last_login_at = none;
}

abbrev row : ℕ → User → Row
row id user = record { id = id; user = user; note = none; created_by = none }

abbrev client : Row
client = row 3 (account (codes "kim") customer_user (some (codes "KT")))

abbrev site : Site
site = record {
  rows =
      row 1 (account (codes "ann") admin none)
      ∷ row 2 (account (codes "bob") admin none)
      ∷ client
      ∷ [];
  ftp_accounts = [];
  groups = record { id = 7; customer = some (codes "KT") } ∷ [];
  next_id = 4;
  config = config;
}

abbrev ann : Principal
ann = record { username = codes "ann"; role = admin; customer = none; via_api_key = false }

abbrev key_of_ann : Principal
key_of_ann = record ann { username = codes "carl" }

abbrev switch_off : UserUpdate
switch_off = record {
  password = none;
  customer = none;
  allowed_ips = none;
  is_active = some false;
  note = none;
  ftp_accounts = none;
}

abbrev any_network : Text → Bool
any_network s = true

abbrev same : Text → Text
same s = s

abbrev requests : List (Principal × Op)
requests = (ann, updates 2 switch_off) ∷ (ann, deletes 1) ∷ (key_of_ann, deletes 1) ∷ []

-- neither oneself nor the last administrator
not_oneself : delete_user ann 1 site ≡ raised own_account
unfolding delete_user soltrace.Auth.Users.get soltrace.Auth.Users.find_row
    soltrace.Auth.Users.assert_can_disable
not_oneself = refl

serve-has_admin_example : has_admin (serve any_network same requests site).rows ≡ true
serve-has_admin_example = serve-has_admin any_network same requests site refl

abbrev entries : List FtpMap
entries = record { group_id = 7; usernames = codes " up " ∷ codes "up" ∷ [] } ∷ []

save_ftp_map-IsOwned_example :
    Holds
      (λ after. All (IsOwned site.groups client) after.ftp_accounts)
      (save_ftp_map client entries site)
save_ftp_map-IsOwned_example = save_ftp_map-IsOwned client entries site

abbrev ips : List Text
ips = codes "10.0.0.1" ∷ codes "10.1.0.0/16" ∷ []

address :
    (s : Text)
    → is_empty s ≡ false
    → is_without is_space s ≡ true
    → is_without is_break s ≡ true
    → is_without (λ c. c == 44) s ≡ true
    → IsAddress s
address s n w b c = (
  (n, is_without_sound is_space s w),
  is_without_sound is_break s b,
  is_without_sound (λ x. x == 44) s c,
)

get-set_office_ips_example : get_office_ips (set_office_ips ips config) ≡ ips
unfolding is_break is_space
get-set_office_ips_example = get-set_office_ips ips config (
  address (codes "10.0.0.1") refl refl refl refl,
  (address (codes "10.1.0.0/16") refl refl refl refl, tt),
)
