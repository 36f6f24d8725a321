-- ===== src/Auth/Addresses.antt =====
-- was/app/security.py: the lists of addresses that are entered and stored, the address of a request,
-- and the first administrator. Whether `ipaddress` reads a network is a parameter.
use mathlib.Core.Path.{ap₂}
use soltrace.Base.{
  ◌==◌, ◌≡◌, refl, ◌∙◌, ap, Bool, true, false, not, ◌||◌, Bool-cases, Option, none, some, inl, inr,
  List, [], ◌∷◌, ◌++◌, map, select, All, All-map, if◌then◌else◌,
}
use soltrace.Auth.Text.{lstrip, rstrip, Text, is_empty, is_break, strip, replace, split_at, codes}
use soltrace.Auth.Text.Split.{join, IsWord, IsWithout, split_at-join, strip-join, select_all}
use soltrace.Auth.Accounts.{User, admin, split_ips, text_or_empty}
use soltrace.Auth.Login.{
  Config, get_admin_username, get_office_ips, find_user, is_admin, or_default,
}

-- a no-break space counts as a space
unfoldable pub strip_input : Text → Text
strip_input s = strip (replace 160 32 s)

-- An entry of the request: a text, or another value, as it prints.
pub data Entered : Type 0 where
  typed : Text → Entered
  other : Text → Entered

module _ (is_network : Text → Bool) where
  -- the entries that are valid and those that are not
  abbrev pub sort_entry : Entered → List Text × List Text → List Text × List Text
  sort_entry (other s) (valid, invalid) = (valid, s ∷ invalid)
  sort_entry (typed s) (valid, invalid) =
      let e = strip_input s in
      if is_empty e
      then (valid, invalid)
      else if is_network e
      then (e ∷ valid, invalid)
      else (valid, e ∷ invalid)

  unfoldable pub parse_ip_entries : List Entered → List Text × List Text
  parse_ip_entries [] = ([], [])
  parse_ip_entries (e ∷ es) = sort_entry e (parse_ip_entries es)

  abbrev pub or_invalid : List Text × List Text → Option (List Text)
  or_invalid (valid, []) = some valid
  or_invalid (valid, i ∷ is) = none

  -- none is the status 422
  unfoldable pub validate_ip_entries : List Entered → Option (List Text)
  validate_ip_entries entries = or_invalid (parse_ip_entries entries)

-- the text that is stored
unfoldable pub set_office_ips : List Text → Config → Config
set_office_ips ips cfg = record cfg {
  office_ips = some (join 10 (select (λ s. not (is_empty s)) (map strip ips)));
}

pub record Headers : Type 0 where
  pub real_ip : Option Text
  pub forwarded_for : Option Text
  pub host : Option Text

abbrev pub head_of : List Text → Text
head_of [] = []
head_of (s ∷ ss) = s

abbrev pub or_host : Option Text → Text
or_host none = codes "0.0.0.0"
or_host (some host) = host

unfoldable pub client_ip_from_request : Headers → Text
client_ip_from_request h =
    let real = text_or_empty h.real_ip in
    let xff = text_or_empty h.forwarded_for in
    if not (is_empty real)
    then strip real
    else if not (is_empty xff)
    then strip (head_of (split_at (λ c. c == 44) xff))
    else or_host h.host

abbrev pub any_admin : List User → Bool
any_admin [] = false
any_admin (u ∷ us) = is_admin u.role || any_admin us

abbrev pub first_admin : Text → Text → User
first_admin username stored = record {
  username = username;
  password_hash = stored;
  role = admin;
  customer = none;
  allowed_ips = none;
  is_active = true;
  failed_attempts = 0;
  locked_until = none;
  last_login_at = none;
}

abbrev pub add_unless_taken : Option User → User → List User → List User
add_unless_taken none user users = users ++ user ∷ []
add_unless_taken (some clash) user users = users

-- `hashed` is the hash of the password of the environment
unfoldable pub ensure_admin_user : Text → Config → List User → List User
ensure_admin_user hashed cfg users =
    let username = get_admin_username cfg in
    if any_admin users
    then users
    else add_unless_taken (find_user username users)
        (first_admin username (or_default cfg.admin_password_hash hashed)) users

or_true : (b : Bool) → (b || true) ≡ true
or_true true = refl
or_true false = refl

any_admin-append :
    (us : List User) (u : User) → is_admin u.role ≡ true → any_admin (us ++ u ∷ []) ≡ true
any_admin-append [] u h = rw h refl
any_admin-append (x ∷ xs) u h = rw (any_admin-append xs u h) (or_true (is_admin x.role))

-- an entry that can be an address: not empty, without white space, line breaks or commas
abbrev pub IsAddress : Text → Type 0
IsAddress s = IsWord s × IsWithout is_break s × IsWithout (λ c. c == 44) s

strip-address : (s : Text) → IsAddress s → strip s ≡ s
strip-address s h = strip-join s [] (h.0, tt)

map-strip : (ips : List Text) → All IsAddress ips → map strip ips ≡ ips
map-strip [] h = refl
map-strip (s ∷ ss) h = rw (strip-address s h.0, map-strip ss h.1) refl

kept : (ips : List Text) → All IsAddress ips → select (λ s. not (is_empty s)) (map strip ips) ≡ ips
kept ips h =
    ap (select (λ s. not (is_empty s))) (map-strip ips h)
    ∙ select_all ips (All-map IsAddress _ ips (λ s k. k.0.0) h)

replace-without : (s : Text) → IsWithout (λ c. c == 44) s → replace 44 10 s ≡ s
unfolding replace
replace-without [] h = refl
replace-without (c ∷ cs) h = rw (h.0, replace-without cs h.1) refl

replace-append : (s t : Text) → replace 44 10 (s ++ t) ≡ replace 44 10 s ++ replace 44 10 t
unfolding replace
replace-append [] t = refl
replace-append (c ∷ cs) t = ap (λ l. (if c == 44 then 10 else c) ∷ l) (replace-append cs t)

replace-newline : (t : Text) → replace 44 10 (10 ∷ t) ≡ 10 ∷ replace 44 10 t
unfolding replace
replace-newline t = refl

replace-join :
    (ip : Text) (ips : List Text)
    → All IsAddress (ip ∷ ips)
    → replace 44 10 (join 10 (ip ∷ ips)) ≡ join 10 (ip ∷ ips)
replace-join ip [] h = replace-without ip h.0.2
replace-join ip (next ∷ rest) h =
    replace-append ip (10 ∷ join 10 (next ∷ rest))
    ∙ ap₂ ◌++◌ (replace-without ip h.0.2)
        (replace-newline (join 10 (next ∷ rest)) ∙ ap (λ l. 10 ∷ l) (replace-join next rest h.1))

split_ips-join : (ips : List Text) → All IsAddress ips → split_ips (some (join 10 ips)) ≡ ips
unfolding split_ips split_at strip lstrip rstrip replace is_break
split_ips-join [] h = refl
split_ips-join (ip ∷ rest) h =
    ap (λ l. select (λ s. not (is_empty s)) (map strip (split_at is_break l)))
      (replace-join ip rest h)
    ∙ ap (λ l. select (λ s. not (is_empty s)) (map strip l))
        (split_at-join is_break 10 ip rest refl (All-map IsAddress _ (ip ∷ rest) (λ s k. k.1) h))
    ∙ kept (ip ∷ rest) h

-- The office addresses that are stored are read back as they were, where each is an address in
-- the sense of IsAddress: not empty and without what separates or is stripped.
pub get-set_office_ips :
    (ips : List Text) (cfg : Config)
    → All IsAddress ips
    → get_office_ips (set_office_ips ips cfg) ≡ ips
unfolding get_office_ips set_office_ips
get-set_office_ips ips cfg h =
    ap (λ l. split_ips (some (join 10 l))) (kept ips h) ∙ split_ips-join ips h

-- The administrator that there is afterwards.
pub ensure_admin_user-any :
    (hashed : Text) (cfg : Config) (users : List User)
    → find_user (get_admin_username cfg) users ≡ none
    → any_admin (ensure_admin_user hashed cfg users) ≡ true
unfolding ensure_admin_user
ensure_admin_user-any hashed cfg users h = elim (Bool-cases (any_admin users)) [
  | inl e ↦ rw e e
  | inr e ↦ rw (e, h) (any_admin-append users _ refl)
]
