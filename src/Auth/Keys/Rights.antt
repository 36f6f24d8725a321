-- ===== src/Auth/Keys/Rights.antt =====
-- was/app/deps.py, was/app/api_keys.py: whom a request may speak for.
use soltrace.Base.{
  [], ◌∷◌, subst, ℕ, ◌≡◌, ◌⊎◌, inl, inr, refl, ap, ◌∙◌, sym, true, false, not, ◌||◌, Option, none,
  some, List, Bool-cases, Option-cases, arith,
}
use soltrace.Auth.Text.{Text, strip, is_empty}
use soltrace.Auth.Accounts.{User}
use soltrace.Auth.Keys.{
  role_or_default, ApiKey, Account, Store, Principal, Claims, granted, Headers, Method, is_read,
  is_expired, find_key, find_account, valid_key, owner_of, active_owner, resolve, use_key,
  key_principal, principal_from_api_key, authenticate, with_token, with_claims, with_subject,
  current, account_named, raw_key, key_header, get_current_user,
}

-- a key that counts at a time, with the account that it speaks for
pub record IsValidKey (now : ℕ) (accounts : List Account) (key : ApiKey) (owner : Option User)
    : Type 0 where
  pub active : key.is_active ≡ true
  pub unexpired : is_expired key.expires_at now ≡ false
  pub owned :
      ((key.user_id ≡ none) × (owner ≡ none))
      ⊎ ((n : ℕ) × (a : Account) × (key.user_id ≡ some n)
          × (find_account n accounts ≡ some a)
          × (a.user.is_active ≡ true)
          × (owner ≡ some a.user))

owner_lem :
    (accounts : List Account) (key key' : ApiKey) (id : Option ℕ) (owner : Option User)
    → owner_of accounts key id ≡ some (key', owner)
    → (key' ≡ key)
      × (((id ≡ none) × (owner ≡ none))
          ⊎ ((n : ℕ) × (a : Account) × (id ≡ some n)
              × (find_account n accounts ≡ some a)
              × (a.user.is_active ≡ true)
              × (owner ≡ some a.user)))
owner_lem accounts key key' none owner h = (ground arith, inl (refl, ground arith))
owner_lem accounts key key' (some n) owner h = elim (Option-cases (find_account n accounts)) [
  | inl e ↦ ground arith
  | inr (a, e) ↦
      let same : active_owner key (some a) ≡ some (key', owner) =
        ap (λ x. active_owner key x) (sym e) ∙ h in
      (ground arith, inr (n, a, refl, e, ground arith, ground arith))
]

valid_key_lem :
    (now : ℕ) (accounts : List Account) (found : Option ApiKey) (key : ApiKey) (owner : Option User)
    → valid_key now accounts found ≡ some (key, owner)
    → (found ≡ some key) × IsValidKey now accounts key owner
valid_key_lem now accounts none key owner h = ground arith
valid_key_lem now accounts (some k) key owner h =
    elim (Bool-cases (not k.is_active || is_expired k.expires_at now)) [
      | inl bad ↦ ground arith
      | inr ok ↦
          let (same, owned) = owner_lem accounts k key k.user_id owner (ground arith) in
          let back : k ≡ key = sym same in
          (
            ap (λ x. some x) back,
            subst (λ x. IsValidKey now accounts x owner) back
                (record { active = ground arith; unexpired = ground arith; owned = owned }),
          )
    ]

-- What a token's claims give: its subject is named, an account of the table under that name is
-- active and gives the role and the customer, and the claims give them only where there is none.
pub record IsCurrent (accounts : List Account) (claims : Claims) (p : Principal) : Type 0 where
  pub by_token : p.via_api_key ≡ false
  pub subject : claims.sub ≡ some p.username
  pub named : is_empty p.username ≡ false
  pub standing :
      ((account_named p.username accounts ≡ none)
        × (p.role ≡ role_or_default claims.role p.username)
        × (p.customer ≡ claims.customer))
      ⊎ ((u : User) × (account_named p.username accounts ≡ some u)
          × (u.is_active ≡ true)
          × (p.role ≡ u.role)
          × (p.customer ≡ u.customer))

use_key_lem :
    (now : ℕ) (method : Method) (st : Store) (r : Option (ApiKey × Option User)) (p : Principal)
    → (use_key now method st r).0 ≡ granted p
    → (key : ApiKey) × (owner : Option User) × (r ≡ some (key, owner))
      × (is_read method ≡ true)
      × (p ≡ key_principal st.config owner)
use_key_lem now method st none p h = ground arith
use_key_lem now method st (some (key, owner)) p h = (key, owner, refl, ground arith, ground arith)

granted_lem : (q p : Principal) → granted q ≡ granted p → q ≡ p
granted_lem q p h = ground arith

current_lem :
    (c : Claims) (sub : Text) (accounts : List Account) (u : Option User) (p : Principal)
    → c.sub ≡ some sub
    → is_empty sub ≡ false
    → account_named sub accounts ≡ u
    → current c sub u ≡ granted p
    → IsCurrent accounts c p
current_lem c sub accounts none p s n e h =
    let name : sub ≡ p.username = ground arith in
    record {
      by_token = ground arith;
      subject = s ∙ ap (λ x. some x) name;
      named = ap (λ x. is_empty x) (sym name) ∙ n;
      standing = inl (
        ap (λ x. account_named x accounts) (sym name) ∙ e,
        ap (λ q. q.role) (sym (granted_lem _ p h)) ∙ ap (λ x. role_or_default c.role x) name,
        ground arith,
      );
    }
current_lem c sub accounts (some u) p s n e h =
    let name : sub ≡ p.username = ground arith in
    record {
      by_token = ground arith;
      subject = s ∙ ap (λ x. some x) name;
      named = ap (λ x. is_empty x) (sym name) ∙ n;
      standing = inr (
        u,
        ap (λ x. account_named x accounts) (sym name) ∙ e,
        ground arith,
        ground arith,
        ground arith,
      );
    }

with_subject_lem :
    (c : Claims) (sub : Option Text) (accounts : List Account) (p : Principal)
    → c.sub ≡ sub
    → with_subject c sub accounts ≡ granted p
    → IsCurrent accounts c p
with_subject_lem c none accounts p s h = ground arith
with_subject_lem c (some []) accounts p s h = ground arith
with_subject_lem c (some (x ∷ xs)) accounts p s h =
    current_lem c (x ∷ xs) accounts (account_named (x ∷ xs) accounts) p s refl refl h

with_claims_lem :
    (found : Option Claims) (accounts : List Account) (p : Principal)
    → with_claims found accounts ≡ granted p
    → (c : Claims) × (found ≡ some c) × IsCurrent accounts c p
with_claims_lem none accounts p h = ground arith
with_claims_lem (some c) accounts p h = (c, refl, with_subject_lem c c.sub accounts p refl h)

module _ (hash_key : Text → Text) (decode : Text → Option Claims) where
  -- a request by a key: it only reads, and the key counts
  pub record IsKeyed (now : ℕ) (raw : Text) (method : Method) (st : Store) (p : Principal)
      : Type 0 where
    pub key : ApiKey
    pub owner : Option User
    pub reads : is_read method ≡ true
    pub found : find_key (hash_key raw) st.keys ≡ some key
    pub valid : IsValidKey now st.accounts key owner
    pub speaks : p ≡ key_principal st.config owner

  -- a request by a token: the one that it bears, which can be decoded
  abbrev pub IsBorne : Option Text → Store → Principal → Type 0
  IsBorne bearer st p =
      (t : Text) × (c : Claims) × (bearer ≡ some t)
      × (decode t ≡ some c)
      × IsCurrent st.accounts c p

  with_token_lem :
      (bearer : Option Text) (st : Store) (p : Principal)
      → with_token hash_key decode bearer st ≡ granted p
      → IsBorne bearer st p
  with_token_lem none st p h = ground arith
  with_token_lem (some t) st p h =
      let (c, found, x) = with_claims_lem (decode t) st.accounts p h in (t, c, refl, found, x)

  keyed_lem :
      (now : ℕ) (raw : Text) (method : Method) (st : Store) (p : Principal)
      → (principal_from_api_key hash_key decode now raw method st).0 ≡ granted p
      → IsKeyed now raw method st p
  unfolding principal_from_api_key resolve
  keyed_lem now raw method st p h =
      let (key, owner, r, reads, same) =
        use_key_lem now method st (resolve hash_key decode now raw st) p h in
      let (found, valid) =
        valid_key_lem now st.accounts (find_key (hash_key raw) st.keys) key owner r in
      record {
        key = key;
        owner = owner;
        reads = reads;
        found = found;
        valid = valid;
        speaks = same;
      }

  get_lem :
      (now : ℕ) (key : Option Text) (h : Headers) (st : Store) (p : Principal)
      → (authenticate hash_key decode now key h st).0 ≡ granted p
      → ((raw : Text) × (key ≡ some raw) × IsKeyed now (strip raw) h.method st p)
        ⊎ ((key ≡ none) × IsBorne h.bearer st p)
  get_lem now none h st p g = inr (refl, with_token_lem h.bearer st p g)
  get_lem now (some raw) h st p g = inl (raw, refl, keyed_lem now (strip raw) h.method st p g)

  -- A request is granted a principal only by a key that is found, active and not expired, whose
  -- account, if it has one, is active, and only to read; or else, where it has no key, by the
  -- bearer token that it carries, which can be decoded and has a subject that is not empty, the
  -- name of the principal: if the table has an account of that name, it is active and gives the
  -- role and the customer, and if not, the claims give them.
  pub get_current_user-grant :
      (now : ℕ) (h : Headers) (st : Store) (p : Principal)
      → (get_current_user hash_key decode now h st).0 ≡ granted p
      → ((raw : Text) × (raw_key (key_header h.api_key) h.bearer ≡ some raw)
          × IsKeyed now (strip raw) h.method st p)
        ⊎ ((raw_key (key_header h.api_key) h.bearer ≡ none) × IsBorne h.bearer st p)
  unfolding get_current_user
  get_current_user-grant now h st p g =
      get_lem now (raw_key (key_header h.api_key) h.bearer) h st p g
