-- ===== src/Auth/Login/Grants.antt =====
-- was/app/routers/auth.py: whom `login` gives a token.
use soltrace.Base.{
  ℕ, ◌≡◌, ◌⊎◌, inl, inr, refl, ap, ◌∙◌, sym, Bool, true, false, Option, none, some, Option-cases,
  arith,
}
use soltrace.Auth.Text.{Text}
use soltrace.Auth.Passwords.{verify_password}
use soltrace.Auth.Accounts.{User, Role, admin, register_failed_login}
use soltrace.Auth.Login.{
  is_ascii, server_error, Config, Db, Request, token, check_ip_allowed, login_user, login_as, login,
  login_bootstrap, verify_admin_credentials, find_user, compare_digest,
}
use soltrace.Auth.Login.Lockout.{is_checked}

module _ (pbkdf2 : (password salt iters : Text) → Option Text)
    (in_network : (client entry : Text) → Option Bool) where
  -- an account that may have this token: active, not locked, from an address of its lists, and with
  -- its password
  pub record IsEntitled (now : ℕ) (cfg : Config) (req : Request) (name : Text) (role : Role)
      (customer : Option Text) (user : User) : Type 0 where
    pub checked : is_checked pbkdf2 in_network cfg now req user ≡ true
    pub verified : verify_password pbkdf2 req.password user.password_hash ≡ true
    pub same_name : name ≡ user.username
    pub same_role : role ≡ user.role
    pub same_customer : customer ≡ user.customer

  login_user-IsEntitled :
      (now : ℕ) (cfg : Config) (req : Request) (user : User) (name : Text) (role : Role)
      (customer : Option Text)
      → (login_user pbkdf2 in_network now cfg req user).0 ≡ token name role customer
      → IsEntitled now cfg req name role customer user
  unfolding login_user register_failed_login
  login_user-IsEntitled now cfg req user name role customer h = record {
    checked = ground arith;
    verified = ground arith;
    same_name = ground arith;
    same_role = ground arith;
    same_customer = ground arith;
  }

  -- the administrator of the settings, while the table has no such account
  pub record IsBootstrap (cfg : Config) (req : Request) (name : Text) (role : Role)
      (customer : Option Text) : Type 0 where
    pub same_name : name ≡ req.username
    pub same_role : role ≡ admin
    pub same_customer : customer ≡ none
    pub listed : check_ip_allowed in_network cfg req.client_ip ≡ true
    pub verified :
        verify_admin_credentials pbkdf2 in_network cfg req.username req.password ≡ some true

  login_bootstrap-IsBootstrap :
      (cfg : Config) (req : Request) (name : Text) (role : Role) (customer : Option Text)
      → login_bootstrap pbkdf2 in_network cfg req ≡ token name role customer
      → IsBootstrap cfg req name role customer
  unfolding login_bootstrap
  login_bootstrap-IsBootstrap cfg req name role customer h = record {
    same_name = ground arith;
    same_role = ground arith;
    same_customer = ground arith;
    listed = ground arith;
    verified = ground arith;
  }

  -- A token goes only to an account of the table that is active, has no whole second of a lock
  -- left, and is admitted from the address, with its own password, name, role and customer; or,
  -- to a name that the table does not have, to the administrator of the settings with the
  -- address and the credentials.
  pub login-token :
      (now : ℕ) (req : Request) (db : Db) (name : Text) (role : Role) (customer : Option Text)
      → (login pbkdf2 in_network now req db).0 ≡ token name role customer
      → ((user : User) × (find_user req.username db.users ≡ some user)
          × IsEntitled now db.config req name role customer user)
        ⊎ ((find_user req.username db.users ≡ none) × IsBootstrap db.config req name role customer)
  unfolding login
  login-token now req db name role customer h =
      elim (Option-cases (find_user req.username db.users)) [
        | inl e ↦
            let same : login pbkdf2 in_network now req db
                ≡ login_as pbkdf2 in_network now req db none =
              ap (λ u. login_as pbkdf2 in_network now req db u) e in
            inr (
              e,
              login_bootstrap-IsBootstrap db.config req name role customer
                  (ap (λ x. x.0) (sym same) ∙ h),
            )
        | inr (user, e) ↦
            let same : login pbkdf2 in_network now req db
                ≡ login_as pbkdf2 in_network now req db (some user) =
              ap (λ u. login_as pbkdf2 in_network now req db u) e in
            inl (
              user,
              e,
              login_user-IsEntitled now db.config req user name role customer
                  (ap (λ x. x.0) (sym same) ∙ h),
            )
      ]

  -- A login under a name that is not ASCII and that the table does not have raises, and changes
  -- nothing.
  pub login_not_ascii :
      (now : ℕ) (req : Request) (db : Db)
      → find_user req.username db.users ≡ none
      → is_ascii req.username ≡ false
      → login pbkdf2 in_network now req db ≡ (server_error, db)
  unfolding login login_bootstrap compare_digest
  login_not_ascii now req db e h = rw e (rw (h, compare_digest) refl)
