-- ===== src/Auth/Login/Lockout.antt =====
-- was/app/routers/auth.py: how many passwords of an account `login` lets be tried.
use soltrace.Base.{
  ap, leb, ◌<◌, ℕ, ◌+◌, ◌-◌, ◌/◌, ◌≤◌, ◌≡◌, refl, ◌==◌, Bool, true, false, not, ◌&&◌, Option, some,
  List, [], ◌∷◌, All, Bool-cases, inl, inr, arith, if◌then◌else◌,
}
use soltrace.Auth.Text.{Text}
use soltrace.Auth.Passwords.{verify_password}
use soltrace.Auth.Accounts.{
  User, lock_seconds_left, register_failed_login, login_max_attempts, lock_time, second,
  check_user_ip_allowed,
}
use soltrace.Auth.Login.{
  Config, Request, is_admin, check_ip_allowed, login_user, after_failure, Answer, token,
  bad_credentials, account_locked, account_disabled, ip_blocked, server_error,
}

module _ (pbkdf2 : (password salt iters : Text) → Option Text)
    (in_network : (client entry : Text) → Option Bool) (cfg : Config) where
  -- whether the tests before the password are passed
  abbrev pub is_admitted : Request → User → Bool
  is_admitted req user =
      user.is_active
      && not (is_admin user.role && not (check_ip_allowed in_network cfg req.client_ip))
      && check_user_ip_allowed in_network user.allowed_ips req.client_ip

  abbrev pub is_checked : ℕ → Request → User → Bool
  is_checked now req user = lock_seconds_left user now == 0 && is_admitted req user

  -- whether what a login does tells right from wrong in the password: a token, an answer that
  -- the password is wrong, or a lock that this failure sets off
  abbrev pub tells : User → Answer × User → Bool
  tells user (token name role customer, after) = true
  tells user (bad_credentials remaining, after) = true
  tells user (account_locked seconds, after) = not (after.failed_attempts == user.failed_attempts)
  tells user (ip_blocked, after) = false
  tells user (account_disabled, after) = false
  tells user (server_error, after) = false

  -- the passwords that a sequence of logins of one account tells right from wrong
  unfoldable pub guesses : List (ℕ × Request) → User → ℕ
  guesses [] user = 0
  guesses ((now, req) ∷ rest) user =
      (if tells user (login_user pbkdf2 in_network now cfg req user) then 1 else 0)
      + guesses rest (login_user pbkdf2 in_network now cfg req user).1

  one_more : (told : Bool) (n k : ℕ) → n ≤ k → (if told then 1 else 0) + n ≤ k + 1
  one_more true n k h = omega arith
  one_more false n k h = omega arith

  same_count : (n : ℕ) → not (n == n) ≡ false
  same_count n = ground arith

  untold_lem :
      (now : ℕ) (req : Request) (user : User)
      → is_checked now req user ≡ false
      → tells user (login_user pbkdf2 in_network now cfg req user) ≡ false
  unfolding login_user
  untold_lem now req user h = elim (Bool-cases (lock_seconds_left user now == 0)) [
    | inr e ↦ rw e (same_count user.failed_attempts)
    | inl e ↦ elim (Bool-cases user.is_active) [
      | inr a ↦ rw (e, a) refl
      | inl a ↦
          elim (Bool-cases
            (is_admin user.role && not (check_ip_allowed in_network cfg req.client_ip))) [
              | inl b ↦ rw (e, a, b) refl
              | inr b ↦
                  elim (Bool-cases
                    (check_user_ip_allowed in_network user.allowed_ips req.client_ip)) [
                      | inr c ↦ rw (e, a, b, c) refl
                      | inl c ↦ ground arith
                    ]
            ]
    ]
  ]

  unchecked_lem :
      (now : ℕ) (req : Request) (user : User)
      → is_checked now req user ≡ false
      → (login_user pbkdf2 in_network now cfg req user).1 ≡ user
  unfolding login_user
  unchecked_lem now req user h = ground arith

  checked_lem :
      (now : ℕ) (req : Request) (user : User)
      → is_checked now req user ≡ true
      → verify_password pbkdf2 req.password user.password_hash ≡ false
      → login_user pbkdf2 in_network now cfg req user
        ≡ after_failure (register_failed_login now user)
  unfolding login_user
  checked_lem now req user h w = ground arith

  -- the logins come within one lock time after `start`, and its last second
  abbrev pub IsWithin : ℕ → ℕ × Request → Type 0
  IsWithin start (now, req) = (start ≤ now) × (now + second ≤ start + lock_time)

  abbrev pub IsWrong : Text → ℕ × Request → Type 0
  IsWrong hash (now, req) = verify_password pbkdf2 req.password hash ≡ false

  locked_left :
      (start now until : ℕ) (user : User)
      → user.locked_until ≡ some until
      → start + lock_time ≤ until
      → now + second ≤ start + lock_time
      → lock_seconds_left user now == 0 ≡ false
  unfolding lock_seconds_left
  locked_left start now until user e h w =
      let long : 1 ≤ (until - now) / second = omega arith in rw e (ground arith)

  -- While the lock lasts, no password is told right from wrong.
  guesses_locked :
      (start until : ℕ) (tries : List (ℕ × Request)) (user : User)
      → user.locked_until ≡ some until
      → start + lock_time ≤ until
      → All (IsWithin start) tries
      → guesses tries user ≡ 0
  unfolding guesses
  guesses_locked start until [] user e h w = refl
  guesses_locked start until ((now, req) ∷ rest) user e h w =
      let shut : is_checked now req user ≡ false =
        ground (arith, locked_left start now until user e h w.0.1) in
      rw (untold_lem now req user shut, unchecked_lem now req user shut)
        (omega (arith, guesses_locked start until rest user e h w.1))

  last_try :
      (now : ℕ) (user : User)
      → leb login_max_attempts (user.failed_attempts + 1) ≡ true
      → (after_failure (register_failed_login now user)).1
        ≡ record user { locked_until = some (now + lock_time); failed_attempts = 0 }
  unfolding register_failed_login
  last_try now user h = rw h refl

  other_try :
      (now : ℕ) (user : User)
      → leb login_max_attempts (user.failed_attempts + 1) ≡ false
      → (after_failure (register_failed_login now user)).1
        ≡ record user { failed_attempts = user.failed_attempts + 1 }
  unfolding register_failed_login
  other_try now user h =
      rw h (elim (Bool-cases (login_max_attempts - (user.failed_attempts + 1) == 0)) [
        | inl e ↦ rw e refl
        | inr e ↦ rw e refl
      ])

  -- In a sequence of logins with wrong passwords, within the time of a lock less its last
  -- second, for an account with fewer failures than the limit: no more logins than it had tries
  -- left are answered in a way that tells that the password is wrong, which is by a token, as
  -- bad credentials, or by a lock that changes the count of failures.
  pub guesses-bound :
      (start : ℕ) (tries : List (ℕ × Request)) (user : User)
      → user.failed_attempts < login_max_attempts
      → All (IsWithin start) tries
      → All (IsWrong user.password_hash) tries
      → guesses tries user ≤ login_max_attempts - user.failed_attempts
  unfolding guesses register_failed_login
  guesses-bound start [] user f w wrong = omega arith
  guesses-bound start ((now, req) ∷ rest) user f w wrong =
      elim (Bool-cases (is_checked now req user)) [
        | inr shut ↦
            rw (untold_lem now req user shut, unchecked_lem now req user shut)
              (omega (arith, guesses-bound start rest user f w.1 wrong.1))
        | inl tried ↦ elim (Bool-cases (leb login_max_attempts (user.failed_attempts + 1))) [
          | inl last ↦
              let out = checked_lem now req user tried wrong.0 in
              let locked = record user {
                locked_until = some (now + lock_time);
                failed_attempts = 0;
              } in
              let quiet =
                guesses_locked start (now + lock_time) rest locked refl (omega (arith, w.0.0))
                  w.1 in
              let none_left : guesses rest (login_user pbkdf2 in_network now cfg req user).1 ≤ 0 =
                rw (ap (λ r. r.1) out, last_try now user last) (omega (arith, quiet)) in
              let told =
                one_more (tells user (login_user pbkdf2 in_network now cfg req user)) _ 0
                  none_left in
              omega (arith, told)
          | inr more ↦
              let out = checked_lem now req user tried wrong.0 in
              let user' = record user { failed_attempts = user.failed_attempts + 1 } in
              let rest_bound = guesses-bound start rest user' (ground arith) w.1 wrong.1 in
              let fewer_left : guesses rest (login_user pbkdf2 in_network now cfg req user).1
                  ≤ login_max_attempts - (user.failed_attempts + 1) =
                rw (ap (λ r. r.1) out, other_try now user more) rest_bound in
              let told =
                one_more (tells user (login_user pbkdf2 in_network now cfg req user)) _ _
                  fewer_left in
              omega (arith, told)
        ]
      ]
