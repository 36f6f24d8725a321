-- ===== src/Daemon/Extended/Logins.antt =====
-- ftp-daemon/soltrace_daemon.py: logins that fail, as `parse_extended_log` puts them together, and the
-- size of what it remembers.
use soltrace.Base.{
  ℕ, ◌≤◌, ◌≡◌, refl, ◌==◌, false, Option, none, some, List, [], ◌∷◌, length, Bool-cases, inl, inr,
  arith,
}
use soltrace.Auth.Text.{Text, is_empty}
use soltrace.Daemon.Sessions.{
  Session, store_pop, store_get, remember, max_sessions, remember-bounded,
}
use soltrace.Daemon.Extended.{
  Line, Command, user, pass, quit, rnfr, rnto, mkd, rmd, cwd, retr, stor, other, Sessions, login,
  entry_of, argument, parse_command, parse_at, parse_extended_log, path_of,
}

pub store_pop-length : (pid : Text) (xs : List Session) → length (store_pop pid xs) ≤ length xs
unfolding store_pop
store_pop-length pid [] = omega arith
store_pop-length pid (x ∷ xs) = ground (arith, store_pop-length pid xs)

-- both stores are within the limit
abbrev pub IsBounded : Sessions → Type 0
IsBounded st = (length st.users ≤ max_sessions) × (length st.renames ≤ max_sessions)

command-IsBounded :
    (now time : ℕ) (l : Line) (c : Command) (st : Sessions)
    → IsBounded st
    → IsBounded (parse_command now time l c st).1
unfolding parse_command
command-IsBounded now time l user st h = elim (Bool-cases (is_empty (argument l.cmd_str))) [
  | inl e ↦ rw e h
  | inr e ↦ rw e (remember-bounded now l.pid (some (argument l.cmd_str)) st.users h.0, h.1)
]
command-IsBounded now time l pass st h =
    let shorter = store_pop-length l.pid st.users in
    let small : length (store_pop l.pid st.users) ≤ max_sessions = omega (arith, shorter, h.0) in
    elim (Bool-cases (l.status_code == 230)) [
      | inl e ↦ rw e (small, h.1)
      | inr e ↦ rw e (small, h.1)
    ]
command-IsBounded now time l quit st h =
    let shorter = store_pop-length l.pid st.users in (omega (arith, shorter, h.0), h.1)
command-IsBounded now time l rnfr st h =
    (h.0, remember-bounded now l.pid (path_of l) st.renames h.1)
command-IsBounded now time l rnto st h =
    let shorter = store_pop-length l.pid st.renames in
    elim (Bool-cases (l.status_code == 250)) [
      | inl e ↦ rw e (h.0, omega (arith, shorter, h.1))
      | inr e ↦ rw e h
    ]
command-IsBounded now time l mkd st h = h
command-IsBounded now time l rmd st h = h
command-IsBounded now time l cwd st h = h
command-IsBounded now time l retr st h = h
command-IsBounded now time l stor st h = h
command-IsBounded now time l other st h = h

at-IsBounded :
    (now : ℕ) (time : Option ℕ) (l : Line) (st : Sessions)
    → IsBounded st
    → IsBounded (parse_at now time l st).1
at-IsBounded now none l st h = h
at-IsBounded now (some time) l st h = command-IsBounded now time l l.command st h

-- A line leaves the stores of the parser within the limit of remembered sessions, if they are
-- before.
pub parse_extended_log-IsBounded :
    (now : ℕ) (l : Line) (st : Sessions) → IsBounded st → IsBounded (parse_extended_log now l st).1
unfolding parse_extended_log
parse_extended_log-IsBounded now l st h = at-IsBounded now l.log_time l st h

pub after_user :
    (now time : ℕ) (l : Line) (st : Sessions)
    → l.log_time ≡ some time
    → l.command ≡ user
    → is_empty (argument l.cmd_str) ≡ false
    → (parse_extended_log now l st).1
      ≡ record st { users = remember now l.pid (some (argument l.cmd_str)) st.users }
unfolding parse_extended_log parse_command
after_user now time l st t c a = rw t (rw c (rw a refl))

pub after_pass :
    (now time : ℕ) (l : Line) (st : Sessions) (s : Session) (name : Text)
    → l.log_time ≡ some time
    → l.command ≡ pass
    → (l.status_code == 230) ≡ false
    → l.username ≡ none
    → store_get l.pid st.users ≡ some s
    → s.value ≡ some name
    → is_empty name ≡ false
    → (parse_extended_log now l st).0
      ≡ some (record (entry_of time l login false none) { username = some name })
unfolding parse_extended_log parse_command
after_pass now time l st s name t c code u g v a =
    rw t (rw c (rw code (rw u (rw g (rw v (rw a refl))))))
