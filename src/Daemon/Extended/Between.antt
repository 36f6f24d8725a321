-- ===== src/Daemon/Extended/Between.antt =====
-- ftp-daemon/soltrace_daemon.py: what `parse_extended_log` remembers of a session while other lines
-- are read and stale sessions are flushed.
use soltrace.Base.{
  ℕ, ◌+◌, ◌≤◌, ◌≡◌, refl, ap, ◌∙◌, ◌==◌, ltb, Bool, true, false, not, ◌&&◌, Option, none, some,
  List, [], ◌∷◌, length, length-select, select, All, Bool-cases, inl, inr, some-injective, arith,
}
use soltrace.Auth.Text.{Text, text_eq, text_eq_sound, is_empty}
use soltrace.Daemon.Sessions.{
  Session, store_get, store_set, store_pop, remember, flush_stale, session_ttl, max_sessions,
  store_set-length, remember-found,
}
use soltrace.Daemon.Extended.{
  Line, Command, user, pass, quit, rnfr, rnto, mkd, rmd, cwd, retr, stor, other, Sessions, login,
  entry_of, argument, parse_command, parse_at, parse_extended_log,
}
use soltrace.Daemon.Extended.Logins.{after_user, after_pass, store_pop-length}

other_pid : (a b c : Text) → text_eq a b ≡ true → text_eq b c ≡ false → text_eq a c ≡ false
other_pid a b c h k = ap (λ x. text_eq x c) (text_eq_sound a b h) ∙ k

get-set_other :
    (pid : Text) (x : Session) (xs : List Session)
    → text_eq x.pid pid ≡ false
    → store_get pid (store_set x xs) ≡ store_get pid xs
unfolding store_set store_get
get-set_other pid x [] h = rw h refl
get-set_other pid x (y ∷ ys) h = elim (Bool-cases (text_eq y.pid x.pid)) [
  | inl e ↦ rw (e, h, other_pid y.pid x.pid pid e h) refl
  | inr e ↦ elim (Bool-cases (text_eq y.pid pid)) [
    | inl k ↦ rw (e, k) refl
    | inr k ↦ rw (e, k) (get-set_other pid x ys h)
  ]
]

get-pop_other :
    (pid gone : Text) (xs : List Session)
    → text_eq gone pid ≡ false
    → store_get pid (store_pop gone xs) ≡ store_get pid xs
unfolding store_pop store_get
get-pop_other pid gone [] h = refl
get-pop_other pid gone (y ∷ ys) h = elim (Bool-cases (text_eq y.pid gone)) [
  | inl e ↦ rw (e, other_pid y.pid gone pid e h) refl
  | inr e ↦ elim (Bool-cases (text_eq y.pid pid)) [
    | inl k ↦ rw (e, k) refl
    | inr k ↦ rw (e, k) (get-pop_other pid gone ys h)
  ]
]

get-select :
    (pid : Text) (keep : Session → Bool) (s : Session) (xs : List Session)
    → keep s ≡ true
    → store_get pid xs ≡ some s
    → store_get pid (select keep xs) ≡ some s
unfolding store_get
get-select pid keep s [] k h = h
get-select pid keep s (y ∷ ys) k h = elim (Bool-cases (text_eq y.pid pid)) [
  | inl e ↦
      let same : y ≡ s = some-injective y s (rw e at h) in
      let kept : keep y ≡ true = ap keep same ∙ k in rw kept (rw e (ap (λ x. some x) same))
  | inr e ↦ elim (Bool-cases (keep y)) [
    | inl c ↦ rw c (rw e (get-select pid keep s ys k (rw e at h)))
    | inr c ↦ rw c (get-select pid keep s ys k (rw e at h))
  ]
]

-- With room in the store, nothing has to go.
remember-room :
    (now : ℕ) (pid : Text) (value : Option Text) (xs : List Session)
    → length xs + 1 ≤ max_sessions
    → remember now pid value xs ≡ store_set (record { pid = pid; value = value; at = now }) xs
unfolding remember
remember-room now pid value xs h =
    let few = store_set-length (record { pid = pid; value = value; at = now }) xs in
    let room : ltb max_sessions
          (length (store_set (record { pid = pid; value = value; at = now }) xs))
        ≡ false =
      ground (arith, few) in
    rw (room, remember) refl

-- what happens to the stores: a line that is read, or a call of `_flush_stale_sessions`
pub data Event : Type 0 where
  line_read : (now : ℕ) → Line → Event
  flushed : (now : ℕ) → Event

abbrev pub after : Event → Sessions → Sessions
after (line_read now l) st = (parse_extended_log now l st).1
after (flushed now) st = record {
  users = flush_stale now st.users;
  renames = flush_stale now st.renames;
}

abbrev pub after_all : List Event → Sessions → Sessions
after_all [] st = st
after_all (e ∷ es) st = after_all es (after e st)

-- USER, PASS and QUIT change what is remembered of a session
abbrev pub is_login_command : Command → Bool
is_login_command user = true
is_login_command pass = true
is_login_command quit = true
is_login_command rnfr = false
is_login_command rnto = false
is_login_command mkd = false
is_login_command rmd = false
is_login_command cwd = false
is_login_command retr = false
is_login_command stor = false
is_login_command other = false

-- No such command of the session, and no flush after its time to live.
abbrev pub IsQuiet : Text → ℕ → Event → Type 0
IsQuiet pid at (line_read now l) = is_login_command l.command && text_eq l.pid pid ≡ false
IsQuiet pid at (flushed now) = now ≤ at + session_ttl

-- the session is remembered, and the store has not grown by more than one
abbrev Keeps : Session → Sessions → Sessions → Type 0
Keeps s st st' = (store_get s.pid st'.users ≡ some s) × (length st'.users ≤ length st.users + 1)

command-Keeps :
    (now time : ℕ) (l : Line) (c : Command) (s : Session) (st : Sessions)
    → store_get s.pid st.users ≡ some s
    → length st.users + 1 ≤ max_sessions
    → is_login_command c && text_eq l.pid s.pid ≡ false
    → Keeps s st (parse_command now time l c st).1
unfolding parse_command
command-Keeps now time l user s st g h q = elim (Bool-cases (is_empty (argument l.cmd_str))) [
  | inl e ↦ rw e (g, omega arith)
  | inr e ↦
      let value = some (argument l.cmd_str) in
      let new : Session = record { pid = l.pid; value = value; at = now } in
      let room = remember-room now l.pid value st.users h in
      rw (e, room) (get-set_other s.pid new st.users q ∙ g, store_set-length new st.users)
]
command-Keeps now time l pass s st g h q =
    let found = get-pop_other s.pid l.pid st.users q ∙ g in
    let shorter = store_pop-length l.pid st.users in
    elim (Bool-cases (l.status_code == 230)) [
      | inl e ↦ rw e (found, omega (arith, shorter))
      | inr e ↦ rw e (found, omega (arith, shorter))
    ]
command-Keeps now time l quit s st g h q =
    let shorter = store_pop-length l.pid st.users in
    (get-pop_other s.pid l.pid st.users q ∙ g, omega (arith, shorter))
command-Keeps now time l rnfr s st g h q = (g, omega arith)
command-Keeps now time l rnto s st g h q = elim (Bool-cases (l.status_code == 250)) [
  | inl e ↦ rw e (g, omega arith)
  | inr e ↦ rw e (g, omega arith)
]
command-Keeps now time l mkd s st g h q = (g, omega arith)
command-Keeps now time l rmd s st g h q = (g, omega arith)
command-Keeps now time l cwd s st g h q = (g, omega arith)
command-Keeps now time l retr s st g h q = (g, omega arith)
command-Keeps now time l stor s st g h q = (g, omega arith)
command-Keeps now time l other s st g h q = (g, omega arith)

at-Keeps :
    (now : ℕ) (time : Option ℕ) (l : Line) (s : Session) (st : Sessions)
    → store_get s.pid st.users ≡ some s
    → length st.users + 1 ≤ max_sessions
    → is_login_command l.command && text_eq l.pid s.pid ≡ false
    → Keeps s st (parse_at now time l st).1
at-Keeps now none l s st g h q = (g, omega arith)
at-Keeps now (some time) l s st g h q = command-Keeps now time l l.command s st g h q

after-Keeps :
    (e : Event) (s : Session) (st : Sessions)
    → store_get s.pid st.users ≡ some s
    → length st.users + 1 ≤ max_sessions
    → IsQuiet s.pid s.at e
    → Keeps s st (after e st)
unfolding parse_extended_log flush_stale
after-Keeps (line_read now l) s st g h q = at-Keeps now l.log_time l s st g h q
after-Keeps (flushed now) s st g h q =
    let keep : Session → Bool = λ x. not (ltb (x.at + session_ttl) now) in
    let fewer = length-select keep st.users in
    (get-select s.pid keep s st.users (ground arith) g, omega (arith, fewer))

after_all-found :
    (events : List Event) (s : Session) (st : Sessions)
    → store_get s.pid st.users ≡ some s
    → length st.users + length events ≤ max_sessions
    → All (IsQuiet s.pid s.at) events
    → store_get s.pid (after_all events st).users ≡ some s
after_all-found [] s st g h q = g
after_all-found (e ∷ es) s st g h q =
    let (found, grown) = after-Keeps e s st g (omega (arith, h)) q.0 in
    after_all-found es s (after e st) found (omega (arith, h, grown)) q.1

-- A password that is refused (a status other than 230) is reported as a failed login of the
-- account that USER named in the same session, although the line of the refusal names none,
-- whatever lines are read and stale sessions flushed between the two, if no line between is a
-- USER, PASS or QUIT of this session, no flush comes after its time to live, and the store has
-- room for as many sessions as there are events.
pub pass_after_events :
    (now later time time' : ℕ) (l m : Line) (events : List Event) (st : Sessions)
    → length st.users + 1 + length events ≤ max_sessions
    → l.log_time ≡ some time
    → l.command ≡ user
    → is_empty (argument l.cmd_str) ≡ false
    → All (IsQuiet l.pid now) events
    → m.log_time ≡ some time'
    → m.command ≡ pass
    → m.pid ≡ l.pid
    → (m.status_code == 230) ≡ false
    → m.username ≡ none
    → (parse_extended_log later m (after_all events (parse_extended_log now l st).1)).0
      ≡ some (record (entry_of time' m login false none) { username = some (argument l.cmd_str) })
pass_after_events now later time time' l m events st h t c a q t' c' p code u =
    let s : Session = record { pid = l.pid; value = some (argument l.cmd_str); at = now } in
    let st' : Sessions = record st {
      users = remember now l.pid (some (argument l.cmd_str)) st.users;
    } in
    let begun : store_get s.pid st'.users ≡ some s =
      remember-found now l.pid (some (argument l.cmd_str)) st.users (omega (arith, h)) in
    let few : length st'.users ≤ length st.users + 1 =
      rw (remember-room now l.pid (some (argument l.cmd_str)) st.users (omega (arith, h)))
        (store_set-length s st.users) in
    let found = after_all-found events s st' begun (omega (arith, h, few)) q in
    let there : store_get m.pid (after_all events st').users ≡ some s =
      ap (λ x. store_get x (after_all events st').users) p ∙ found in
    rw (after_user now time l st t c a) (
      after_pass later time' m (after_all events st') s (argument l.cmd_str) t' c' code u there refl
        a)
