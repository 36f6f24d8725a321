-- ===== src/Daemon/Extended/Steady.antt =====
-- ftp-daemon/soltrace_daemon.py: what `parse_extended_log` makes of a line whatever it remembers.
use soltrace.Base.{
  ◌==◌, ◌+◌, ◌+◌, [], ℕ, ◌≡◌, refl, ◌∙◌, sym, Bool, true, false, Option, none, some, List, select,
  Bool-cases, inl, inr,
}
use soltrace.Auth.Text.{Text, is_empty}
use soltrace.Daemon.Sessions.{store_get}
use soltrace.Daemon.Tailer.{Parser}
use soltrace.Daemon.Tailer.Lines.{one_of, Agrees}
use soltrace.Daemon.Extended.{
  client_error, cwd_fail, rmdir, mkdir, logout, download, upload, Line, Command, user, pass, quit,
  rnfr, rnto, mkd, rmd, cwd, retr, stor, other, login, rename, Entry, Sessions, entry_of, argument,
  or_remembered, failed_login, parse_command, parse_at, parse_extended_log,
}

-- neither a failed login nor a rename, which name what a line before has named
abbrev pub is_steady : Entry → Bool
is_steady e = elim e.action [
  | login ↦ e.is_success
  | rename ↦ false
  | upload ↦ true
  | download ↦ true
  | logout ↦ true
  | mkdir ↦ true
  | rmdir ↦ true
  | cwd_fail ↦ true
  | client_error ↦ true
]

failed_login-none :
    (time : ℕ) (l : Line) (name : Option Text)
    → select is_steady (one_of (failed_login (entry_of time l login true none) name)) ≡ []
failed_login-none time l none = refl
failed_login-none time l (some name) = elim (Bool-cases (is_empty name)) [
  | inl e ↦ rw e refl
  | inr e ↦ rw e refl
]

-- what the parser keeps of a line, of the entries that are steady
abbrev steady_of : Option Entry × Sessions → List Entry
steady_of r = select is_steady (one_of r.0)

command-steady :
    (now now' time : ℕ) (l : Line) (c : Command) (st st' : Sessions)
    → steady_of (parse_command now time l c st) ≡ steady_of (parse_command now' time l c st')
unfolding parse_command
command-steady now now' time l user st st' = elim (Bool-cases (is_empty (argument l.cmd_str))) [
  | inl e ↦ rw e refl
  | inr e ↦ rw e refl
]
command-steady now now' time l pass st st' = elim (Bool-cases (l.status_code == 230)) [
  | inl e ↦ rw e refl
  | inr e ↦ rw e (
      failed_login-none time l (or_remembered l.username (store_get l.pid st.users))
      ∙ sym (failed_login-none time l (or_remembered l.username (store_get l.pid st'.users))))
]
command-steady now now' time l quit st st' = refl
command-steady now now' time l rnfr st st' = refl
command-steady now now' time l rnto st st' = elim (Bool-cases (l.status_code == 250)) [
  | inl e ↦ rw e refl
  | inr e ↦ rw e refl
]
command-steady now now' time l mkd st st' = refl
command-steady now now' time l rmd st st' = refl
command-steady now now' time l cwd st st' = refl
command-steady now now' time l retr st st' = refl
command-steady now now' time l stor st st' = refl
command-steady now now' time l other st st' = refl

at-steady :
    (now now' : ℕ) (time : Option ℕ) (l : Line) (st st' : Sessions)
    → steady_of (parse_at now time l st) ≡ steady_of (parse_at now' time l st')
at-steady now now' none l st st' = refl
at-steady now now' (some time) l st st' = command-steady now now' time l l.command st st'

-- What the extended log says of all but failed logins and renames depends on the line alone:
-- with any sessions remembered and at any time, parse_extended_log gives a line the same entry,
-- or none, of those that are neither a failed login nor a rename.
pub parse_extended_log_steady :
    (now now' : ℕ) (l : Line) (st st' : Sessions)
    → select is_steady (one_of (parse_extended_log now l st).0)
      ≡ select is_steady (one_of (parse_extended_log now' l st').0)
unfolding parse_extended_log
parse_extended_log_steady now now' l st st' = at-steady now now' l.log_time l st st'

-- the parser of a tailer: what the pattern matches is a parameter, and it remembers the sessions
-- and how often it has read the clock
abbrev pub parse_if : (ℕ → ℕ) → Option Line → ℕ × Sessions → Option Entry × (ℕ × Sessions)
parse_if clock none (n, st) = (none, (n, st))
parse_if clock (some l) (n, st) =
    let (o, st') = parse_extended_log (clock n) l st in (o, (n + 1, st'))

abbrev pub extended_parser : (ℕ → ℕ) → (List ℕ → Option Line) → Parser Entry (ℕ × Sessions)
extended_parser clock matched st line = parse_if clock (matched line) st

parse_if-steady :
    (clock : ℕ → ℕ) (l : Option Line) (st st' : ℕ × Sessions)
    → select is_steady (one_of (parse_if clock l st).0)
      ≡ select is_steady (one_of (parse_if clock l st').0)
parse_if-steady clock none st st' = refl
parse_if-steady clock (some l) (n, st) (m, st') =
    parse_extended_log_steady (clock n) (clock m) l st st'

-- So the sender loop loses no steady entry of the extended log.
pub extended_parser-Agrees :
    (clock : ℕ → ℕ) (matched : List ℕ → Option Line) (first : ℕ × Sessions)
    → Agrees is_steady
        (extended_parser clock matched)
        (λ line. (extended_parser clock matched first line).0)
extended_parser-Agrees clock matched first st line = parse_if-steady clock (matched line) st first
