-- ===== src/Daemon/Extended/Tests.antt =====
-- ftp-daemon/soltrace_daemon.py: a login that fails.
use soltrace.Base.{List, select, ◌≡◌, refl, false, none, some, [], ◌∷◌, arith}
use soltrace.Auth.Text.{Text}
use soltrace.Daemon.Extended.{
  cwd, Line, user, pass, Entry, Sessions, login, entry_of, argument, parse_extended_log,
}
use soltrace.Daemon.Tailer.Lines.{one_of}
use soltrace.Daemon.Extended.Steady.{is_steady, parse_extended_log_steady}
use soltrace.Daemon.Extended.Between.{Event, line_read, flushed, after_all, pass_after_events}
use soltrace.Daemon.Extended.Logins.{IsBounded, parse_extended_log-IsBounded}

-- `USER A`
abbrev user_line : Line
user_line = record {
  log_time = some 50;
  client_ip = [];
  username = none;
  pid = 7 ∷ [];
  status_code = 331;
  command = user;
  path = 45 ∷ [];
  cmd_str = 85 ∷ 32 ∷ 65 ∷ [];
  err_msg = [];
}

abbrev pass_line : Line
pass_line = record user_line { log_time = some 51; status_code = 530; command = pass }

abbrev nothing : Sessions
nothing = record { users = []; renames = [] }

parse_extended_log-IsBounded_example : IsBounded (parse_extended_log 5 user_line nothing).1
parse_extended_log-IsBounded_example =
    parse_extended_log-IsBounded 5 user_line nothing (omega arith, omega arith)

-- a line of another session, one of this session that is no login command, and a flush
abbrev events : List Event
events =
    line_read 6 (record user_line { pid = 8 ∷ [] })
    ∷ line_read 6 (record user_line { command = cwd; status_code = 550 })
    ∷ flushed 200
    ∷ []

pass_after_events_example :
    (parse_extended_log 201 pass_line
      (after_all events (parse_extended_log 5 user_line nothing).1)).0
    ≡ some (record (entry_of 51 pass_line login false none) {
      username = some (argument (85 ∷ 32 ∷ 65 ∷ []));
    })
unfolding soltrace.Auth.Text.strip soltrace.Auth.Text.lstrip soltrace.Auth.Text.rstrip
    soltrace.Auth.Text.is_space soltrace.Daemon.Extended.after_space soltrace.Auth.Text.text_eq
pass_after_events_example =
    pass_after_events 5 201 50 51 user_line pass_line events nothing (omega arith) refl refl refl
      (refl, (refl, (omega arith, tt))) refl refl refl refl refl

-- the refused password after USER, and with nothing remembered, gives no steady entry
parse_extended_log_steady_example :
    select is_steady
      (one_of (parse_extended_log 6 pass_line (parse_extended_log 5 user_line nothing).1).0)
    ≡ select is_steady (one_of (parse_extended_log 9 pass_line nothing).0)
parse_extended_log_steady_example =
    parse_extended_log_steady 6 9 pass_line (parse_extended_log 5 user_line nothing).1 nothing
