-- ===== src/Daemon/Extended.antt =====
-- ftp-daemon/soltrace_daemon.py: `parse_extended_log` after the line has been matched. The groups of
-- the match are the input, with the time that `strptime` reads or none for its ValueError; text is
-- code points, and a username of `-` is none.
pub mod Between
pub mod Logins
pub mod Steady
pub mod Tests
use soltrace.Base.{
  ℕ, ◌==◌, leb, Bool, true, false, not, ◌&&◌, ◌||◌, Option, none, some, List, [], ◌∷◌, ◌++◌,
  if◌then◌else◌,
}
use soltrace.Auth.Text.{Text, text_eq, is_empty, strip}
use soltrace.Daemon.Sessions.{Session, store_get, store_pop, remember}

-- the commands that the parser looks at
pub data Command : Type 0 where
  user pass quit rnfr rnto mkd rmd cwd retr stor other : Command

pub record Line : Type 0 where
  pub log_time : Option ℕ
  pub client_ip : Text
  pub username : Option Text
  pub pid : Text
  pub status_code : ℕ
  pub command : Command
  pub path : Text
  pub cmd_str : Text
  pub err_msg : Text

pub data Action : Type 0 where
  upload download rename login logout mkdir rmdir cwd_fail client_error : Action

pub record Entry : Type 0 where
  pub log_time : ℕ
  pub client_ip : Text
  pub username : Option Text
  pub session_id : Text
  pub action : Action
  pub is_success : Bool
  pub file_path : Option Text

-- `_user_sessions` and `_rnfr_sessions`
pub record Sessions : Type 0 where
  pub users : List Session
  pub renames : List Session

-- `path.endswith("/")` of a path that is not empty
unfoldable pub ends_with_slash : Text → Bool
ends_with_slash [] = false
ends_with_slash (c ∷ []) = c == 47
ends_with_slash (c ∷ d ∷ ds) = ends_with_slash (d ∷ ds)

abbrev pub has_no_name : Option Text → Bool
has_no_name none = false
has_no_name (some path) = ends_with_slash path

-- `_is_client_error`
unfoldable pub is_client_error : ℕ → Option Text → Bool
is_client_error code path =
    code == 500 || code == 501 || code == 502 || code == 504 || has_no_name path

-- `_norm_path`: of slashes in a row the last stays
abbrev pub slash : ℕ → Text → Text
slash c [] = c ∷ []
slash c (d ∷ ds) = if c == 47 && d == 47 then d ∷ ds else c ∷ d ∷ ds

unfoldable pub norm_path : Text → Text
norm_path [] = []
norm_path (c ∷ cs) = slash c (norm_path cs)

-- `.strip('"')`
unfoldable pub lstrip_quotes : Text → Text
lstrip_quotes [] = []
lstrip_quotes (c ∷ cs) = if c == 34 then lstrip_quotes cs else c ∷ cs

abbrev pub keep_quoted : ℕ → Text → Text
keep_quoted c [] = if c == 34 then [] else c ∷ []
keep_quoted c (d ∷ ds) = c ∷ d ∷ ds

unfoldable pub rstrip_quotes : Text → Text
rstrip_quotes [] = []
rstrip_quotes (c ∷ cs) = keep_quoted c (rstrip_quotes cs)

-- what follows the first space, stripped; empty when there is none
unfoldable pub after_space : Text → Text
after_space [] = []
after_space (c ∷ cs) = if c == 32 then cs else after_space cs

abbrev pub argument : Text → Text
argument cmd_str = strip (after_space cmd_str)

abbrev pub some_text : Text → Option Text
some_text s = if is_empty s then none else some s

abbrev pub map_path : Option Text → Option Text
map_path none = none
map_path (some s) = some (norm_path s)

-- the path of the line, or where it is `-` the argument of the command
unfoldable pub path_of : Line → Option Text
path_of l =
    let path = rstrip_quotes (lstrip_quotes l.path) in
    map_path (if text_eq path (45 ∷ []) then some_text (argument l.cmd_str) else some path)

abbrev pub entry_of : ℕ → Line → Action → Bool → Option Text → Entry
entry_of time l action ok path = record {
  log_time = time;
  client_ip = l.client_ip;
  username = l.username;
  session_id = l.pid;
  action = action;
  is_success = ok;
  file_path = path;
}

abbrev pub value_of : Option Session → Option Text
value_of none = none
value_of (some s) = s.value

-- `username or (val[0] if val else None)`
abbrev pub or_remembered : Option Text → Option Session → Option Text
or_remembered none val = value_of val
or_remembered (some name) val = if is_empty name then value_of val else some name

abbrev pub failed_login : Entry → Option Text → Option Entry
failed_login e none = none
failed_login e (some name) =
    if is_empty name then none else some (record e { username = some name; is_success = false })

-- `f"{from_path} -> {path}"`, where no path prints as None
abbrev pub printed : Option Text → Text
printed none = 78 ∷ 111 ∷ 110 ∷ 101 ∷ []
printed (some s) = s

abbrev pub renamed : Option Text → Option Text → Option Text
renamed none path = path
renamed (some from) path =
    if is_empty from then path else some (from ++ 32 ∷ 45 ∷ 62 ∷ 32 ∷ printed path)

-- `"No such file" in err_msg`
unfoldable pub starts : Text → Text → Bool
starts [] s = true
starts (p ∷ ps) [] = false
starts (p ∷ ps) (c ∷ cs) = p == c && starts ps cs

unfoldable pub contains : Text → Text → Bool
contains p [] = starts p []
contains p (c ∷ cs) = starts p (c ∷ cs) || contains p cs

abbrev pub no_such_file : Text
no_such_file = 78 ∷ 111 ∷ 32 ∷ 115 ∷ 117 ∷ 99 ∷ 104 ∷ 32 ∷ 102 ∷ 105 ∷ 108 ∷ 101 ∷ []

abbrev pub is_download : Action → Bool
is_download download = true
is_download _ = false

-- the last branch: a transfer that was refused before it began
abbrev pub refused : ℕ → Line → Action → Option Entry
refused time l action =
    let path = path_of l in
    if not (leb 400 l.status_code)
    then none
    else if l.status_code == 426
    then none
    else elim l.username [
      | none ↦ none
      | some name ↦
          if is_download action && contains no_such_file l.err_msg
          then none
          else if is_client_error l.status_code path
          then some (entry_of time l client_error false path)
          else some (entry_of time l action false path)
    ]

-- a command that counts at one status code only
abbrev pub at_code : ℕ → ℕ → Line → Action → Bool → Option Entry
at_code code time l action ok =
    if l.status_code == code then some (entry_of time l action ok (path_of l)) else none

-- the commands, on a line whose time was read at `time`; `now` is the clock of the process
unfoldable pub parse_command : (now time : ℕ) → Line → Command → Sessions → Option Entry × Sessions
parse_command now time l user st =
    let attempted = argument l.cmd_str in
    if is_empty attempted
    then (none, st)
    else (none, record st { users = remember now l.pid (some attempted) st.users })
parse_command now time l pass st =
    let val = store_get l.pid st.users in
    let left : Sessions = record st { users = store_pop l.pid st.users } in
    if l.status_code == 230
    then (some (entry_of time l login true none), left)
    else (failed_login (entry_of time l login true none) (or_remembered l.username val), left)
parse_command now time l quit st =
    (some (entry_of time l logout true none), record st { users = store_pop l.pid st.users })
parse_command now time l rnfr st =
    (none, record st { renames = remember now l.pid (path_of l) st.renames })
parse_command now time l rnto st =
    if l.status_code == 250
    then (
      some (
          entry_of time l rename true
            (renamed (value_of (store_get l.pid st.renames)) (path_of l))),
      record st { renames = store_pop l.pid st.renames },
    )
    else (none, st)
parse_command now time l mkd st = (at_code 257 time l mkdir true, st)
parse_command now time l rmd st = (at_code 250 time l rmdir true, st)
parse_command now time l cwd st = (at_code 550 time l cwd_fail false, st)
parse_command now time l retr st = (refused time l download, st)
parse_command now time l stor st = (refused time l upload, st)
parse_command now time l other st = (none, st)

abbrev pub parse_at : ℕ → Option ℕ → Line → Sessions → Option Entry × Sessions
parse_at now none l st = (none, st)
parse_at now (some time) l st = parse_command now time l l.command st

unfoldable pub parse_extended_log : ℕ → Line → Sessions → Option Entry × Sessions
parse_extended_log now l st = parse_at now l.log_time l st
