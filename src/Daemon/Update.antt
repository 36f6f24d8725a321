-- ===== src/Daemon/Update.antt =====
-- ftp-daemon/soltrace_daemon.py: `_self_update` with `_validate_update_url` and `_restart_service`.
-- What the network, the file system and the other programs answer is a record of functions; a file
-- is its content.
pub mod Tests
pub mod Files
use soltrace.Base.{
  ℕ, ◌==◌, Bool, true, false, not, ◌&&◌, ◌||◌, Option, none, some, List, [], ◌∷◌, ◌++◌,
  if◌then◌else◌,
}
use soltrace.Auth.Text.{Text, text_eq, is_empty, codes}

-- `files`
pub data File : Type 0 where
  requirements_txt soltrace_daemon_py soltrace_bulk_py : File

abbrev pub files : List File
files = requirements_txt ∷ soltrace_daemon_py ∷ soltrace_bulk_py ∷ []

-- `fname.endswith(".py")`
abbrev pub is_python : File → Bool
is_python requirements_txt = false
is_python _ = true

abbrev pub is_same : File → File → Bool
is_same requirements_txt requirements_txt = true
is_same soltrace_daemon_py soltrace_daemon_py = true
is_same soltrace_bulk_py soltrace_bulk_py = true
is_same _ _ = false

-- `write_bytes`, or its exception with what it left of the file
pub data Write (C : Type 0) : Type 0 where
  written : Write C
  broke : Option C → Write C

-- What the outside answers: the body of an answer without an error status, `ast.parse`, the writes,
-- renames and removals of files, pip where it is installed, `systemctl` with its code, `urlparse`.
pub record Outside (C : Type 0) : Type 0 where
  pub fetch : File → Option C
  pub parses : C → Bool
  pub write_tmp : File → C → Write C
  pub renames : File → Bool
  pub unlinks : File → Bool
  pub pip_runs : Bool
  pub systemctl : Option ℕ
  pub urlparse : Text → Option (Text × Text)

pub record Disk (C : Type 0) : Type 0 where
  pub installed : File → Option C
  pub staged : File → Option C

-- `running` and `_exit_code`
pub record Process : Type 0 where
  pub is_running : Bool
  pub exit_code : ℕ

-- `RESTART_EXIT_CODE`
abbrev pub restart_exit_code : ℕ
restart_exit_code = 42

abbrev pub stop_for_restart : Process
stop_for_restart = record { is_running = false; exit_code = restart_exit_code }

-- none is an exception of `subprocess.run`
abbrev pub after_systemctl : Option ℕ → Process → Process
after_systemctl none p = stop_for_restart
after_systemctl (some rc) p = if rc == 0 then p else stop_for_restart

-- `rstrip("/")`
abbrev pub keep_slash : ℕ → Text → Text
keep_slash c [] = if c == 47 then [] else c ∷ []
keep_slash c (d ∷ ds) = c ∷ d ∷ ds

unfoldable pub rstrip_slashes : Text → Text
rstrip_slashes [] = []
rstrip_slashes (c ∷ cs) = keep_slash c (rstrip_slashes cs)

abbrev pub is_allowed : Option (Text × Text) → Bool
is_allowed none = false
is_allowed (some (scheme, netloc)) =
    text_eq scheme (codes "https")
    && (text_eq netloc (codes "raw.githubusercontent.com") || text_eq netloc (codes "github.com"))

module _ {C : Type 0} where
  abbrev pub set_file : File → Option C → (File → Option C) → File → Option C
  set_file file value contents other = if is_same file other then value else contents other

  abbrev pub stage : File → Option C → Disk C → Disk C
  stage file value d = record d { staged = set_file file value d.staged }

module _ {C : Type 0} (out : Outside C) where
  unfoldable pub restart_service : Process → Process
  restart_service p = after_systemctl out.systemctl p

  unfoldable pub validate_update_url : Text → Bool
  validate_update_url url = is_allowed (out.urlparse url)

  -- The loop over `files`: whether it ended, `tmps`, and the disk. `go_on` is the rest of the loop.
  abbrev pub after_write :
      File
      → C
      → List File
      → Disk C
      → (List File → Disk C → Bool × List File × Disk C)
      → Write C
      → Bool × List File × Disk C
  after_write file content tmps d go_on written =
      go_on (tmps ++ file ∷ []) (stage file (some content) d)
  after_write file content tmps d go_on (broke left) = (false, tmps, stage file left d)

  abbrev pub after_fetch :
      File
      → List File
      → Disk C
      → (List File → Disk C → Bool × List File × Disk C)
      → Option C
      → Bool × List File × Disk C
  after_fetch file tmps d go_on none = (false, tmps, d)
  after_fetch file tmps d go_on (some content) =
      if is_python file && not (out.parses content)
      then (false, tmps, d)
      else after_write file content tmps d go_on (out.write_tmp file content)

  unfoldable pub download : List File → List File → Disk C → Bool × List File × Disk C
  download [] tmps d = (true, tmps, d)
  download (file ∷ rest) tmps d = after_fetch file tmps d (download rest) (out.fetch file)

  -- `tmp.replace(dst)` for each; it raises when there is no temporary file
  abbrev pub replace_one : File → Disk C → (Disk C → Bool × Disk C) → Option C → Bool × Disk C
  replace_one file d go_on none = (false, d)
  replace_one file d go_on (some content) =
      if out.renames file
      then go_on (record {
        installed = set_file file (some content) d.installed;
        staged = set_file file none d.staged;
      })
      else (false, d)

  unfoldable pub install : List File → Disk C → Bool × Disk C
  install [] d = (true, d)
  install (file ∷ rest) d = replace_one file d (install rest) (d.staged file)

  -- the handler of exceptions: removes what is left of `tmps`
  unfoldable pub clean_up : List File → Disk C → Disk C
  clean_up [] d = d
  clean_up (file ∷ rest) d = clean_up rest (if out.unlinks file then stage file none d else d)

  -- the rest of the `try` after the files were replaced: pip, then the restart
  abbrev pub after_pip : Bool → List File → Disk C → Process → Disk C × Process
  after_pip false tmps d p = (clean_up tmps d, p)
  after_pip true tmps d p = (d, restart_service p)

  abbrev pub after_install : List File → Bool × Disk C → Process → Disk C × Process
  after_install tmps (false, d) p = (clean_up tmps d, p)
  after_install tmps (true, d) p = after_pip out.pip_runs tmps d p

  abbrev pub after_download : Bool × List File × Disk C → Process → Disk C × Process
  after_download (false, tmps, d) p = (clean_up tmps d, p)
  after_download (true, tmps, d) p = after_install tmps (install tmps d) p

  unfoldable pub self_update : Text → Disk C → Process → Disk C × Process
  self_update update_url d p =
      let url = rstrip_slashes update_url in
      if is_empty url
      then (d, p)
      else if not (validate_update_url url)
      then (d, p)
      else after_download (download files [] d) p
