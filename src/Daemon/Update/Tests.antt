-- ===== src/Daemon/Update/Tests.antt =====
-- ftp-daemon/soltrace_daemon.py: an update whose last file does not parse, and one that is whole.
use soltrace.Base.{ℕ, ◌≡◌, refl, true, none, some, ◌==◌, not}
use soltrace.Auth.Text.{Text, codes}
use soltrace.Daemon.Update.{
  File, requirements_txt, soltrace_daemon_py, soltrace_bulk_py, Write, written, Outside, Disk,
  Process, self_update,
}
use soltrace.Daemon.Update.Files.{
  AllOrNone, OldOrChecked, self_update_atomic, self_update-OldOrChecked,
}

-- every file is fetched as `c`, and 0 does not parse
abbrev outside : ℕ → Outside ℕ
outside c = record {
  fetch = λ f. some c;
  parses = λ x. not (x == 0);
  write_tmp = λ f x. written;
  renames = λ f. true;
  unlinks = λ f. true;
  pip_runs = true;
  systemctl = some 1;
  urlparse = λ url. some (codes "https", codes "github.com");
}

abbrev disk : Disk ℕ
disk = record { installed = λ f. some 5; staged = λ f. none }

abbrev process : Process
process = record { is_running = true; exit_code = 0 }

abbrev url : Text
url = codes "https://github.com/x/"

not_parsed : (self_update (outside 0) url disk process).0.installed soltrace_daemon_py ≡ some 5
unfolding self_update soltrace.Daemon.Update.download soltrace.Daemon.Update.clean_up
    soltrace.Daemon.Update.rstrip_slashes soltrace.Daemon.Update.validate_update_url
not_parsed = refl

restarts : (self_update (outside 7) url disk process).1.exit_code ≡ 42
unfolding self_update soltrace.Daemon.Update.download soltrace.Daemon.Update.install
    soltrace.Daemon.Update.restart_service soltrace.Daemon.Update.rstrip_slashes
    soltrace.Daemon.Update.validate_update_url
restarts = refl

self_update_atomic_example :
    AllOrNone (outside 7) disk process (self_update (outside 7) url disk process)
self_update_atomic_example = self_update_atomic (outside 7) (λ f. refl) url disk process

self_update-OldOrChecked_example :
    OldOrChecked (outside 0) disk (self_update (outside 0) url disk process).0.installed
self_update-OldOrChecked_example = self_update-OldOrChecked (outside 0) url disk process
