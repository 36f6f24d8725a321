-- ===== src/Daemon/Transfer/Tests.antt =====
-- ftp-daemon/soltrace_daemon.py: one line of a transfer log.
use soltrace.Base.{false, ℕ, ◌≡◌, refl, true, Option, none, some, [], ◌∷◌}
use soltrace.Auth.Text.{Text, codes}
use soltrace.Auth.Text.Split.{are_words_sound, join}
use soltrace.Daemon.Transfer.{
  Fields, upload, fields_of, parse_transfer_log, parse_transfer_log-join,
}

abbrev the_time : Text → Option ℕ
the_time s = some 77

abbrev length_only : Text → Option ℕ
length_only [] = none
length_only (c ∷ cs) = some c

abbrev fields : Fields
fields = record {
  weekday = codes "Mon";
  month = codes "Jan";
  day = codes "5";
  clock = codes "10:00:00";
  year = codes "2026";
  transfer_time = codes "3";
  remote_host = codes "10.0.0.1";
  file_size = codes "9";
  filename = codes "/a//b";
  transfer_type = codes "b";
  special_action = codes "_";
  direction = codes "i";
  access_mode = codes "r";
  username = codes "kim";
  service = codes "ftp";
  auth_method = codes "0";
  auth_user = codes "*";
  completion = codes "c";
}

parse_transfer_log-join_example :
    parse_transfer_log the_time length_only length_only
      (join 32 (fields.weekday ∷ fields_of fields))
    ≡ some (record {
      log_time = 77;
      client_ip = codes "10.0.0.1";
      username = codes "kim";
      action = upload;
      file_path = codes "/a/b";
      file_size = b'9';
      transfer_time = b'3';
      is_ascii = false;
      is_success = true;
    })
unfolding soltrace.Auth.Text.is_space soltrace.Daemon.Extended.norm_path
    soltrace.Daemon.Extended.lstrip_quotes soltrace.Daemon.Extended.rstrip_quotes
parse_transfer_log-join_example =
    parse_transfer_log-join the_time length_only length_only fields 77 b'3' b'9' upload
      (are_words_sound (fields.weekday ∷ fields_of fields) refl) refl refl refl refl
