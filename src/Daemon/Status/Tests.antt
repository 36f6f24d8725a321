-- ===== src/Daemon/Status/Tests.antt =====
-- ftp-daemon/soltrace_daemon.py: reports with whole numbers in the place of floats.
use soltrace.Base.{ℕ, ◌≡◌, refl, false, some, [], ◌∷◌}
use soltrace.Auth.Text.{codes}
use soltrace.Monitor.Whole.{whole_numbers}
use soltrace.Daemon.Status.{
  Key, Value, Dict, absent, word, number, error_message, queue_size, buffer_lines, value_at,
}
use soltrace.Daemon.Status.Shown.{Report, Shown, nothing_sent, run_reports, run_reports-Shown}

abbrev with_queue : ℕ → Value ℕ → Key → Value ℕ
with_queue n error queue_size = number n
with_queue n error buffer_lines = number 40
with_queue n error error_message = error
with_queue n error _ = word (codes "ok")

abbrev busy : Report whole_numbers
busy = record { force = false; current = with_queue 2 (word (codes "down")) }

abbrev idle : Report whole_numbers
idle = record { force = false; current = with_queue 0 absent }

-- the queue has come back to zero, although by less than its threshold
zero_is_reported :
    (run_reports whole_numbers (busy ∷ idle ∷ []) nothing_sent nothing_sent).1 queue_size
    ≡ some (number 0)
unfolding run_reports soltrace.Daemon.Status.collect_status soltrace.Daemon.Status.store_report
    soltrace.Daemon.Status.update soltrace.Daemon.Status.dirty_of soltrace.Daemon.Status.is_changed
zero_is_reported = refl

-- the message is gone, and the server keeps it
message_stays :
    (run_reports whole_numbers (busy ∷ idle ∷ []) nothing_sent nothing_sent).1 error_message
    ≡ some (word (codes "down"))
unfolding run_reports soltrace.Daemon.Status.collect_status soltrace.Daemon.Status.store_report
    soltrace.Daemon.Status.update soltrace.Daemon.Status.dirty_of soltrace.Daemon.Status.is_changed
message_stays = refl

run_reports-Shown_example : Shown whole_numbers queue_size (number 0) (
    value_at
      ((run_reports whole_numbers (busy ∷ idle ∷ []) nothing_sent nothing_sent).1 queue_size))
run_reports-Shown_example = run_reports-Shown whole_numbers (busy ∷ []) idle nothing_sent queue_size
