-- ===== src/Ingest/Tests.antt =====
-- was/app/routers/ingest.py: on one device.
use soltrace.Base.{ℕ, true, false, none, [], ◌∷◌}
use soltrace.Auth.Text.{Text}
use soltrace.Ingest.{
  upload, cwd_fail, other, LogEntry, Device, active, DeviceTable, Registration, Heartbeat, LogBatch,
  ingest_logs,
}
use soltrace.Ingest.Accounts.{Answers, ingest_logs-Answers}

abbrev device : Device
device = record {
  id = 4;
  device_key = 75 ∷ [];
  hostname = 72 ∷ [];
  ip_address = none;
  os_info = none;
  kernel_version = none;
  proftpd_version = none;
  daemon_version = none;
  last_heartbeat = 10;
  status = active;
  update_requested = true;
  reported = [];
}

abbrev table : DeviceTable
table = record { devices = device ∷ []; next_id = 5 }

abbrev registration : Text → Registration
registration name = record {
  device_key = 76 ∷ [];
  hostname = name;
  ip_address = none;
  os_info = none;
  kernel_version = none;
  proftpd_version = none;
  daemon_version = none;
}

abbrev alive : Heartbeat
alive = record {
  device_key = 75 ∷ [];
  hostname = 72 ∷ [];
  ip_address = [];
  daemon_version = none;
  reported = [];
}

abbrev entry : LogEntry
entry = record {
  log_time = 9;
  client_ip = none;
  username = none;
  action = upload;
  file_path = none;
  file_size = 1;
  transfer_time = 1;
  transfer_type = none;
  status = none;
  session_id = none;
}

abbrev batch : LogBatch
batch = record {
  device_key = 75 ∷ [];
  logs = entry ∷ record entry { action = cwd_fail } ∷ record entry { action = other [] } ∷ [];
}

abbrev no_hash : ℕ → LogEntry → Text
no_hash n e = []

ingest_logs-Answers_example : Answers table batch (ingest_logs no_hash false batch table)
ingest_logs-Answers_example = ingest_logs-Answers no_hash false batch table
