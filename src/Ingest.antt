-- ===== src/Ingest.antt =====
-- was/app/routers/ingest.py: what the daemons post. A time is a number, a status field of a heartbeat
-- is its text, and the id of a new device is the next of the table's sequence.
pub mod Accounts
pub mod Devices
pub mod Tests
use soltrace.Base.{
  ℕ, zero, suc, ◌+◌, ◌==◌, Bool, true, false, not, ◌&&◌, ◌||◌, Option, none, some, List, [], ◌∷◌,
  ◌++◌, if◌then◌else◌,
}
use soltrace.Auth.Text.{Text, text_eq, is_empty}

-- `VALID_ACTIONS`, and any other text
pub data Action : Type 0 where
  upload download delete rename login logout mkdir rmdir cwd_fail client_error : Action
  other : Text → Action

pub record LogEntry : Type 0 where
  pub log_time : ℕ
  pub client_ip : Option Text
  pub username : Option Text
  pub action : Action
  pub file_path : Option Text
  pub file_size : ℕ
  pub transfer_time : ℕ
  pub transfer_type : Option Text
  pub status : Option Text
  pub session_id : Option Text

-- the row that is written
pub record FtpLog : Type 0 where
  pub device_id : ℕ
  pub entry : LogEntry
  pub row_hash : Text

pub data DeviceStatus : Type 0 where
  pending active disabled : DeviceStatus

-- `reported` are the fields of `_status_fields` after the first, in their order
pub record Device : Type 0 where
  pub id : ℕ
  pub device_key : Text
  pub hostname : Text
  pub ip_address : Option Text
  pub os_info : Option Text
  pub kernel_version : Option Text
  pub proftpd_version : Option Text
  pub daemon_version : Option Text
  pub last_heartbeat : ℕ
  pub status : DeviceStatus
  pub update_requested : Bool
  pub reported : List (Option Text)

pub record DeviceTable : Type 0 where
  pub devices : List Device
  pub next_id : ℕ

pub record Registration : Type 0 where
  pub device_key : Text
  pub hostname : Text
  pub ip_address : Option Text
  pub os_info : Option Text
  pub kernel_version : Option Text
  pub proftpd_version : Option Text
  pub daemon_version : Option Text

pub record Registered : Type 0 where
  pub device_id : ℕ
  pub status : DeviceStatus
  pub is_new : Bool

unfoldable pub find_device : Text → List Device → Option Device
find_device key [] = none
find_device key (d ∷ ds) = if text_eq d.device_key key then some d else find_device key ds

-- the row that the session writes back
unfoldable pub put_device : Device → List Device → List Device
put_device d [] = []
put_device d (x ∷ xs) = if text_eq x.device_key d.device_key then d ∷ xs else x ∷ put_device d xs

-- a field that is sent and not empty replaces the old one
abbrev pub or_old : Option Text → Option Text → Option Text
or_old none old = old
or_old (some new) old = if is_empty new then old else some new

abbrev pub refreshed : ℕ → Registration → Device → Device
refreshed now req d = record d {
  hostname = req.hostname;
  ip_address = or_old req.ip_address d.ip_address;
  os_info = or_old req.os_info d.os_info;
  kernel_version = or_old req.kernel_version d.kernel_version;
  proftpd_version = or_old req.proftpd_version d.proftpd_version;
  daemon_version = or_old req.daemon_version d.daemon_version;
  last_heartbeat = now;
}

abbrev pub new_device : ℕ → ℕ → Registration → Device
new_device now id req = record {
  id = id;
  device_key = req.device_key;
  hostname = req.hostname;
  ip_address = req.ip_address;
  os_info = req.os_info;
  kernel_version = req.kernel_version;
  proftpd_version = req.proftpd_version;
  daemon_version = req.daemon_version;
  last_heartbeat = now;
  status = pending;
  update_requested = false;
  reported = [];
}

abbrev pub register_found :
    ℕ → Registration → DeviceTable → Option Device → Registered × DeviceTable
register_found now req table (some d) = (
  record { device_id = d.id; status = d.status; is_new = false },
  record table { devices = put_device (refreshed now req d) table.devices },
)
register_found now req table none = (
  record { device_id = table.next_id; status = pending; is_new = true },
  record {
    devices = table.devices ++ new_device now table.next_id req ∷ [];
    next_id = table.next_id + 1;
  },
)

unfoldable pub register_device : ℕ → Registration → DeviceTable → Registered × DeviceTable
register_device now req table =
    register_found now req table (find_device req.device_key table.devices)

pub record Heartbeat : Type 0 where
  pub device_key : Text
  pub hostname : Text
  pub ip_address : Text
  pub daemon_version : Option Text
  pub reported : List (Option Text)

pub data Beat : Type 0 where
  not_found : Beat
  beat : DeviceStatus → (update : Bool) → Beat

abbrev pub text_or_old : Text → Text → Text
text_or_old new old = if is_empty new then old else new

-- the fields that are sent replace the old ones; a list that is too short has none there
unfoldable pub report : List (Option Text) → List (Option Text) → List (Option Text)
report [] old = old
report (v ∷ vs) [] = v ∷ report vs []
report (none ∷ vs) (o ∷ os) = o ∷ report vs os
report (some v ∷ vs) (o ∷ os) = some v ∷ report vs os

-- a field that is sent replaces the old one
abbrev pub or_sent : Option Text → Option Text → Option Text
or_sent none old = old
or_sent (some v) old = some v

abbrev pub beaten : ℕ → Heartbeat → Device → Device
beaten now req d = record d {
  last_heartbeat = now;
  hostname = text_or_old req.hostname d.hostname;
  ip_address = if is_empty req.ip_address then d.ip_address else some req.ip_address;
  daemon_version = or_sent req.daemon_version d.daemon_version;
  reported = report req.reported d.reported;
  update_requested = false;
}

abbrev pub beat_found : ℕ → Heartbeat → DeviceTable → Option Device → Beat × DeviceTable
beat_found now req table none = (not_found, table)
beat_found now req table (some d) = (
  beat d.status d.update_requested,
  record table { devices = put_device (beaten now req d) table.devices },
)

unfoldable pub heartbeat : ℕ → Heartbeat → DeviceTable → Beat × DeviceTable
heartbeat now req table = beat_found now req table (find_device req.device_key table.devices)

pub record LogBatch : Type 0 where
  pub device_key : Text
  pub logs : List LogEntry

pub data Ingested : Type 0 where
  unknown_key : Ingested
  device_disabled : Ingested
  buffer_full : Ingested
  ingested : (accepted rejected : ℕ) → Ingested

abbrev pub is_valid_action : Action → Bool
is_valid_action (other s) = false
is_valid_action _ = true

abbrev pub is_cwd_fail : Action → Bool
is_cwd_fail cwd_fail = true
is_cwd_fail _ = false

-- `in ("/", "", None)`
abbrev pub is_root_path : Option Text → Bool
is_root_path none = true
is_root_path (some s) = is_empty s || text_eq s (47 ∷ [])

unfoldable pub is_taken : LogEntry → Bool
is_taken e = is_valid_action e.action && not (is_cwd_fail e.action && is_root_path e.file_path)

abbrev pub is_disabled : DeviceStatus → Bool
is_disabled disabled = true
is_disabled _ = false

-- `row_hash` is the hash of a row's fields, which hashlib computes
module _ (row_hash : ℕ → LogEntry → Text) where
  unfoldable pub take_logs : ℕ → List LogEntry → ℕ × ℕ × List FtpLog
  take_logs device [] = (0, 0, [])
  take_logs device (e ∷ es) =
      let (accepted, rejected, rows) = take_logs device es in
      if is_taken e
      then (
        suc accepted,
        rejected,
        record { device_id = device; entry = e; row_hash = row_hash device e } ∷ rows,
      )
      else (accepted, suc rejected, rows)

  -- the answer, and the rows for `add` of the write buffer
  abbrev pub ingest_found : Bool → LogBatch → Option Device → Ingested × List FtpLog
  ingest_found saturated batch none = (unknown_key, [])
  ingest_found saturated batch (some d) =
      if is_disabled d.status
      then (device_disabled, [])
      else if saturated
      then (buffer_full, [])
      else (let (accepted, rejected, rows) = take_logs d.id batch.logs in
          (ingested accepted rejected, rows))

  unfoldable pub ingest_logs : Bool → LogBatch → DeviceTable → Ingested × List FtpLog
  ingest_logs saturated batch table =
      ingest_found saturated batch (find_device batch.device_key table.devices)
