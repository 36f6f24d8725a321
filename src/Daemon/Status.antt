-- ===== src/Daemon/Status.antt =====
-- ftp-daemon/soltrace_daemon.py: `_collect_status`, which reports what changed, and the loop of
-- was/app/routers/ingest.py that stores what is reported. Floats, and the texts of times and
-- numbers, are parameters; a dictionary is a function of its keys.
pub mod Tests
pub mod Shown
use soltrace.Base.{
  ℕ, Bool, true, false, not, ◌&&◌, Option, none, some, length, if◌then◌else◌, List, [], ◌++◌,
}
use soltrace.Auth.Text.{Text, text_eq, codes}
use soltrace.Monitor.Float.{Float, is_nonzero}
use soltrace.Daemon.Sender
use soltrace.Daemon.Sender.{
  Daemon, Note, note_buffered, note_disabled, running, degraded, disabled_by_server, stopping,
}

-- the fields of a report
pub data Key : Type 0 where
  daemon_version daemon_status last_send_time buffer_lines queue_size : Key
  consecutive_failures error_message cpu_percent mem_mb disk_free_gb daemon_uptime : Key

-- `None`, a text, or a number
pub data Value (R : Type 0) : Type 0 where
  absent : Value R
  word : Text → Value R
  number : R → Value R

abbrev pub Dict : Type 0 → Type 0
Dict R = Key → Option (Value R)

abbrev pub clears_on_zero : Key → Bool
clears_on_zero buffer_lines = true
clears_on_zero queue_size = true
clears_on_zero _ = false

-- `d.get(key)`
abbrev pub value_at : {R : Type 0} → Option (Value R) → Value R
value_at none = absent
value_at (some v) = v

abbrev pub is_present : {R : Type 0} → Value R → Bool
is_present absent = false
is_present _ = true

-- `d.update(new)`, at a key
abbrev pub or_kept : {R : Type 0} → Option (Value R) → Option (Value R) → Option (Value R)
or_kept none old = old
or_kept (some v) old = some v

unfoldable pub update : {R : Type 0} → Dict R → Dict R → Dict R
update new old key = or_kept (new key) (old key)

-- the server's loop over the fields: a value that is not None replaces the column
abbrev pub set_value : {R : Type 0} → Value R → Option (Value R) → Option (Value R)
set_value absent old = old
set_value v old = some v

unfoldable pub store_report : {R : Type 0} → Dict R → Dict R → Dict R
store_report report device key = set_value (value_at (report key)) (device key)

abbrev pub status_text : Sender.Status → Text
status_text running = codes "running"
status_text degraded = codes "degraded"
status_text disabled_by_server = codes "disabled"
status_text stopping = codes "stopping"

abbrev pub note_text : (ℕ → Text) → Note → Text
note_text show (note_buffered entries retry_in) =
    codes "전송 실패 (" ++ show entries ++ codes "건 버퍼됨, " ++ show retry_in ++ codes "초 후 재시도)"
note_text show note_disabled = codes "WAS에서 비활성화됨 — 재활성화 대기 중"

-- What psutil says, rounded; none when it raises.
pub record Gauges (R : Type 0) : Type 0 where
  pub cpu : Option R
  pub mem : Option R
  pub disk_free : Option R
  pub uptime : ℕ

module _ (f : Float) where
  open f use {R, of_ℕ, ratio, sub, abs, lt}

  -- `thresholds`; a text has none
  abbrev pub threshold : Key → Option R
  threshold cpu_percent = some (of_ℕ 5)
  threshold mem_mb = some (of_ℕ 20)
  threshold disk_free_gb = some (ratio 1 2)
  threshold buffer_lines = some (of_ℕ 10)
  threshold queue_size = some (of_ℕ 5)
  threshold daemon_uptime = some (of_ℕ 60)
  threshold consecutive_failures = some (of_ℕ 0)
  threshold _ = none

  -- `abs(val - prev_val) >= threshold`
  abbrev pub is_far : R → R → R → Bool
  is_far limit val prev = not (lt (abs (sub val prev)) limit)

  abbrev pub is_zero : R → Bool
  is_zero x = not (is_nonzero f x)

  -- `(val == 0) != (prev_val == 0)`
  abbrev pub crosses_zero : R → R → Bool
  crosses_zero val prev = if is_zero val then not (is_zero prev) else is_zero prev

  -- `val != prev_val` where a field has no threshold, so is a text
  abbrev pub differs : Value R → Value R → Bool
  differs (word a) (word b) = not (text_eq a b)
  differs absent absent = false
  differs _ _ = true

  -- whether a field that has a threshold is reported
  abbrev pub moved : Key → R → Value R → Value R → Bool
  moved key limit (number val) (number prev) =
      if is_far limit val prev then true else clears_on_zero key && crosses_zero val prev
  moved key limit absent prev = is_present prev
  moved key limit val prev = true

  abbrev pub changed_at : Key → Option R → Value R → Value R → Bool
  changed_at key none val prev = differs val prev
  changed_at key (some limit) val prev = moved key limit val prev

  unfoldable pub is_changed : Key → Value R → Value R → Bool
  is_changed key val prev = changed_at key (threshold key) val prev

  -- the fields of the report that changed
  unfoldable pub dirty_of : (Key → Value R) → Dict R → Dict R
  dirty_of current prev key =
      if is_changed key (current key) (value_at (prev key)) then some (current key) else none

  -- what is reported, and what is remembered as reported
  unfoldable pub collect_status : Bool → (Key → Value R) → Dict R → Dict R × Dict R
  collect_status force current prev =
      if force
      then ((λ key. some (current key)), (λ key. some (current key)))
      else (let dirty = dirty_of current prev in (dirty, update dirty prev))

  abbrev pub gauge : Option R → Value R
  gauge none = absent
  gauge (some x) = number x

  abbrev pub time_value : (ℕ → Text) → Option ℕ → Value R
  time_value iso none = absent
  time_value iso (some t) = word (iso t)

  abbrev pub note_value : (ℕ → Text) → Option Note → Value R
  note_value show none = absent
  note_value show (some n) = word (note_text show n)

  -- `current`
  unfoldable pub current_status {ℓ} :
      {E : Type ℓ}
      → {S : Type 0} → (iso show : ℕ → Text) → (version : Text) → Gauges R
      → Daemon E S
      → Key
      → Value R
  current_status iso show version g d daemon_version = word version
  current_status iso show version g d daemon_status = word (status_text d.status)
  current_status iso show version g d last_send_time = time_value iso d.last_send
  current_status iso show version g d buffer_lines = number (of_ℕ (length d.buffer.entries))
  current_status iso show version g d queue_size = number (of_ℕ d.queue_size)
  current_status iso show version g d consecutive_failures = number (of_ℕ d.failures)
  current_status iso show version g d error_message = note_value show d.error
  current_status iso show version g d cpu_percent = gauge g.cpu
  current_status iso show version g d mem_mb = gauge g.mem
  current_status iso show version g d disk_free_gb = gauge g.disk_free
  current_status iso show version g d daemon_uptime = number (of_ℕ g.uptime)
