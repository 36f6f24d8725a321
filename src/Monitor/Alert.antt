-- ===== src/Monitor/Alert.antt =====
-- was/app/service_monitor.py: the alerts that `_mk` makes, and the two tables that they go into.
-- Times are whole seconds. `V` is the type of the measured values (Python's `float`).
use soltrace.Base.{◌≡◌, refl, ℕ, ◌==◌, String, Bool, true, false, Option, ◌&&◌}

pub data Metric : Type 0 where
  fail_rate throughput login_fail_rate cwd_fail_spike : Metric

pub data Severity : Type 0 where
  warning critical : Severity

abbrev pub metric_eq : Metric → Metric → Bool
metric_eq fail_rate fail_rate = true
metric_eq throughput throughput = true
metric_eq login_fail_rate login_fail_rate = true
metric_eq cwd_fail_spike cwd_fail_spike = true
metric_eq _ _ = false

abbrev pub is_critical : Severity → Bool
is_critical critical = true
is_critical warning = false

-- the dict that `_mk` returns
pub record Alert (V : Type 0) : Type 0 where
  pub device_id : ℕ
  pub bucket : ℕ
  pub metric : Metric
  pub severity : Severity
  pub value : V
  pub baseline : Option V
  pub threshold : Option V
  pub sample_count : ℕ
  pub message : String

-- a row of `service_alerts`
pub record AlertRow (V : Type 0) : Type 0 where
  pub id : ℕ
  pub alert : Alert V
  pub notified : Bool

-- a row of `service_alert_episodes`
pub record Episode : Type 0 where
  pub device_id : ℕ
  pub metric : Metric
  pub started_at : ℕ
  pub first_bucket : ℕ
  pub last_bucket : ℕ
  pub severity : Severity
  pub alert_count : ℕ
  pub notified : Bool
  pub resolved_at : Option ℕ
  pub recovery_notified : Bool

-- `device_id = … AND metric = …`
abbrev pub is_of : ℕ → Metric → Episode → Bool
is_of device metric ep = ep.device_id == device && metric_eq ep.metric metric

pub metric_eq_refl : (m : Metric) → metric_eq m m ≡ true
metric_eq_refl fail_rate = refl
metric_eq_refl throughput = refl
metric_eq_refl login_fail_rate = refl
metric_eq_refl cwd_fail_spike = refl
