-- ===== src/Monitor/Detect.antt =====
-- was/app/service_monitor.py: `_detect` on the rows of `service_metrics`, with `_annotate_cwd_paths` and
-- `_annotate_login_accounts`, and the cycle of `run_once`. The rollup that fills the rows and the
-- queries of the annotations read the logs in SQL, and are parameters.
pub mod Messages
pub mod Rows
pub mod Found
pub mod Recorded
pub mod Cycle
pub mod Tests
use Prim.Native.String.{◌++◌ as str_append, len}
use soltrace.Base.{
  ℕ, zero, suc, ◌+◌, ◌-◌, ◌*◌, ltb, leb, ◌==◌, Bool, true, false, not, ◌&&◌, ◌||◌, String, Option,
  none, some, List, [], ◌∷◌, ◌++◌, map, select, length, if◌then◌else◌,
}
use soltrace.Base.Groups.{group_by}
use soltrace.Monitor.Alert.{
  Metric, fail_rate, throughput, login_fail_rate, cwd_fail_spike, metric_eq, Alert,
}
use soltrace.Auth.Text.{Text}
use soltrace.Storage.DiskGuard
use soltrace.Monitor.Float.{Float, min_of, is_nonzero}
use soltrace.Monitor.Eval.{Metrics, Thresholds, eval_bucket}
use soltrace.Monitor.Episodes.{
  Db, Streaks, record_alerts, resolve_episodes, notify, notify_recovery,
}

-- the settings of the process: the two periods are seconds
pub record Schedule : Type 0 where
  pub baseline_days : ℕ
  pub interval : ℕ
  pub width : ℕ

-- a row of the query of the accounts
pub record LoginRow : Type 0 where
  pub username : String
  pub n : ℕ
  pub accounts : ℕ

-- What the logs say of a device and a bucket: the path with the most failures, and the accounts.
pub record Logs : Type 0 where
  pub cwd_top : ℕ → ℕ → Option (Option String × ℕ)
  pub login_top : ℕ → ℕ → List LoginRow

-- what the disk guard asks of the host
pub record Host : Type 0 where
  pub lower : Text → Text
  pub int_of : Text → Option ℕ
  pub usage : Text → Option ℕ
  pub month : ℕ

infixr 65 ◌<>◌
abbrev ◌<>◌ : String → String → String
a <> b = str_append a b

-- `_DETAIL_SEP`
abbrev pub detail_sep : String
detail_sep = " — "

-- `not row.file_path`, or the path
abbrev pub given_path : Option (Option String × ℕ) → Option (String × ℕ)
given_path none = none
given_path (some (none, n)) = none
given_path (some (some path, n)) = if len path == 0 then none else some (path, n)

-- the order of the metrics' names
abbrev pub name_rank : Metric → ℕ
name_rank cwd_fail_spike = 0
name_rank fail_rate = 1
name_rank login_fail_rate = 2
name_rank throughput = 3

module _ {V : Type 0} where
  -- `(device_id, metric, bucket)` of one alert before that of another
  unfoldable pub is_before : Alert V → Alert V → Bool
  is_before a b =
      ltb a.device_id b.device_id
      || a.device_id == b.device_id
        && (ltb (name_rank a.metric) (name_rank b.metric)
            || metric_eq a.metric b.metric && ltb a.bucket b.bucket)

  -- `sorted`, which keeps equal items in their order
  unfoldable pub insert_alert : Alert V → List (Alert V) → List (Alert V)
  insert_alert a [] = a ∷ []
  insert_alert a (x ∷ xs) = if is_before x a then x ∷ insert_alert a xs else a ∷ x ∷ xs

  unfoldable pub sort_alerts : List (Alert V) → List (Alert V)
  sort_alerts [] = []
  sort_alerts (a ∷ rest) = insert_alert a (sort_alerts rest)

  abbrev pub add_message : String → Alert V → Alert V
  add_message text a = record a { message = a.message <> text }

module _ (f : Float) where
  open f use {R, of_ℕ, ratio, mul, div, lt, whole, show_ℕ}

  -- the windows of the query, of the baseline and of the candidates
  abbrev pub is_read : Schedule → ℕ → Metrics f → Bool
  is_read s now r = leb now (r.bucket + s.baseline_days * 86400)

  abbrev pub is_baseline : Schedule → ℕ → Metrics f → Bool
  is_baseline s now r = is_read s now r && ltb (r.bucket + 3600) now

  abbrev pub is_candidate : Schedule → ℕ → Metrics f → Bool
  is_candidate s now r =
      leb now (r.bucket + (s.interval + 2 * s.width)) && leb (r.bucket + s.width) now

  -- ORDER BY device_id, bucket
  abbrev pub comes_first : Metrics f → Metrics f → Bool
  comes_first r x =
      ltb r.device_id x.device_id || r.device_id == x.device_id && leb r.bucket x.bucket

  unfoldable pub insert_row : Metrics f → List (Metrics f) → List (Metrics f)
  insert_row r [] = r ∷ []
  insert_row r (x ∷ xs) = if comes_first r x then r ∷ x ∷ xs else x ∷ insert_row r xs

  unfoldable pub order_rows : List (Metrics f) → List (Metrics f)
  order_rows [] = []
  order_rows (r ∷ rows) = insert_row r (order_rows rows)

  unfoldable pub read_rows : Schedule → ℕ → List (Metrics f) → List (Metrics f)
  read_rows s now rows = order_rows (select (is_read s now) rows)

  unfoldable pub eval_each : Thresholds f → List (Metrics f) → List (Metrics f) → List (Alert R)
  eval_each cfg baseline [] = []
  eval_each cfg baseline (cand ∷ rest) =
      eval_bucket f cand baseline cfg ++ eval_each cfg baseline rest

  abbrev pub eval_device : Thresholds f → Schedule → ℕ → List (Metrics f) → List (Alert R)
  eval_device cfg s now drows =
      eval_each cfg (select (is_baseline s now) drows) (select (is_candidate s now) drows)

  unfoldable pub eval_devices :
      Thresholds f → Schedule → ℕ → List (ℕ × List (Metrics f)) → List (Alert R)
  eval_devices cfg s now [] = []
  eval_devices cfg s now ((device_id, drows) ∷ rest) =
      eval_device cfg s now drows ++ eval_devices cfg s now rest

  unfoldable pub found : Thresholds f → Schedule → ℕ → List (Metrics f) → List (Alert R)
  found cfg s now rows =
      eval_devices cfg s now (group_by (λ a b. a == b) (λ r. r.device_id) (read_rows s now rows) [])

  -- `_CWD_PATH_CONCENTRATION`
  abbrev pub cwd_path_concentration : R
  cwd_path_concentration = ratio 9 10

  abbrev pub path_share : ℕ → R → R
  path_share n total = if is_nonzero f total then min_of f (div (of_ℕ n) total) (of_ℕ 1) else of_ℕ 0

  abbrev pub path_text : R → String → ℕ → String
  path_text share path n =
      if not (lt share cwd_path_concentration)
      then detail_sep
        <> path
        <> " 한 경로에 "
        <> whole (mul share (of_ℕ 100))
        <> "% 집중"
        <> " (홈/업로드 경로 설정 확인)"
      else detail_sep <> "최다 경로 " <> path <> " " <> show_ℕ n <> "건"

  abbrev pub with_path : Option (String × ℕ) → Alert R → Alert R
  with_path none a = a
  with_path (some (path, n)) a = add_message (path_text (path_share n a.value) path n) a

  unfoldable pub annotate_cwd : Logs → Alert R → Alert R
  annotate_cwd logs a =
      if not (metric_eq a.metric cwd_fail_spike)
      then a
      else with_path (given_path (logs.cwd_top a.device_id a.bucket)) a

  unfoldable pub names_of : List LoginRow → String
  names_of [] = ""
  names_of (r ∷ []) = r.username <> " " <> show_ℕ r.n <> "건"
  names_of (r ∷ r' ∷ rest) = r.username <> " " <> show_ℕ r.n <> "건" <> ", " <> names_of (r' ∷ rest)

  abbrev pub more_text : ℕ → ℕ → String
  more_text shown accounts =
      if ltb shown accounts then " 외 " <> show_ℕ (accounts - shown) <> "개" else ""

  abbrev pub with_accounts : List LoginRow → Alert R → Alert R
  with_accounts [] a = a
  with_accounts (r ∷ rest) a =
      add_message
        (detail_sep <> "계정 " <> names_of (r ∷ rest) <> more_text (length (r ∷ rest)) r.accounts) a

  unfoldable pub annotate_login : Logs → Alert R → Alert R
  annotate_login logs a =
      if not (metric_eq a.metric login_fail_rate)
      then a
      else with_accounts (logs.login_top a.device_id a.bucket) a

  abbrev pub annotate : Logs → List (Alert R) → List (Alert R)
  annotate logs alerts = map (annotate_login logs) (map (annotate_cwd logs) alerts)

  -- the rest of `_detect`, where alerts were found
  abbrev pub record_found : ℕ → Streaks → Logs → List (Alert R) → Db R → ℕ × Db R
  record_found now streaks logs [] db = (0, db)
  record_found now streaks logs (a ∷ rest) db =
      record_alerts now streaks (sort_alerts (annotate logs (a ∷ rest))) db

  unfoldable pub detect :
      Thresholds f → Streaks → Schedule → Logs → ℕ → List (Metrics f) → Db R → ℕ × Db R
  detect cfg streaks s logs now rows db = record_found now streaks logs (found cfg s now rows) db

  -- what a cycle reads and changes: the rolled-up rows, the alerts, and what the disk guard keeps
  pub record Site : Type 0 where
    pub metrics : List (Metrics f)
    pub db : Db R
    pub guard : DiskGuard.Db

  -- `_guard_disk`: where `enforce` raises, its changes are rolled back
  abbrev pub guard_disk : Host → (configured : Bool) → (raises : Bool) → DiskGuard.Db → DiskGuard.Db
  guard_disk host configured raises d =
      if raises
      then d
      else (DiskGuard.enforce host.lower host.int_of host.usage configured host.month d).1

  -- The notifier is asked twice, for the alerts and for the recoveries.
  unfoldable pub run_once :
      Thresholds f
      → Streaks
      → Schedule
      → Logs
      → (rollup : List (Metrics f) → List (Metrics f)) → Host
      → (configured first second raises : Bool) → ℕ
      → Site
      → Site
  run_once cfg streaks s logs rollup host configured first second raises now site =
      let metrics = rollup site.metrics in
      let (n, detected) = detect cfg streaks s logs now metrics site.db in
      let told = notify configured first (resolve_episodes now s.width detected) in
      record {
        metrics = metrics;
        db = notify_recovery s.width configured second told;
        guard = guard_disk host configured raises site.guard;
      }
