-- ===== src/Monitor/Detect/Tests.antt =====
-- was/app/service_monitor.py: two devices, of which one has just had a failing bucket.
use soltrace.Base.{
  false, true, ℕ, ◌+◌, ◌*◌, ◌≡◌, refl, All, IsIn, List, [], ◌∷◌, Option, none, some, String,
}
use soltrace.Monitor.Whole.{whole_numbers}
use soltrace.Monitor.Eval.{Metrics, Thresholds, eval_bucket}
use soltrace.Monitor.Episodes.{Db, Streaks, has_alert}
use soltrace.Monitor.Episodes.Keys.{IsKnown}
use soltrace.Monitor.Detect.{Schedule, Logs, Host, Site, detect, found, run_once}
use soltrace.Monitor.Detect.Cycle.{run_once-Judged}
use soltrace.Monitor.Detect.Rows.{AllRows}
use soltrace.Monitor.Detect.Found.{Judged}
use soltrace.Monitor.Detect.Recorded.{WasThereOrFound, detect-WasThereOrFound, detect_again}

abbrev bucket_of : (device bucket fails : ℕ) → Metrics whole_numbers
bucket_of device bucket fails = record {
  device_id = device;
  bucket = bucket;
  transfers = 10;
  transfer_fails = 0;
  bytes = 0;
  transfer_secs = 0;
  xfers_big = 0;
  bytes_big = 0;
  secs_big = 0;
  login_attempts = 0;
  login_fails = 0;
  cwd_fails = fails;
}

abbrev thresholds : Thresholds whole_numbers
thresholds = record {
  mad_k = 3;
  fail_rate_floor = 0;
  login_fail_rate_floor = 1;
  throughput_drop = 0;
  throughput_slow_pct = 5;
  cwd_fail_floor = 20;
  min_samples = 5;
  min_login_samples = 30;
  min_cwd_samples = 30;
  min_large_samples = 3;
}

abbrev streaks : Streaks
streaks = record { min_streak_buckets = 1; min_streak_throughput = 2 }

abbrev schedule : Schedule
schedule = record { baseline_days = 14; interval = 300; width = 600 }

abbrev logs : Logs
logs = record {
  cwd_top = λ device bucket. some (some "/upload", 80);
  login_top = λ device bucket. [];
}

abbrev now : ℕ
now = 2000000

abbrev rows : List (Metrics whole_numbers)
rows = bucket_of 2 1999000 90 ∷ bucket_of 1 1999000 10 ∷ bucket_of 2 1900000 30 ∷ []

abbrev empty_db : Db ℕ
empty_db = record { alerts = []; next_id = 1; episodes = []; sent = []; recovered = [] }

abbrev after : Db ℕ
after = (detect whole_numbers thresholds streaks schedule logs now rows empty_db).1

-- the bucket of device 2 is told of
one_found : (detect whole_numbers thresholds streaks schedule logs now rows empty_db).0 ≡ 1
unfolding detect found soltrace.Monitor.Detect.read_rows soltrace.Monitor.Detect.order_rows
    soltrace.Monitor.Detect.insert_row soltrace.Monitor.Detect.eval_devices
    soltrace.Monitor.Detect.eval_each soltrace.Base.Groups.group_by soltrace.Base.Groups.add_item
    eval_bucket soltrace.Monitor.Eval.eval_fail_rate soltrace.Monitor.Eval.high_threshold
    soltrace.Monitor.Stats.median soltrace.Monitor.Stats.sorted soltrace.Monitor.Stats.insert_sorted
    soltrace.Monitor.Stats.mad soltrace.Monitor.Eval.eval_throughput
    soltrace.Monitor.Eval.low_threshold soltrace.Monitor.Eval.mk soltrace.Monitor.Eval.is_mixed
    soltrace.Monitor.Eval.eval_login soltrace.Monitor.Eval.eval_cwd
    soltrace.Monitor.Detect.sort_alerts soltrace.Monitor.Detect.insert_alert
    soltrace.Monitor.Detect.annotate_cwd soltrace.Monitor.Detect.annotate_login
    soltrace.Monitor.Episodes.record_alerts soltrace.Monitor.Episodes.record_alert has_alert
    soltrace.Monitor.Episodes.track_episode soltrace.Monitor.Episodes.should_notify
    soltrace.Monitor.Episodes.min_streak soltrace.Monitor.Episodes.find_episode
one_found = refl

detect-WasThereOrFound_example :
    AllRows
      (WasThereOrFound whole_numbers thresholds streaks schedule logs now rows empty_db)
      after.alerts
detect-WasThereOrFound_example =
    detect-WasThereOrFound whole_numbers thresholds streaks schedule logs now rows empty_db

abbrev host : Host
host = record { lower = λ t. t; int_of = λ t. none; usage = λ t. none; month = 24000 }

abbrev site : Site whole_numbers
site = record {
  metrics = rows;
  db = empty_db;
  guard = record { enabled = none; path = none; threshold = none; partitions = []; messages = [] };
}

abbrev last : Site whole_numbers
last =
    run_once whole_numbers thresholds streaks schedule logs (λ m. m) host true true false true now
      site

run_once-Judged_example :
    All (Judged whole_numbers thresholds schedule now (IsKnown last.db.alerts) rows) rows
run_once-Judged_example =
    run_once-Judged whole_numbers thresholds streaks schedule logs (λ m. m) host true true false
      true now site

detect_again_example :
    detect whole_numbers thresholds streaks schedule logs now rows after ≡ (0, after)
detect_again_example = detect_again whole_numbers thresholds streaks schedule logs now rows empty_db
