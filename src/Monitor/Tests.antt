-- ===== src/Monitor/Tests.antt =====
-- was/app/service_monitor.py: the statistics and the judgement of a bucket on whole numbers.
use soltrace.Base.{map, ℕ, ◌≡◌, refl, List, [], ◌∷◌}
use soltrace.Monitor.Alert.{throughput, Alert}
use soltrace.Monitor.Whole.{whole_numbers}
use soltrace.Monitor.Stats.{median, sorted, insert_sorted, mad}
use soltrace.Monitor.Eval.{Metrics, Thresholds, eval_bucket}

abbrev hour : (big secs : ℕ) → Metrics whole_numbers
hour big secs = record {
  device_id = 7;
  bucket = 100;
  transfers = 10;
  transfer_fails = 0;
  bytes = big;
  transfer_secs = secs;
  xfers_big = 5;
  bytes_big = big;
  secs_big = secs;
  login_attempts = 40;
  login_fails = 80;
  cwd_fails = 90;
}

abbrev settings : Thresholds whole_numbers
settings = record {
  mad_k = 3;
  fail_rate_floor = 0;
  login_fail_rate_floor = 1;
  throughput_drop = 0;
  throughput_slow_pct = 5;
  cwd_fail_floor = 20;
  min_samples = 5;
  min_login_samples = 30;
  min_cwd_samples = 30;
  min_large_samples = 3;
}

abbrev usual_hours : List (Metrics whole_numbers)
usual_hours = hour 1000 10 ∷ hour 1200 10 ∷ hour 1100 10 ∷ []

slow_hour :
    map (λ (a : Alert ℕ). a.metric) (eval_bucket whole_numbers (hour 400 10) usual_hours settings)
    ≡ throughput ∷ []
unfolding eval_bucket soltrace.Monitor.Eval.eval_fail_rate soltrace.Monitor.Eval.high_threshold
    median sorted insert_sorted mad soltrace.Monitor.Eval.eval_throughput
    soltrace.Monitor.Eval.low_threshold soltrace.Monitor.Eval.mk soltrace.Monitor.Eval.is_mixed
    soltrace.Monitor.Eval.eval_login soltrace.Monitor.Eval.eval_cwd
slow_hour = refl
