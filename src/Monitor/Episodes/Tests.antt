-- ===== src/Monitor/Episodes/Tests.antt =====
-- Tests of the episodes, and the theorems about them at concrete inputs.
use soltrace.Base.{ℕ, ◌+◌, ◌≡◌, ◌≤◌, ◌<◌, refl, true, some, List, [], ◌∷◌, arith, count}
use soltrace.Monitor.Alert.{fail_rate, Severity, warning, critical, Alert}
use soltrace.Monitor.Episodes.{
  notify_recovery, send_recoveries, recoverable, sort_resolved, resolve_episodes, notify, send_rows,
  unsent, mark_notified, concerns, insert_resolved, mark_ids, mark_recovery_notified, is_listed,
  mark_id, worst, new_episode, extend_episode, upsert_episode, should_notify, track_episode,
  has_alert, Db, Streaks, Recovered, record_alert, record_alerts, find_episode, prev_count,
  min_streak,
}
use soltrace.Monitor.Episodes.Streak.{is_queued, record_alerts_announce}
use soltrace.Monitor.Episodes.Recovery.{
  Event, records, resolves, notifies, recovers, run, handle, IsHonest, run-IsHonest,
}

abbrev empty : Db ℕ
empty = record { alerts = []; next_id = 1; episodes = []; sent = []; recovered = [] }

abbrev defaults : Streaks
defaults = record { min_streak_buckets = 2; min_streak_throughput = 3 }

abbrev bad_bucket : ℕ → Severity → Alert ℕ
bad_bucket bucket severity = record {
  device_id = 7;
  bucket = bucket;
  metric = fail_rate;
  severity = severity;
  value = 40;
  baseline = some 1;
  threshold = some 10;
  sample_count = 100;
  message = "";
}

-- Three bad buckets of 300 seconds; the third is critical.
abbrev getting_worse : List (Alert ℕ)
getting_worse = bad_bucket 300 warning ∷ bad_bucket 600 warning ∷ bad_bucket 900 critical ∷ []

two_messages :
    let (n, db') = record_alerts 1200 defaults getting_worse empty in
    (n ≡ 3) × (count is_queued db'.alerts ≡ 2)
unfolding record_alerts record_alert has_alert track_episode should_notify find_episode
    upsert_episode extend_episode new_episode worst min_streak mark_id count
two_messages = (refl, refl)

record_alerts_announce_example :
    let (n, db') = record_alerts 1200 defaults getting_worse empty in
    let bad = prev_count (find_episode 7 fail_rate empty.episodes) + n in
    let before = count is_queued empty.alerts in
    let after = count is_queued db'.alerts in
    (after ≤ before + 2)
    × (min_streak defaults fail_rate ≤ bad → before + 1 ≤ after)
    × (bad < min_streak defaults fail_rate → after ≡ before)
unfolding find_episode min_streak
record_alerts_announce_example =
    record_alerts_announce 1200 defaults 7 fail_rate getting_worse empty
      ((refl, refl), ((refl, refl), ((refl, refl), tt))) tt (omega arith)

-- The second message is delivered, the disturbance ends, and the recovery is told.
abbrev day : List (Event ℕ)
day =
    records 1200 defaults getting_worse
    ∷ notifies true true
    ∷ resolves 2700 300
    ∷ recovers 300 true true
    ∷ []

abbrev told : List Recovered
told =
    record {
      device_id = 7;
      metric = fail_rate;
      severity = critical;
      duration_min = 15;
      alert_count = 3;
    }
    ∷ []

day_recovers : (run day empty).recovered ≡ told
unfolding run handle record_alerts record_alert has_alert track_episode should_notify find_episode
    upsert_episode extend_episode new_episode worst min_streak mark_id notify_recovery
    send_recoveries recoverable sort_resolved resolve_episodes notify send_rows unsent mark_notified
    concerns insert_resolved mark_ids mark_recovery_notified is_listed
day_recovers = refl

empty-IsHonest : IsHonest empty
empty-IsHonest = record { episodes = tt; recovered = tt }

run-IsHonest_example : IsHonest (run day empty)
run-IsHonest_example = run-IsHonest day empty empty-IsHonest
