-- ===== src/Monitor/Episodes.antt =====
-- was/app/service_monitor.py: `_record_alert`, `_should_notify`, `_track_episode`,
-- `_resolve_episodes`, `_notify`, `_notify_recovery`. `now` is SQL's NOW(), or `_now()`, in the
-- call. The tables are lists in the order of insertion, which is that of `created_at`; a join with
-- `devices` always finds its row, by the foreign key. What `notifier` did is an input.
pub mod Streak
pub mod Keys
pub mod Recovery
mod Tests
use soltrace.Base.{
  ℕ, zero, suc, ◌+◌, ◌*◌, ◌-◌, ◌/◌, max, ◌≤◌, ◌<◌, ◌≡◌, Bool, true, false, not, ◌&&◌, ◌||◌, Option,
  none, some, List, [], ◌∷◌, ◌++◌, map, ltb, leb, ◌==◌, select, take, if◌then◌else◌,
}
use soltrace.Monitor.Alert.{
  Metric, fail_rate, throughput, login_fail_rate, cwd_fail_spike, Severity, warning, critical,
  metric_eq, is_critical, Alert, AlertRow, Episode, is_of,
}

-- the part of the settings that is read here
pub record Streaks : Type 0 where
  pub min_streak_buckets : ℕ
  pub min_streak_throughput : ℕ

-- `_RECOVERY_QUIET_BUCKETS`, and the LIMIT of both queries
abbrev pub recovery_quiet_buckets : ℕ
recovery_quiet_buckets = 3

abbrev pub send_limit : ℕ
send_limit = 100

-- a recovery message: the keys that `_notify_recovery` selects, with what it tells of them
pub record Recovered : Type 0 where
  pub device_id : ℕ
  pub metric : Metric
  pub severity : Severity
  pub duration_min : ℕ
  pub alert_count : ℕ

-- The two tables; `sent` and `recovered` are what `notifier.dispatch` has delivered.
pub record Db (V : Type 0) : Type 0 where
  pub alerts : List (AlertRow V)
  pub next_id : ℕ
  pub episodes : List Episode
  pub sent : List (Alert V)
  pub recovered : List Recovered

unfoldable pub min_streak : Streaks → Metric → ℕ
min_streak cfg throughput = cfg.min_streak_throughput
min_streak cfg fail_rate = cfg.min_streak_buckets
min_streak cfg login_fail_rate = cfg.min_streak_buckets
min_streak cfg cwd_fail_spike = cfg.min_streak_buckets

-- `prev_severity != "critical"`, where None is not critical
abbrev pub was_critical : Option Severity → Bool
was_critical none = false
was_critical (some s) = is_critical s

unfoldable pub should_notify : ℕ → Option Severity → Severity → ℕ → Bool
should_notify prev_count prev_severity severity streak =
    let was = leb streak prev_count in
    let escalated = was && is_critical severity && not (was_critical prev_severity) in
    escalated || prev_count + 1 == streak

-- the row that `SELECT … WHERE device_id = … AND metric = …` finds
unfoldable pub find_episode : ℕ → Metric → List Episode → Option Episode
find_episode device metric [] = none
find_episode device metric (ep ∷ eps) =
    if is_of device metric ep then some ep else find_episode device metric eps

-- an episode that is going on: `cur is not None and cur.resolved_at is None`
abbrev pub is_ongoing : Option Episode → Bool
is_ongoing none = false
is_ongoing (some ep) = elim ep.resolved_at [ none ↦ true | some t ↦ false ]

abbrev pub prev_count : Option Episode → ℕ
prev_count none = 0
prev_count (some ep) = elim ep.resolved_at [ none ↦ ep.alert_count | some t ↦ 0 ]

abbrev pub prev_severity : Option Episode → Option Severity
prev_severity none = none
prev_severity (some ep) = elim ep.resolved_at [ none ↦ some ep.severity | some t ↦ none ]

-- the DO UPDATE of `_track_episode`, on a row that goes on and on one that was resolved
unfoldable pub worst : Severity → Severity → Severity
worst new old = if is_critical new then critical else old

unfoldable pub extend_episode : ℕ → ℕ → Severity → Episode → Episode
extend_episode now bucket severity ep = elim ep.resolved_at [
  | none ↦ record ep {
    alert_count = ep.alert_count + 1;
    last_bucket = max ep.last_bucket bucket;
    severity = worst severity ep.severity;
    resolved_at = none;
    recovery_notified = false;
  }
  | some t ↦ record ep {
    started_at = now;
    first_bucket = bucket;
    alert_count = 1;
    notified = false;
    last_bucket = max ep.last_bucket bucket;
    severity = severity;
    resolved_at = none;
    recovery_notified = false;
  }
]

unfoldable pub new_episode : ℕ → ℕ → Metric → ℕ → Severity → Episode
new_episode now device metric bucket severity = record {
  device_id = device;
  metric = metric;
  started_at = now;
  first_bucket = bucket;
  last_bucket = bucket;
  severity = severity;
  alert_count = 1;
  notified = false;
  resolved_at = none;
  recovery_notified = false;
}

-- INSERT … ON CONFLICT (device_id, metric) DO UPDATE
unfoldable pub upsert_episode : ℕ → ℕ → Metric → ℕ → Severity → List Episode → List Episode
upsert_episode now device metric bucket severity [] =
    new_episode now device metric bucket severity ∷ []
upsert_episode now device metric bucket severity (ep ∷ eps) =
    if is_of device metric ep
    then extend_episode now bucket severity ep ∷ eps
    else ep ∷ upsert_episode now device metric bucket severity eps

-- `_resolve_episodes`, for buckets of `width` seconds: `last_bucket < now - width * 3`
abbrev pub resolve : ℕ → ℕ → Episode → Episode
resolve now width ep =
    if not (is_ongoing (some ep)) || not (ltb (ep.last_bucket + width * recovery_quiet_buckets) now)
    then ep
    else record ep { resolved_at = some now }

-- the WHERE of `_notify_recovery`
abbrev pub is_recoverable : Episode → Bool
is_recoverable ep = not (is_ongoing (some ep)) && not ep.recovery_notified && ep.notified

-- ORDER BY resolved_at
abbrev pub resolved_time : Episode → ℕ
resolved_time ep = elim ep.resolved_at [ none ↦ 0 | some t ↦ t ]

unfoldable pub insert_resolved : Episode → List Episode → List Episode
insert_resolved ep [] = ep ∷ []
insert_resolved ep (x ∷ xs) =
    if leb (resolved_time ep) (resolved_time x) then ep ∷ x ∷ xs else x ∷ insert_resolved ep xs

unfoldable pub sort_resolved : List Episode → List Episode
sort_resolved [] = []
sort_resolved (ep ∷ eps) = insert_resolved ep (sort_resolved eps)

-- `_mark_recovery_notified`
unfoldable pub is_listed : List Episode → Episode → Bool
is_listed [] ep = false
is_listed (x ∷ xs) ep = is_of x.device_id x.metric ep || is_listed xs ep

abbrev pub mark_recovered : List Episode → Episode → Episode
mark_recovered listed ep =
    if is_listed listed ep then record ep { recovery_notified = true } else ep

-- the item that is told of an episode; the two times are buckets, so the last is not before the first
abbrev pub recovery_item : ℕ → Episode → Recovered
recovery_item width ep = record {
  device_id = ep.device_id;
  metric = ep.metric;
  severity = ep.severity;
  duration_min = (ep.last_bucket + width - ep.first_bucket) / 60;
  alert_count = ep.alert_count;
}

module _ {V : Type 0} where
  unfoldable pub track_episode : ℕ → Alert V → ℕ → Db V → Bool × Db V
  track_episode now a streak db =
      let cur = find_episode a.device_id a.metric db.episodes in
      (
        should_notify (prev_count cur) (prev_severity cur) a.severity streak,
        record db {
          episodes = upsert_episode now a.device_id a.metric a.bucket a.severity db.episodes;
        },
      )

  -- the UNIQUE (device_id, bucket, metric) of `service_alerts`
  abbrev pub is_same_alert : Alert V → AlertRow V → Bool
  is_same_alert a row =
      row.alert.device_id == a.device_id
      && row.alert.bucket == a.bucket
      && metric_eq row.alert.metric a.metric

  unfoldable pub has_alert : Alert V → List (AlertRow V) → Bool
  has_alert a [] = false
  has_alert a (row ∷ rows) = is_same_alert a row || has_alert a rows

  -- `UPDATE service_alerts SET notified = TRUE WHERE id = …`, for one id and for a list of them
  unfoldable pub mark_id : ℕ → List (AlertRow V) → List (AlertRow V)
  mark_id n [] = []
  mark_id n (row ∷ rows) =
      (if row.id == n then record row { notified = true } else row) ∷ mark_id n rows

  unfoldable pub mark_ids : List ℕ → List (AlertRow V) → List (AlertRow V)
  mark_ids [] rows = rows
  mark_ids (n ∷ ns) rows = mark_ids ns (mark_id n rows)

  unfoldable pub record_alert : ℕ → Streaks → Alert V → Db V → Bool × Db V
  record_alert now cfg a db =
      if has_alert a db.alerts
      then (false, db)
      else let row : AlertRow V = record { id = db.next_id; alert = a; notified = false } in
        let added : Db V = record db { alerts = db.alerts ++ row ∷ []; next_id = db.next_id + 1 } in
        let (send, tracked) = track_episode now a (min_streak cfg a.metric) added in
        if send
        then (true, tracked)
        else (true, record tracked { alerts = mark_id row.id tracked.alerts })

  -- The loop at the end of `_detect`, over the alerts in their order.
  unfoldable pub record_alerts : ℕ → Streaks → List (Alert V) → Db V → ℕ × Db V
  record_alerts now cfg [] db = (0, db)
  record_alerts now cfg (a ∷ rest) db =
      let (new, db') = record_alert now cfg a db in
      let (n, db'') = record_alerts now cfg rest db' in ((if new then 1 else 0) + n, db'')

  unfoldable pub resolve_episodes : ℕ → ℕ → Db V → Db V
  resolve_episodes now width db = record db { episodes = map (resolve now width) db.episodes }

  -- The rows whose alert concerns an episode that goes on, and their mark.
  unfoldable pub concerns : List (AlertRow V) → Episode → Bool
  concerns [] ep = false
  concerns (row ∷ rows) ep = is_of row.alert.device_id row.alert.metric ep || concerns rows ep

  abbrev pub mark_episode : List (AlertRow V) → Episode → Episode
  mark_episode rows ep =
      if is_ongoing (some ep) && concerns rows ep then record ep { notified = true } else ep

  -- `_mark_notified` on the rows of the ids
  unfoldable pub mark_notified : List (AlertRow V) → Bool → Db V → Db V
  mark_notified rows with_episodes db =
      let marked : Db V = record db {
        alerts = mark_ids (map (λ (row : AlertRow V). row.id) rows) db.alerts;
      } in
      if with_episodes
      then record marked { episodes = map (mark_episode rows) db.episodes }
      else marked

  unfoldable pub unsent : Db V → List (AlertRow V)
  unsent db = take send_limit (select (λ (row : AlertRow V). not row.notified) db.alerts)

  -- `_notify` on the rows that it has selected; `configured` and `delivered` are what
  -- `channels_configured` and `dispatch` of the notifier answer
  unfoldable pub send_rows : Bool → Bool → List (AlertRow V) → Db V → Db V
  send_rows configured delivered [] db = db
  send_rows configured delivered (row ∷ rows) db =
      if not configured
      then mark_notified (row ∷ rows) false db
      else if delivered
      then record (mark_notified (row ∷ rows) true db) {
        sent = db.sent ++ map (λ (r : AlertRow V). r.alert) (row ∷ rows);
      }
      else db

  unfoldable pub notify : Bool → Bool → Db V → Db V
  notify configured delivered db = send_rows configured delivered (unsent db) db

  unfoldable pub recoverable : Db V → List Episode
  recoverable db = take send_limit (sort_resolved (select is_recoverable db.episodes))

  unfoldable pub mark_recovery_notified : List Episode → Db V → Db V
  mark_recovery_notified listed db = record db {
    episodes = map (mark_recovered listed) db.episodes;
  }

  -- `_notify_recovery` on the episodes that it has selected
  unfoldable pub send_recoveries : ℕ → Bool → Bool → List Episode → Db V → Db V
  send_recoveries width configured delivered [] db = db
  send_recoveries width configured delivered (ep ∷ eps) db =
      if not configured
      then mark_recovery_notified (ep ∷ eps) db
      else if delivered
      then record (mark_recovery_notified (ep ∷ eps) db) {
        recovered = db.recovered ++ map (recovery_item width) (ep ∷ eps);
      }
      else db

  unfoldable pub notify_recovery : ℕ → Bool → Bool → Db V → Db V
  notify_recovery width configured delivered db =
      send_recoveries width configured delivered (recoverable db) db
