-- ===== src/Monitor/Episodes/Streak.antt =====
-- was/app/service_monitor.py: how often one disturbance is announced. The messages about a device
-- and metric depend only on how many buckets in a row were bad, and how bad.
use soltrace.Base.{
  count-append, All-append, ℕ, ◌+◌, ◌≤◌, ◌<◌, ◌≡◌, refl, Bool, true, false, not, Option, none, some,
  List, [], ◌∷◌, ◌++◌, ◌==◌, All, length, count, arith, inl, inr, Bool-cases, if◌then◌else◌,
}
use soltrace.Monitor.Alert.{
  metric_eq_refl, Metric, Severity, warning, critical, Alert, AlertRow, Episode,
}
use soltrace.Monitor.Episodes.{
  has_alert, min_streak, mark_id, record_alerts, record_alert, Streaks, should_notify, find_episode,
  prev_count, prev_severity, worst, extend_episode, new_episode, upsert_episode, track_episode, Db,
}

-- The severity after one more bad bucket.
abbrev worst_of : Severity → Option Severity → Severity
worst_of new none = new
worst_of new (some old) = worst new old

-- How many of the bad buckets are announced, after `count` of them with the severity `prev`.
notices : ℕ → ℕ → Option Severity → List Severity → ℕ
notices streak count prev [] = 0
notices streak count prev (s ∷ ss) =
    (if should_notify count prev s streak then 1 else 0)
    + notices streak (count + 1) (some (worst_of s prev)) ss

notices_after_critical :
    (streak count : ℕ) (ss : List Severity)
    → streak ≤ count
    → notices streak count (some critical) ss ≡ 0
unfolding notices should_notify worst
notices_after_critical streak count [] h = refl
notices_after_critical streak count (warning ∷ ss) h =
    ground (arith, notices_after_critical streak (count + 1) ss)
notices_after_critical streak count (critical ∷ ss) h =
    ground (arith, notices_after_critical streak (count + 1) ss)

notices_after_streak :
    (streak count : ℕ) (prev : Option Severity) (ss : List Severity)
    → streak ≤ count
    → notices streak count prev ss ≤ 1
unfolding notices should_notify worst
notices_after_streak streak count prev [] h = omega arith
notices_after_streak streak count prev (critical ∷ ss) h =
    ground (arith, notices_after_critical streak (count + 1) ss)
notices_after_streak streak count none (warning ∷ ss) h =
    ground (arith, notices_after_streak streak (count + 1) (some warning) ss)
notices_after_streak streak count (some p) (warning ∷ ss) h =
    ground (arith, notices_after_streak streak (count + 1) (some p) ss)

notices_bounds :
    (streak count : ℕ) (prev : Option Severity) (ss : List Severity)
    → count < streak
    → (notices streak count prev ss ≤ 2)
      × (streak ≤ count + length ss → 1 ≤ notices streak count prev ss)
      × (count + length ss < streak → notices streak count prev ss ≡ 0)
unfolding notices should_notify
notices_bounds streak count prev [] h = (omega arith, omega arith, omega arith)
notices_bounds streak count prev (s ∷ ss) h =
    let next = some (worst_of s prev) in
    elim (Bool-cases (count + 1 == streak)) [
      | inl reached ↦ ground (arith, notices_after_streak streak (count + 1) next ss)
      | inr more ↦ ground (arith, notices_bounds streak (count + 1) next ss)
    ]

-- What the row of a key is after the upsert, as far as `_track_episode` reads it.
find-upsert_self :
    (now d : ℕ) (m : Metric) (bucket : ℕ) (s : Severity) (eps : List Episode)
    → let cur = find_episode d m eps in
      let cur' = find_episode d m (upsert_episode now d m bucket s eps) in
      (prev_count cur' ≡ prev_count cur + 1)
      × (prev_severity cur' ≡ some (worst_of s (prev_severity cur)))
unfolding find_episode upsert_episode extend_episode new_episode
find-upsert_self now d m bucket s [] = ground (arith, metric_eq_refl m)
find-upsert_self now d m bucket s (ep ∷ eps) = ground (arith, find-upsert_self now d m bucket s eps)

module _ {V : Type 0} where
  -- the rows that wait to be sent
  abbrev pub is_queued : AlertRow V → Bool
  is_queued row = not row.notified

  abbrev pub IsAbout : ℕ → Metric → Alert V → Type 0
  IsAbout d m a = (a.device_id ≡ d) × (a.metric ≡ m)

  -- The ids of the table are smaller than the next one.
  abbrev pub IsBelow : ℕ → List (AlertRow V) → Type 0
  IsBelow n rows = All (λ (row : AlertRow V). row.id < n) rows

  IsBelow-suc : (n : ℕ) (rows : List (AlertRow V)) → IsBelow n rows → IsBelow (n + 1) rows
  IsBelow-suc n [] h = tt
  IsBelow-suc n (row ∷ rows) h = (omega arith, IsBelow-suc n rows h.1)

  IsBelow-append :
      (n : ℕ) (rows : List (AlertRow V)) (row : AlertRow V)
      → IsBelow (n + 1) rows
      → row.id ≡ n
      → IsBelow (n + 1) (rows ++ row ∷ [])
  IsBelow-append n rows row h e =
      All-append (λ (r : AlertRow V). r.id < n + 1) rows (row ∷ []) h (omega arith)

  mark_id-new :
      (n : ℕ) (rows : List (AlertRow V)) (a : Alert V)
      → IsBelow n rows
      → mark_id n (rows ++ record { id = n; alert = a; notified = false } ∷ [])
        ≡ rows ++ record { id = n; alert = a; notified = true } ∷ []
  unfolding mark_id
  mark_id-new n [] a h = ground arith
  mark_id-new n (row ∷ rows) a h = ground (arith, mark_id-new n rows a h.1)

  -- The severities of those alerts that are new in the table, in their order.
  severities : ℕ → Streaks → List (Alert V) → Db V → List Severity
  severities now cfg [] db = []
  severities now cfg (a ∷ rest) db =
      let (new, db') = record_alert now cfg a db in
      if new then a.severity ∷ severities now cfg rest db' else severities now cfg rest db'

  record_alert_known :
      (now : ℕ) (cfg : Streaks) (a : Alert V) (db : Db V)
      → has_alert a db.alerts ≡ true
      → record_alert now cfg a db ≡ (false, db)
  unfolding record_alert
  record_alert_known now cfg a db h = rw h

  record_alert_new :
      (now : ℕ) (cfg : Streaks) (a : Alert V) (db : Db V)
      → has_alert a db.alerts ≡ false
      → IsBelow db.next_id db.alerts
      → let (new, db') = record_alert now cfg a db in
        let cur = find_episode a.device_id a.metric db.episodes in
        let send =
          should_notify (prev_count cur) (prev_severity cur) a.severity (min_streak cfg a.metric) in
        (new ≡ true)
        × (count is_queued db'.alerts ≡ count is_queued db.alerts + (if send then 1 else 0))
        × (db'.episodes ≡ upsert_episode now a.device_id a.metric a.bucket a.severity db.episodes)
        × IsBelow db'.next_id db'.alerts
  unfolding record_alert track_episode count
  record_alert_new now cfg a db h below =
      let row : AlertRow V = record { id = db.next_id; alert = a; notified = false } in
      let done : AlertRow V = record row { notified = true } in
      let old = IsBelow-suc db.next_id db.alerts below in
      let queued = IsBelow-append db.next_id db.alerts row old refl in
      let quiet = IsBelow-append db.next_id db.alerts done old refl in
      let cur = find_episode a.device_id a.metric db.episodes in
      let sum = count-append is_queued db.alerts (row ∷ []) in
      let sum' = count-append is_queued db.alerts (done ∷ []) in
      rw (h, mark_id-new db.next_id db.alerts a below)
        (elim (Bool-cases (
          should_notify (prev_count cur) (prev_severity cur) a.severity
            (min_streak cfg a.metric))) [
              | inl send ↦ rw (send, track_episode) (refl, sum, refl, queued)
              | inr silent ↦ rw (silent, track_episode) (refl, sum', refl, quiet)
            ])

  notices-next :
      (now streak d : ℕ) (m : Metric) (a : Alert V) (eps eps' : List Episode) (ss : List Severity)
      → IsAbout d m a
      → eps' ≡ upsert_episode now a.device_id a.metric a.bucket a.severity eps
      → notices streak
          (prev_count (find_episode d m eps'))
          (prev_severity (find_episode d m eps'))
          ss
        ≡ notices streak
            (prev_count (find_episode d m eps) + 1)
            (some (worst_of a.severity (prev_severity (find_episode d m eps))))
            ss
  notices-next now streak d m a eps eps' ss h e =
      let found = find-upsert_self now d m a.bucket a.severity eps in
      rw (e, h.0, h.1) (cc (found.0, found.1))

  send-about :
      (cfg : Streaks) (d : ℕ) (m : Metric) (a : Alert V) (eps : List Episode)
      → IsAbout d m a
      → let cur = find_episode a.device_id a.metric eps in
        let cur' = find_episode d m eps in
        ◌≡◌ {A = ℕ}
          (if should_notify
              (prev_count cur)
              (prev_severity cur)
              a.severity
              (min_streak cfg a.metric)
            then 1
            else 0)
          (if should_notify (prev_count cur') (prev_severity cur') a.severity (min_streak cfg m)
            then 1
            else 0)
  send-about cfg d m a eps h = rw (h.0, h.1)

  record_alerts-notices :
      (now : ℕ) (cfg : Streaks) (d : ℕ) (m : Metric) (alerts : List (Alert V)) (db : Db V)
      → All (IsAbout d m) alerts
      → IsBelow db.next_id db.alerts
      → let (n, db') = record_alerts now cfg alerts db in
        let cur = find_episode d m db.episodes in
        let ss = severities now cfg alerts db in
        (n ≡ length ss)
        × (count is_queued db'.alerts
            ≡ count is_queued db.alerts
              + notices (min_streak cfg m) (prev_count cur) (prev_severity cur) ss)
  unfolding record_alerts severities notices
  record_alerts-notices now cfg d m [] db h below = (refl, omega arith)
  record_alerts-notices now cfg d m (a ∷ rest) db h below =
      elim (Bool-cases (has_alert a db.alerts)) [
        | inl old ↦
            let ih = record_alerts-notices now cfg d m rest db h.1 below in
            rw (record_alert_known now cfg a db old) (omega (arith, ih.0), ih.1)
        | inr fresh ↦
            let made = record_alert_new now cfg a db fresh below in
            let next = (record_alert now cfg a db).1 in
            let ih = record_alerts-notices now cfg d m rest next h.1 made.3 in
            let ss = severities now cfg rest next in
            rw (made.0) (
              omega (arith, ih.0),
              omega (
                arith,
                ih.1,
                made.1,
                send-about cfg d m a db.episodes h.0,
                notices-next now (min_streak cfg m) d m a db.episodes next.episodes ss h.0 made.2,
              ),
            )
      ]

  -- While a disturbance of one metric of one device goes on, and has fewer bad buckets than
  -- `min_streak` at the start, recording alerts about it queues at most two messages: none while
  -- its bad buckets, those at the start and the new ones together, are fewer than `min_streak`,
  -- and at least one when they are not; the rows of the table have ids below the next one.
  pub record_alerts_announce :
      (now : ℕ) (cfg : Streaks) (d : ℕ) (m : Metric) (alerts : List (Alert V)) (db : Db V)
      → All (IsAbout d m) alerts
      → IsBelow db.next_id db.alerts
      → prev_count (find_episode d m db.episodes) < min_streak cfg m
      → let (n, db') = record_alerts now cfg alerts db in
        let bad = prev_count (find_episode d m db.episodes) + n in
        let before = count is_queued db.alerts in
        let after = count is_queued db'.alerts in
        (after ≤ before + 2)
        × (min_streak cfg m ≤ bad → before + 1 ≤ after)
        × (bad < min_streak cfg m → after ≡ before)
  record_alerts_announce now cfg d m alerts db h below young =
      let (same, sum) = record_alerts-notices now cfg d m alerts db h below in
      let cur = find_episode d m db.episodes in
      let b =
        notices_bounds (min_streak cfg m) (prev_count cur) (prev_severity cur)
          (severities now cfg alerts db) young in
      (omega arith, omega arith, omega arith)
