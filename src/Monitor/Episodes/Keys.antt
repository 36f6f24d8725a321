-- ===== src/Monitor/Episodes/Keys.antt =====
-- was/app/service_monitor.py: the tables under their unique keys. Judging a bucket again changes
-- nothing, which lets every worker run the same cycle.
use soltrace.Base.{
  ℕ, ◌+◌, ◌≡◌, refl, Bool, true, false, ◌||◌, List, [], ◌∷◌, ◌++◌, All, arith, inl, inr, Bool-cases,
  if◌then◌else◌,
}
use soltrace.Monitor.Alert.{metric_eq_refl, Alert, AlertRow}
use soltrace.Monitor.Episodes.{
  min_streak, Db, Streaks, is_same_alert, has_alert, mark_id, track_episode, record_alert,
  record_alerts,
}

module _ {V : Type 0} where
  is_same_alert_refl :
      (a : Alert V) (n : ℕ) (b : Bool)
      → is_same_alert a (record { id = n; alert = a; notified = b }) ≡ true
  is_same_alert_refl a n b = ground (arith, metric_eq_refl a.metric)

  has_alert-append :
      (a : Alert V) (rows more : List (AlertRow V))
      → has_alert a (rows ++ more) ≡ (has_alert a rows || has_alert a more)
  unfolding has_alert
  has_alert-append a [] more = refl
  has_alert-append a (row ∷ rows) more = ground (arith, has_alert-append a rows more)

  pub has_alert-mark_id :
      (a : Alert V) (n : ℕ) (rows : List (AlertRow V))
      → has_alert a (mark_id n rows) ≡ has_alert a rows
  unfolding has_alert mark_id
  has_alert-mark_id a n [] = refl
  has_alert-mark_id a n (row ∷ rows) = ground (arith, has_alert-mark_id a n rows)

  -- What is in the table after an alert: all that was, and the alert.
  has_alert-record :
      (now : ℕ) (cfg : Streaks) (a b : Alert V) (db : Db V)
      → has_alert b (record_alert now cfg a db).1.alerts ≡ (
          if has_alert a db.alerts
          then has_alert b db.alerts
          else (has_alert b db.alerts
              || is_same_alert b (record { id = db.next_id; alert = a; notified = false })))
  unfolding record_alert has_alert
  has_alert-record now cfg a b db =
      let row : AlertRow V = record { id = db.next_id; alert = a; notified = false } in
      let added : Db V = record db { alerts = db.alerts ++ row ∷ []; next_id = db.next_id + 1 } in
      let appended = has_alert-append b db.alerts (row ∷ []) in
      let marked = has_alert-mark_id b db.next_id (db.alerts ++ row ∷ []) in
      elim (Bool-cases (has_alert a db.alerts)) [
        | inl known ↦ rw known
        | inr new ↦
            rw new (elim (Bool-cases (track_episode now a (min_streak cfg a.metric) added).0) [
              | inl send ↦ rw send (unfold track_episode in ground (arith, appended))
              | inr silent ↦ rw silent (unfold track_episode in ground (arith, appended, marked))
            ])
      ]

  record_alert_puts :
      (now : ℕ) (cfg : Streaks) (a : Alert V) (db : Db V)
      → has_alert a (record_alert now cfg a db).1.alerts ≡ true
  record_alert_puts now cfg a db =
      ground (arith, has_alert-record now cfg a a db, is_same_alert_refl a db.next_id false)

  record_alert_keeps :
      (now : ℕ) (cfg : Streaks) (a b : Alert V) (db : Db V)
      → has_alert b db.alerts ≡ true
      → has_alert b (record_alert now cfg a db).1.alerts ≡ true
  record_alert_keeps now cfg a b db h = ground (arith, has_alert-record now cfg a b db)

  record_alerts_keeps :
      (now : ℕ) (cfg : Streaks) (alerts : List (Alert V)) (b : Alert V) (db : Db V)
      → has_alert b db.alerts ≡ true
      → has_alert b (record_alerts now cfg alerts db).1.alerts ≡ true
  unfolding record_alerts
  record_alerts_keeps now cfg [] b db h = h
  record_alerts_keeps now cfg (a ∷ rest) b db h =
      record_alerts_keeps now cfg rest b (record_alert now cfg a db).1
        (record_alert_keeps now cfg a b db h)

  abbrev pub IsKnown : List (AlertRow V) → Alert V → Type 0
  IsKnown rows a = has_alert a rows ≡ true

  pub record_alerts_put :
      (now : ℕ) (cfg : Streaks) (alerts : List (Alert V)) (db : Db V)
      → All (IsKnown (record_alerts now cfg alerts db).1.alerts) alerts
  unfolding record_alerts
  record_alerts_put now cfg [] db = tt
  record_alerts_put now cfg (a ∷ rest) db =
      let next = (record_alert now cfg a db).1 in
      (
        record_alerts_keeps now cfg rest a next (record_alert_puts now cfg a db),
        record_alerts_put now cfg rest next,
      )

  record_alerts_known :
      (now : ℕ) (cfg : Streaks) (alerts : List (Alert V)) (db : Db V)
      → All (IsKnown db.alerts) alerts
      → record_alerts now cfg alerts db ≡ (0, db)
  unfolding record_alerts record_alert
  record_alerts_known now cfg [] db h = refl
  record_alerts_known now cfg (a ∷ rest) db h =
      rw (h.0) (rw (record_alerts_known now cfg rest db h.1))

  -- Recording the same alerts a second time, at any later time and with any settings, inserts no
  -- row and leaves both tables and the queue of messages as they are.
  pub record_alerts_again :
      (now later : ℕ) (cfg cfg' : Streaks) (alerts : List (Alert V)) (db : Db V)
      → let db' = (record_alerts now cfg alerts db).1 in
        record_alerts later cfg' alerts db' ≡ (0, db')
  record_alerts_again now later cfg cfg' alerts db =
      record_alerts_known later cfg' alerts (record_alerts now cfg alerts db).1
        (record_alerts_put now cfg alerts db)
