-- ===== src/Monitor/Detect/Rows.antt =====
-- was/app/service_monitor.py: the rows of `service_alerts` after alerts were recorded.
use soltrace.Base.{
  ℕ, ◌+◌, ◌≡◌, refl, ap, ◌==◌, false, ◌||◌, Bool-cases, inl, inr, String, List, [], ◌∷◌, ◌++◌, All,
  All-append, All-map, arith,
}
use soltrace.Monitor.Alert.{metric_eq_refl, Alert, AlertRow}
use soltrace.Monitor.Episodes.{
  Db, Streaks, min_streak, is_same_alert, has_alert, mark_id, track_episode, record_alert,
  record_alerts,
}
use soltrace.Monitor.Episodes.Keys.{IsKnown}
use soltrace.Monitor.Detect.Messages.{set_message}

-- the rows of the table, after the recording
module _ {V : Type 0} (P : Alert V → Type 0) where
  abbrev pub AllRows : List (AlertRow V) → Type 0
  AllRows rows = All (λ (r : AlertRow V). P r.alert) rows

  mark_id-AllRows : (n : ℕ) (rows : List (AlertRow V)) → AllRows rows → AllRows (mark_id n rows)
  unfolding mark_id
  mark_id-AllRows n [] h = tt
  mark_id-AllRows n (row ∷ rows) h = elim (Bool-cases (row.id == n)) [
    | inl e ↦ rw e (h.0, mark_id-AllRows n rows h.1)
    | inr e ↦ rw e (h.0, mark_id-AllRows n rows h.1)
  ]

  record_alert-AllRows :
      (now : ℕ) (cfg : Streaks) (a : Alert V) (db : Db V)
      → P a
      → AllRows db.alerts
      → AllRows (record_alert now cfg a db).1.alerts
  unfolding record_alert
  record_alert-AllRows now cfg a db p h =
      let row : AlertRow V = record { id = db.next_id; alert = a; notified = false } in
      let added : Db V = record db { alerts = db.alerts ++ row ∷ []; next_id = db.next_id + 1 } in
      let all = All-append (λ (r : AlertRow V). P r.alert) db.alerts (row ∷ []) h (p, tt) in
      elim (Bool-cases (has_alert a db.alerts)) [
        | inl known ↦ rw known h
        | inr new ↦
            rw new (elim (Bool-cases (track_episode now a (min_streak cfg a.metric) added).0) [
              | inl send ↦ rw send (unfold track_episode in all)
              | inr silent ↦ rw silent (unfold track_episode in mark_id-AllRows db.next_id _ all)
            ])
      ]

  pub record_alerts-AllRows :
      (now : ℕ) (cfg : Streaks) (alerts : List (Alert V)) (db : Db V)
      → All P alerts
      → AllRows db.alerts
      → AllRows (record_alerts now cfg alerts db).1.alerts
  unfolding record_alerts
  record_alerts-AllRows now cfg [] db p h = h
  record_alerts-AllRows now cfg (a ∷ rest) db p h =
      record_alerts-AllRows now cfg rest (record_alert now cfg a db).1 p.1
        (record_alert-AllRows now cfg a db p.0 h)

module _ {V : Type 0} where
  -- The rows are in the table.
  pub known_lem : (rows : List (AlertRow V)) → AllRows (IsKnown rows) rows
  unfolding has_alert
  known_lem [] = tt
  known_lem (row ∷ rows) = (
    ground (arith, metric_eq_refl row.alert.metric),
    All-map (λ (r : AlertRow V). IsKnown rows r.alert)
        (λ (r : AlertRow V). IsKnown (row ∷ rows) r.alert) rows (λ r k. ground (arith, k))
        (known_lem rows),
  )

module _ {V : Type 0} where
  -- The message of an alert is not in its key.
  pub has_alert-message :
      (rows : List (AlertRow V)) (text : String) (a : Alert V)
      → has_alert (set_message text a) rows ≡ has_alert a rows
  unfolding has_alert
  has_alert-message [] text a = refl
  has_alert-message (row ∷ rows) text a =
      ap (λ b. is_same_alert a row || b) (has_alert-message rows text a)
