-- ===== src/Monitor/Detect/Recorded.antt =====
-- was/app/service_monitor.py: what of the alerts that `_detect` finds is in `service_alerts` afterwards.
use soltrace.Base.{
  ℕ, IsIn, All-IsIn, ◌≡◌, refl, ◌∙◌, sym, ◌⊎◌, inl, inr, String, List, [], ◌∷◌, All, All-map,
}
use soltrace.Monitor.Alert.{Alert, AlertRow}
use soltrace.Monitor.Float.{Float}
use soltrace.Monitor.Eval.{Metrics, Thresholds}
use soltrace.Monitor.Episodes.{Db, Streaks, has_alert}
use soltrace.Monitor.Episodes.Keys.{IsKnown, record_alerts_put, record_alerts_again}
use soltrace.Monitor.Detect.{Schedule, Logs, sort_alerts, found, annotate, record_found, detect}
use soltrace.Monitor.Detect.Messages.{
  set_message, set_message-IsFounded, annotate-All, All-annotated, All-sort, All-sorted,
}
use soltrace.Monitor.Detect.Rows.{AllRows, record_alerts-AllRows, known_lem, has_alert-message}
use soltrace.Monitor.Detect.Found.{FromCandidate, Judged, found-From, found-Judged}

module _ (f : Float) where
  open f use {R}

  module _ (cfg : Thresholds f) (streaks : Streaks) (s : Schedule) (logs : Logs) (now : ℕ)
      (rows : List (Metrics f)) where
    record_found-AllRows :
        (P : Alert R → Type 0) (alerts : List (Alert R)) (db : Db R)
        → ((text : String) (a : Alert R) → P a → P (set_message text a))
        → All P alerts
        → AllRows P db.alerts
        → AllRows P (record_found f now streaks logs alerts db).1.alerts
    record_found-AllRows P [] db ignores p h = h
    record_found-AllRows P (a ∷ rest) db ignores p h =
        record_alerts-AllRows P now streaks (sort_alerts (annotate f logs (a ∷ rest))) db
          (All-sort P _ (annotate-All f P logs ignores (a ∷ rest) p)) h

    record_found_puts :
        (alerts : List (Alert R)) (db : Db R)
        → All (IsKnown (record_found f now streaks logs alerts db).1.alerts) alerts
    unfolding has_alert
    record_found_puts [] db = tt
    record_found_puts (a ∷ rest) db =
        let after = (record_found f now streaks logs (a ∷ rest) db).1.alerts in
        All-annotated f (IsKnown after) logs (λ text b k. sym (has_alert-message after text b) ∙ k)
          (a ∷ rest)
          (All-sorted (IsKnown after) _
            (record_alerts_put now streaks (sort_alerts (annotate f logs (a ∷ rest))) db))

    -- What a row that is there after the detection is.
    abbrev pub WasThereOrFound : Db R → Alert R → Type 0
    WasThereOrFound db a = IsKnown db.alerts a ⊎ FromCandidate f cfg s now (IsIn rows) a

    -- Every row of service_alerts after _detect has a key that was there before, or is founded
    -- on a candidate among the rows of service_metrics: it names its device and bucket, and has
    -- the samples that its metric asks for and a value beyond the floor of the settings, or for
    -- the speed short of a positive usual speed by more than their share.
    pub detect-WasThereOrFound :
        (db : Db R)
        → AllRows (WasThereOrFound db) (detect f cfg streaks s logs now rows db).1.alerts
    unfolding detect
    detect-WasThereOrFound db =
        record_found-AllRows (WasThereOrFound db) (found f cfg s now rows) db
          (λ text a k. elim k [
            | inl known ↦ inl (has_alert-message db.alerts text a ∙ known)
            | inr (cand, i, c, h) ↦ inr (cand, i, c, set_message-IsFounded f cand cfg text a h)
          ])
          (All-map (FromCandidate f cfg s now (IsIn rows)) (WasThereOrFound db) _ (λ a k. inr k)
            (found-From f cfg s now (IsIn rows) rows (All-IsIn rows)))
          (All-map (λ (r : AlertRow R). IsKnown db.alerts r.alert)
            (λ (r : AlertRow R). WasThereOrFound db r.alert) db.alerts (λ r k. inl k)
            (known_lem db.alerts))

    -- What `_eval_bucket` makes of each candidate that is read is in the table after the detection.
    pub detect-Judged :
        (db : Db R)
        → All
            (Judged f cfg s now (IsKnown (detect f cfg streaks s logs now rows db).1.alerts) rows)
            rows
    unfolding detect
    detect-Judged db =
        found-Judged f cfg s now _ rows (record_found_puts (found f cfg s now rows) db)

    record_found_again :
        (alerts : List (Alert R)) (db : Db R)
        → let db' = (record_found f now streaks logs alerts db).1 in
          record_found f now streaks logs alerts db' ≡ (0, db')
    record_found_again [] db = refl
    record_found_again (a ∷ rest) db =
        record_alerts_again now now streaks streaks (sort_alerts (annotate f logs (a ∷ rest))) db

    -- A second _detect with the same time, rows and settings inserts nothing and leaves the
    -- tables as they are.
    pub detect_again :
        (db : Db R)
        → let db' = (detect f cfg streaks s logs now rows db).1 in
          detect f cfg streaks s logs now rows db' ≡ (0, db')
    unfolding detect
    detect_again db = record_found_again (found f cfg s now rows) db
