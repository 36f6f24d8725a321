-- ===== src/Monitor/Detect/Cycle.antt =====
-- was/app/service_monitor.py: what a cycle of `run_once` leaves of the alerts that it found.
use soltrace.Base.{ap, ℕ, ◌≡◌, refl, ◌∙◌, Bool, true, false, List, [], ◌∷◌, All, All-map}
use soltrace.Monitor.Alert.{Alert, AlertRow, Episode}
use soltrace.Monitor.Float.{Float}
use soltrace.Monitor.Eval.{Metrics, Thresholds}
use soltrace.Monitor.Episodes.{
  Db, Streaks, has_alert, mark_ids, mark_id, mark_notified, send_rows, unsent, notify,
  resolve_episodes, mark_recovery_notified, send_recoveries, recoverable, notify_recovery,
}
use soltrace.Monitor.Episodes.Keys.{IsKnown, has_alert-mark_id}
use soltrace.Monitor.Detect.{Schedule, Logs, Host, Site, detect, run_once}
use soltrace.Monitor.Detect.Found.{Judged}
use soltrace.Monitor.Detect.Recorded.{detect-Judged}

module _ {V : Type 0} where
  has_alert-mark_ids :
      (a : Alert V) (ns : List ℕ) (rows : List (AlertRow V))
      → has_alert a (mark_ids ns rows) ≡ has_alert a rows
  unfolding mark_ids
  has_alert-mark_ids a [] rows = refl
  has_alert-mark_ids a (n ∷ ns) rows =
      has_alert-mark_ids a ns (mark_id n rows) ∙ has_alert-mark_id a n rows

  has_alert-send_rows :
      (configured delivered : Bool) (a : Alert V) (rows : List (AlertRow V)) (db : Db V)
      → has_alert a (send_rows configured delivered rows db).alerts ≡ has_alert a db.alerts
  unfolding send_rows mark_notified
  has_alert-send_rows configured delivered a [] db = refl
  has_alert-send_rows false delivered a (row ∷ rows) db = has_alert-mark_ids a _ db.alerts
  has_alert-send_rows true true a (row ∷ rows) db = has_alert-mark_ids a _ db.alerts
  has_alert-send_rows true false a (row ∷ rows) db = refl

  send_recoveries-alerts :
      (width : ℕ) (configured delivered : Bool) (eps : List Episode) (db : Db V)
      → (send_recoveries width configured delivered eps db).alerts ≡ db.alerts
  unfolding send_recoveries mark_recovery_notified
  send_recoveries-alerts width configured delivered [] db = refl
  send_recoveries-alerts width false delivered (ep ∷ eps) db = refl
  send_recoveries-alerts width true true (ep ∷ eps) db = refl
  send_recoveries-alerts width true false (ep ∷ eps) db = refl

module _ (f : Float) where
  open f use {R}

  module _ (cfg : Thresholds f) (streaks : Streaks) (s : Schedule) (logs : Logs)
      (rollup : List (Metrics f) → List (Metrics f)) (host : Host)
      (configured first second raises : Bool) (now : ℕ) (site : Site f) where
    abbrev after : Site f
    after = run_once f cfg streaks s logs rollup host configured first second raises now site

    run_once-has_alert :
        (a : Alert R)
        → IsKnown (detect f cfg streaks s logs now (rollup site.metrics) site.db).1.alerts a
        → IsKnown after.db.alerts a
    unfolding run_once notify notify_recovery resolve_episodes
    run_once-has_alert a h =
        let detected = (detect f cfg streaks s logs now (rollup site.metrics) site.db).1 in
        let resolved = resolve_episodes now s.width detected in
        let told = notify configured first resolved in
        ap (has_alert a) (send_recoveries-alerts s.width configured second (recoverable told) told)
        ∙ has_alert-send_rows configured first a (unsent resolved) resolved
        ∙ h

    -- After a cycle of run_once, whatever the notifier and the disk guard answer, every alert
    -- that _eval_bucket makes of a candidate among the rows that are read, compared with the
    -- baseline rows of the same device, is in service_alerts.
    pub run_once-Judged :
        All
          (Judged f cfg s now (IsKnown after.db.alerts) (rollup site.metrics))
          (rollup site.metrics)
    run_once-Judged =
        let known =
          IsKnown (detect f cfg streaks s logs now (rollup site.metrics) site.db).1.alerts in
        All-map (Judged f cfg s now known (rollup site.metrics)) _ (rollup site.metrics)
          (λ cand judged read_it is_cand.
            All-map known (IsKnown after.db.alerts) _ run_once-has_alert (judged read_it is_cand))
          (detect-Judged f cfg streaks s logs now (rollup site.metrics) site.db)
