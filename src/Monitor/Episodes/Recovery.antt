-- ===== src/Monitor/Episodes/Recovery.antt =====
-- was/app/service_monitor.py: a recovery is told only to those who were told of the disturbance.
use soltrace.Base.{
  All-take, ℕ, ◌≡◌, refl, Bool, true, false, not, ◌&&◌, ◌||◌, List, [], ◌∷◌, ◌++◌, map, ◌==◌, All,
  All-append, arith, select, leb, inl, inr, Bool-cases,
}
use soltrace.Monitor.Alert.{Metric, Severity, metric_eq, Alert, AlertRow, Episode, is_of}
use soltrace.Monitor.Episodes.{
  send_limit, resolved_time, send_rows, send_recoveries, Db, Streaks, Recovered, extend_episode,
  new_episode, upsert_episode, track_episode, record_alert, record_alerts, resolve,
  resolve_episodes, mark_notified, mark_episode, concerns, unsent, notify, is_recoverable,
  insert_resolved, sort_resolved, recoverable, mark_recovered, mark_recovery_notified,
  recovery_item, notify_recovery,
}

-- What the monitor does to the tables, in any order and with any answers of the notifier.
pub data Event (V : Type 0) : Type 0 where
  records : ℕ → Streaks → List (Alert V) → Event V
  resolves : ℕ → ℕ → Event V
  notifies : Bool → Bool → Event V
  recovers : ℕ → Bool → Bool → Event V

module _ {V : Type 0} where
  unfoldable pub handle : Event V → Db V → Db V
  handle (records now cfg alerts) db = (record_alerts now cfg alerts db).1
  handle (resolves now width) db = resolve_episodes now width db
  handle (notifies configured delivered) db = notify configured delivered db
  handle (recovers width configured delivered) db = notify_recovery width configured delivered db

  unfoldable pub run : List (Event V) → Db V → Db V
  run [] db = db
  run (ev ∷ evs) db = run evs (handle ev db)

  -- an alert about the metric of the device was delivered
  unfoldable pub was_sent : ℕ → Metric → List (Alert V) → Bool
  was_sent d m [] = false
  was_sent d m (a ∷ rest) = (d == a.device_id && metric_eq m a.metric) || was_sent d m rest

  abbrev pub Told : List (Alert V) → Episode → Type 0
  Told sent ep = (not ep.notified || was_sent ep.device_id ep.metric sent) ≡ true

  abbrev pub ToldBefore : List (Alert V) → Recovered → Type 0
  ToldBefore sent r = was_sent r.device_id r.metric sent ≡ true

  -- Of every episode that is marked as announced an alert was delivered, and of every recovery
  -- that was delivered too.
  pub record IsHonest (db : Db V) : Type 0 where
    pub episodes : All (Told db.sent) db.episodes
    pub recovered : All (ToldBefore db.sent) db.recovered

  extend-Told :
      (now bucket : ℕ) (s : Severity) (sent : List (Alert V)) (ep : Episode)
      → Told sent ep
      → Told sent (extend_episode now bucket s ep)
  unfolding extend_episode
  extend-Told now bucket s sent ep h = ground arith

  upsert-Told :
      (now d : ℕ) (m : Metric) (bucket : ℕ) (s : Severity) (sent : List (Alert V))
      (eps : List Episode)
      → All (Told sent) eps
      → All (Told sent) (upsert_episode now d m bucket s eps)
  unfolding upsert_episode extend_episode new_episode
  upsert-Told now d m bucket s sent [] h = (refl, tt)
  upsert-Told now d m bucket s sent (ep ∷ eps) h = elim (Bool-cases (is_of d m ep)) [
    | inl here ↦ rw here (extend-Told now bucket s sent ep h.0, h.1)
    | inr there ↦ rw there (h.0, upsert-Told now d m bucket s sent eps h.1)
  ]

  map-Told :
      (sent : List (Alert V)) (f : Episode → Episode) (eps : List Episode)
      → ((ep : Episode) → Told sent ep → Told sent (f ep))
      → All (Told sent) eps
      → All (Told sent) (map f eps)
  map-Told sent f [] keep h = tt
  map-Told sent f (ep ∷ eps) keep h = (keep ep h.0, map-Told sent f eps keep h.1)

  resolve-Told :
      (now width : ℕ) (sent : List (Alert V)) (ep : Episode)
      → Told sent ep
      → Told sent (resolve now width ep)
  resolve-Told now width sent ep h = ground arith

  was_sent-append :
      (d : ℕ) (m : Metric) (old new : List (Alert V))
      → was_sent d m old ≡ true
      → was_sent d m (old ++ new) ≡ true
  unfolding was_sent
  was_sent-append d m [] new h = cc
  was_sent-append d m (a ∷ old) new h = ground (arith, was_sent-append d m old new)

  was_sent-new :
      (ep : Episode) (old : List (Alert V)) (rows : List (AlertRow V))
      → concerns rows ep ≡ true
      → was_sent ep.device_id ep.metric (old ++ map (λ (r : AlertRow V). r.alert) rows) ≡ true
  unfolding was_sent concerns
  was_sent-new ep [] [] h = cc
  was_sent-new ep [] (row ∷ rows) h = ground (arith, was_sent-new ep [] rows)
  was_sent-new ep (a ∷ old) rows h = ground (arith, was_sent-new ep old rows)

  record_alert-Told :
      (now : ℕ) (cfg : Streaks) (a : Alert V) (db : Db V)
      → IsHonest db
      → IsHonest (record_alert now cfg a db).1
  unfolding record_alert track_episode
  record_alert-Told now cfg a db h = ground (
    arith,
    upsert-Told now a.device_id a.metric a.bucket a.severity db.sent db.episodes h.episodes,
  )

  record_alerts-Told :
      (now : ℕ) (cfg : Streaks) (alerts : List (Alert V)) (db : Db V)
      → IsHonest db
      → IsHonest (record_alerts now cfg alerts db).1
  unfolding record_alerts
  record_alerts-Told now cfg [] db h = h
  record_alerts-Told now cfg (a ∷ rest) db h =
      record_alerts-Told now cfg rest (record_alert now cfg a db).1
        (record_alert-Told now cfg a db h)

  mark-Told :
      (rows : List (AlertRow V)) (sent : List (Alert V)) (ep : Episode)
      → Told sent ep
      → Told (sent ++ map (λ (r : AlertRow V). r.alert) rows) (mark_episode rows ep)
  mark-Told rows sent ep h = ground (
    arith,
    was_sent-new ep sent rows,
    was_sent-append ep.device_id ep.metric sent (map (λ (r : AlertRow V). r.alert) rows),
  )

  marks-Told :
      (rows : List (AlertRow V)) (sent : List (Alert V)) (eps : List Episode)
      → All (Told sent) eps
      → All (Told (sent ++ map (λ (r : AlertRow V). r.alert) rows)) (map (mark_episode rows) eps)
  marks-Told rows sent [] h = tt
  marks-Told rows sent (ep ∷ eps) h = (mark-Told rows sent ep h.0, marks-Told rows sent eps h.1)

  ToldBefore-append :
      (old new : List (Alert V)) (rs : List Recovered)
      → All (ToldBefore old) rs
      → All (ToldBefore (old ++ new)) rs
  ToldBefore-append old new [] h = tt
  ToldBefore-append old new (r ∷ rs) h =
      (was_sent-append r.device_id r.metric old new h.0, ToldBefore-append old new rs h.1)

  send_rows-Told :
      (configured delivered : Bool) (rows : List (AlertRow V)) (db : Db V)
      → IsHonest db
      → IsHonest (send_rows configured delivered rows db)
  unfolding send_rows mark_notified
  send_rows-Told configured delivered [] db h = h
  send_rows-Told configured delivered (row ∷ rows) db h =
      let new = map (λ (r : AlertRow V). r.alert) (row ∷ rows) in
      ground (
        arith,
        marks-Told (row ∷ rows) db.sent db.episodes h.episodes,
        ToldBefore-append db.sent new db.recovered h.recovered,
      )

  -- What `_notify_recovery` selects was announced before, wherever it is sorted to.
  abbrev CanRecover : List (Alert V) → Episode → Type 0
  CanRecover sent ep = was_sent ep.device_id ep.metric sent ≡ true

  select-CanRecover :
      (sent : List (Alert V)) (eps : List Episode)
      → All (Told sent) eps
      → All (CanRecover sent) (select is_recoverable eps)
  select-CanRecover sent [] h = tt
  select-CanRecover sent (ep ∷ eps) h = elim (Bool-cases (is_recoverable ep)) [
    | inl chosen ↦ rw chosen (ground arith, select-CanRecover sent eps h.1)
    | inr left ↦ rw left (select-CanRecover sent eps h.1)
  ]

  insert-CanRecover :
      (sent : List (Alert V)) (ep : Episode) (eps : List Episode)
      → CanRecover sent ep
      → All (CanRecover sent) eps
      → All (CanRecover sent) (insert_resolved ep eps)
  unfolding insert_resolved
  insert-CanRecover sent ep [] c h = (c, tt)
  insert-CanRecover sent ep (x ∷ xs) c h =
      elim (Bool-cases (leb (resolved_time ep) (resolved_time x))) [
        | inl first ↦ rw first (c, h)
        | inr later ↦ rw later (h.0, insert-CanRecover sent ep xs c h.1)
      ]

  sort-CanRecover :
      (sent : List (Alert V)) (eps : List Episode)
      → All (CanRecover sent) eps
      → All (CanRecover sent) (sort_resolved eps)
  unfolding sort_resolved
  sort-CanRecover sent [] h = tt
  sort-CanRecover sent (ep ∷ eps) h =
      insert-CanRecover sent ep (sort_resolved eps) h.0 (sort-CanRecover sent eps h.1)

  items-ToldBefore :
      (width : ℕ) (sent : List (Alert V)) (eps : List Episode)
      → All (CanRecover sent) eps
      → All (ToldBefore sent) (map (recovery_item width) eps)
  items-ToldBefore width sent [] h = tt
  items-ToldBefore width sent (ep ∷ eps) h = (h.0, items-ToldBefore width sent eps h.1)

  mark_recovered-Told :
      (listed : List Episode) (sent : List (Alert V)) (ep : Episode)
      → Told sent ep
      → Told sent (mark_recovered listed ep)
  mark_recovered-Told listed sent ep h = ground arith

  send_recoveries-Told :
      (width : ℕ) (configured delivered : Bool) (eps : List Episode) (db : Db V)
      → All (CanRecover db.sent) eps
      → IsHonest db
      → IsHonest (send_recoveries width configured delivered eps db)
  unfolding send_recoveries mark_recovery_notified
  send_recoveries-Told width configured delivered [] db c h = h
  send_recoveries-Told width configured delivered (ep ∷ eps) db c h = ground (
    arith,
    map-Told db.sent (mark_recovered (ep ∷ eps)) db.episodes
        (mark_recovered-Told (ep ∷ eps) db.sent) h.episodes,
    All-append (ToldBefore db.sent) db.recovered (map (recovery_item width) (ep ∷ eps)) h.recovered
        (items-ToldBefore width db.sent (ep ∷ eps) c),
  )

  handle-IsHonest : (ev : Event V) (db : Db V) → IsHonest db → IsHonest (handle ev db)
  unfolding handle resolve_episodes notify notify_recovery recoverable
  handle-IsHonest (records now cfg alerts) db h = record_alerts-Told now cfg alerts db h
  handle-IsHonest (resolves now width) db h = record {
    episodes =
        map-Told db.sent (resolve now width) db.episodes (resolve-Told now width db.sent)
          h.episodes;
    recovered = h.recovered;
  }
  handle-IsHonest (notifies configured delivered) db h =
      send_rows-Told configured delivered (unsent db) db h
  handle-IsHonest (recovers width configured delivered) db h =
      send_recoveries-Told width configured delivered (recoverable db) db
        (All-take (CanRecover db.sent) send_limit
          (sort_resolved (select is_recoverable db.episodes))
          (sort-CanRecover db.sent (select is_recoverable db.episodes)
            (select-CanRecover db.sent db.episodes h.episodes)))
        h

  -- Whatever the monitor does in whatever order, and whether the notifier delivers or not: of
  -- every episode that is marked as announced, and of every recovery that was delivered, an
  -- alert about the same device and metric was delivered, if this holds at the start.
  pub run-IsHonest : (evs : List (Event V)) (db : Db V) → IsHonest db → IsHonest (run evs db)
  unfolding run
  run-IsHonest [] db h = h
  run-IsHonest (ev ∷ evs) db h = run-IsHonest evs (handle ev db) (handle-IsHonest ev db h)
