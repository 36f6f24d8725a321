-- ===== src/Daemon/Heartbeat.antt =====
-- ftp-daemon/soltrace_daemon.py: `_heartbeat_loop`, one turn of which is `heartbeat_turn`, with
-- `_register`, the first part of `start` and its signal handler. `asks_update` is whether the body
-- of the n-th answer has a true `update`; each update that is asked for starts a thread.
use soltrace.Base.{ℕ, suc, ◌-◌, ◌≡◌, refl, Bool, true, false, [], map, ◌⊎◌, inl, inr, if◌then◌else◌}
use soltrace.Auth.Text.{Text}
use soltrace.Monitor.Float.{Float}
use soltrace.Daemon.Tailer.{advance}
use soltrace.Daemon.Client.{
  Net, Reply, ClientConfig, Outcome, sent, gave_up, disabled, removed, post_status,
}
use soltrace.Daemon.Sender.{Daemon, SenderConfig, stopping, safe_shutdown, flush_startup_buffer}
use soltrace.Daemon.Status.{Dict, Gauges, collect_status, current_status}

-- the daemon, `_prev_status_sent`, and the updates that were started
pub record Beating {ℓ} (E : Type ℓ) (S R : Type 0) : Type ℓ where
  pub daemon : Daemon E S
  pub prev_sent : Dict R
  pub updates : ℕ

module _ {ℓ} {E : Type ℓ} {S : Type 0} (f : Float) (iso show : ℕ → Text) (version : Text)
    (replies : ℕ → Reply) (client : ClientConfig) where
  open f use {R}

  -- what is posted, and what is remembered as reported
  abbrev pub collect : Bool → Gauges R → Daemon E S → Dict R → Dict R × Dict R
  collect force g d prev = collect_status f force (current_status f iso show version g d) prev

  -- `_safe_shutdown([])` where the report it forces is remembered
  unfoldable pub shut_down : Gauges R → Beating E S R → Beating E S R
  shut_down g b =
      let stopped : Daemon E S = record b.daemon {
        tailers = map advance b.daemon.tailers;
        status = stopping;
      } in
      record b {
        daemon = safe_shutdown replies client [] b.daemon;
        prev_sent = (collect true g stopped b.prev_sent).1;
      }

  -- the handler of a signal
  unfoldable pub on_signal : Gauges R → Beating E S R → Beating E S R
  on_signal g b =
      let stopped : Daemon E S = record b.daemon { status = stopping } in
      record b {
        daemon = record stopped {
          net = (post_status replies client b.daemon.net).1;
          is_running = false;
        };
        prev_sent = (collect true g stopped b.prev_sent).1;
      }

  unfoldable pub register : Daemon E S → Daemon E S
  register d = record d { net = (post_status replies client d.net).1 }

  -- `start` up to its threads
  unfoldable pub start : SenderConfig → Daemon E S → Daemon E S
  start cfg d = register (flush_startup_buffer replies client cfg (record d { is_running = true }))

  abbrev pub after_beat : (ℕ → Bool) → Gauges R → Beating E S R → Outcome × Net E → Beating E S R
  after_beat asks_update g b (sent counts, net) = record b {
    daemon = record b.daemon { net = net };
    updates = if asks_update (net.turn - 1) then suc b.updates else b.updates;
  }
  after_beat asks_update g b (gave_up, net) = record b { daemon = record b.daemon { net = net } }
  after_beat asks_update g b (disabled, net) = record b { daemon = record b.daemon { net = net } }
  after_beat asks_update g b (removed, net) =
      shut_down g (record b { daemon = record b.daemon { net = net } })

  -- after the sleep, unless `running` was cleared in it
  abbrev pub turn_if : Bool → (ℕ → Bool) → Gauges R → Beating E S R → Beating E S R
  turn_if false asks_update g b = b
  turn_if true asks_update g b =
      after_beat asks_update g (record b { prev_sent = (collect false g b.daemon b.prev_sent).1 })
        (post_status replies client b.daemon.net)

  unfoldable pub heartbeat_turn : (ℕ → Bool) → Gauges R → Beating E S R → Beating E S R
  heartbeat_turn asks_update g b = turn_if b.daemon.is_running asks_update g b

  -- the daemon goes on with its queue as it was, or is stopped for good with its places saved
  abbrev pub GoesOnOrStops : Daemon E S → Daemon E S → Type ℓ
  GoesOnOrStops d d' =
      ((d'.is_running ≡ d.is_running) × (d'.tailers ≡ d.tailers) × (d'.buffer ≡ d.buffer))
      ⊎ ((d'.is_running ≡ false)
          × (d'.exit_code ≡ 1)
          × (d'.tailers ≡ map advance d.tailers)
          × (d'.buffer ≡ d.buffer))

  after_beat-GoesOnOrStops :
      (asks_update : ℕ → Bool) (g : Gauges R) (b : Beating E S R) (r : Outcome × Net E)
      → GoesOnOrStops b.daemon (after_beat asks_update g b r).daemon
  unfolding shut_down safe_shutdown
  after_beat-GoesOnOrStops asks_update g b (sent counts, net) = inl (refl, refl, refl)
  after_beat-GoesOnOrStops asks_update g b (gave_up, net) = inl (refl, refl, refl)
  after_beat-GoesOnOrStops asks_update g b (disabled, net) = inl (refl, refl, refl)
  after_beat-GoesOnOrStops asks_update g b (removed, net) = inr (refl, refl, refl, refl)

  turn_if-GoesOnOrStops :
      (c : Bool) (asks_update : ℕ → Bool) (g : Gauges R) (b : Beating E S R)
      → GoesOnOrStops b.daemon (turn_if c asks_update g b).daemon
  turn_if-GoesOnOrStops false asks_update g b = inl (refl, refl, refl)
  turn_if-GoesOnOrStops true asks_update g b =
      after_beat-GoesOnOrStops asks_update g
        (record b { prev_sent = (collect false g b.daemon b.prev_sent).1 })
        (post_status replies client b.daemon.net)

  pub heartbeat_turn-GoesOnOrStops :
      (asks_update : ℕ → Bool) (g : Gauges R) (b : Beating E S R)
      → GoesOnOrStops b.daemon (heartbeat_turn asks_update g b).daemon
  unfolding heartbeat_turn
  heartbeat_turn-GoesOnOrStops asks_update g b =
      turn_if-GoesOnOrStops b.daemon.is_running asks_update g b
