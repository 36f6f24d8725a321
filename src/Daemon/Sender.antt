-- ===== src/Daemon/Sender.antt =====
-- ftp-daemon/soltrace_daemon.py: `_sender_loop`, one pass of which is `sender_pass`, with
-- `_safe_shutdown` and `_flush_startup_buffer`. A wait stands in `pause`, and ends the pass.
pub mod Tallies
pub mod Ledger
pub mod Passes
pub mod Startup
use soltrace.Base.{
  ℕ, zero, suc, ◌+◌, ◌*◌, ◌==◌, Bool, true, false, not, String, Option, none, some, List, [], ◌∷◌,
  ◌++◌, map, select, length, min, if◌then◌else◌,
}
use soltrace.Daemon.Tailer.{Parser, Tailer, FileView, poll, commit, advance, rollback}
use soltrace.Daemon.Client.{
  ℤ, Net, Reply, ClientConfig, Outcome, sent, gave_up, disabled, removed, send_logs, post_status,
}
use soltrace.Daemon.Buffer.{Buffer, write, read_and_clear, exists}

pub data Status : Type 0 where
  running : Status
  degraded : Status
  disabled_by_server : Status
  stopping : Status

-- `_error_message`, by what it says
pub data Note : Type 0 where
  note_buffered : (entries retry_in : ℕ) → Note
  note_disabled : Note

pub record SenderConfig : Type 0 where
  pub batch_size : ℤ
  pub poll_interval : ℕ
  pub skip_login_logout : Bool

-- `memory` is what the parsers of the tailers remember between lines.
pub record Daemon {ℓ} (E : Type ℓ) (S : Type 0) : Type ℓ where
  pub buffer : Buffer E
  pub tailers : List Tailer
  pub memory : S
  pub net : Net E
  pub status : Status
  pub error : Option Note
  pub failures : ℕ
  pub queue_size : ℕ
  pub last_send : Option ℕ
  pub backoff : ℕ
  pub pause : ℕ
  pub is_running : Bool
  pub exit_code : ℕ

-- `_BACKOFF_BASE`, `_BACKOFF_MAX`
abbrev pub backoff_base : ℕ
backoff_base = 30

abbrev pub backoff_max : ℕ
backoff_max = 300

unfoldable pub next_backoff : ℕ → ℕ
next_backoff b = min (if b == 0 then backoff_base else b * 2) backoff_max

module _ {ℓ} {E : Type ℓ} {S : Type 0} where
  -- the result of a successful send, of a resend or of a new batch
  abbrev pub recover : Daemon E S → Daemon E S
  recover d = record d { failures = 0; error = none; status = running; backoff = 0 }

  abbrev pub hold : Daemon E S → Daemon E S
  hold d = record d { status = disabled_by_server; error = some note_disabled; pause = backoff_max }

module _ {ℓ} {E : Type ℓ} {S : Type 0} (parsers : String → Parser E S) where
  -- polls the tailers in order, each with the parser of its path
  unfoldable pub poll_all : (String → Option FileView) → List Tailer → S → List Tailer × List E × S
  poll_all files [] st = ([], [], st)
  poll_all files (t ∷ ts) st =
      let (t', es, st') = poll (parsers t.path) t (files t.path) st in
      let (ts', more, end) = poll_all files ts st' in (t' ∷ ts', es ++ more, end)

module _ {ℓ} {E : Type ℓ} (is_session : E → Bool) (cfg : SenderConfig) where
  -- the filter of entries whose action is login or logout
  unfoldable pub keep_wanted : List E → List E
  keep_wanted es = if cfg.skip_login_logout then select (λ e. not (is_session e)) es else es

abbrev pub save_unsent {ℓ} : {E : Type ℓ} → List E → Buffer E → Buffer E
save_unsent [] b = b
save_unsent (e ∷ es) b = write (e ∷ es) b

module _ {ℓ} {E : Type ℓ} {S : Type 0} (replies : ℕ → Reply) (client : ClientConfig) where
  unfoldable pub safe_shutdown : List E → Daemon E S → Daemon E S
  safe_shutdown unsent d = record d {
    buffer = save_unsent unsent d.buffer;
    tailers = map advance d.tailers;
    status = stopping;
    net = (post_status replies client d.net).1;
    exit_code = 1;
    is_running = false;
  }

  -- `_flush_startup_buffer`; an exit is a stop with code 1
  abbrev pub after_startup : List E → Daemon E S → Outcome × Net E → Daemon E S
  after_startup buffered d (sent counts, net) = record d { net = net }
  after_startup buffered d (gave_up, net) = record d { net = net; buffer = write buffered d.buffer }
  after_startup buffered d (disabled, net) = record d {
    net = net;
    buffer = write buffered d.buffer;
  }
  after_startup buffered d (removed, net) = record d {
    net = net;
    exit_code = 1;
    is_running = false;
  }

  unfoldable pub flush_startup_buffer : SenderConfig → Daemon E S → Daemon E S
  flush_startup_buffer cfg d =
      if exists d.buffer
      then (let (buffered, rest) = read_and_clear d.buffer in
          after_startup buffered (record d { buffer = rest })
            (send_logs replies client buffered cfg.batch_size d.net))
      else d

  -- after the entries that were read have been sent, or not
  abbrev pub after_send : ℕ → List E → Daemon E S → Outcome × Net E → Daemon E S
  after_send now entries d (sent counts, net) = record (recover d) {
    net = net;
    last_send = some now;
    tailers = map commit d.tailers;
  }
  after_send now entries d (gave_up, net) =
      let wait = next_backoff d.backoff in
      record d {
        net = net;
        failures = suc d.failures;
        backoff = wait;
        error = some (note_buffered (length entries) wait);
        status = degraded;
        buffer = write entries d.buffer;
        tailers = map advance d.tailers;
        pause = wait;
      }
  after_send now entries d (disabled, net) =
      hold (record d { net = net; tailers = map rollback d.tailers })
  after_send now entries d (removed, net) = safe_shutdown [] (record d { net = net })

  unfoldable pub send_new : SenderConfig → ℕ → List E → Daemon E S → Daemon E S
  send_new cfg now [] d = record d { queue_size = 0; pause = cfg.poll_interval }
  send_new cfg now (e ∷ es) d =
      after_send now (e ∷ es) (record d { queue_size = length (e ∷ es) })
        (send_logs replies client (e ∷ es) cfg.batch_size d.net)

  -- after the buffer has been sent, or not; `go_on` is the rest of the pass
  abbrev pub after_resend :
      List E → Daemon E S → (Daemon E S → Daemon E S) → Outcome × Net E → Daemon E S
  after_resend buffered d go_on (sent counts, net) = go_on (recover (record d { net = net }))
  after_resend buffered d go_on (gave_up, net) =
      let wait = next_backoff d.backoff in
      record d { net = net; buffer = write buffered d.buffer; backoff = wait; pause = wait }
  after_resend buffered d go_on (disabled, net) =
      hold (record d { net = net; buffer = write buffered d.buffer })
  after_resend buffered d go_on (removed, net) = safe_shutdown [] (record d { net = net })

module _ {ℓ} {E : Type ℓ} {S : Type 0} (parsers : String → Parser E S)
    (flush_stale_sessions : S → S) (is_session : E → Bool) (cfg : SenderConfig)
    (replies : ℕ → Reply) (client : ClientConfig) where
  unfoldable pub poll_and_send : ℕ → (String → Option FileView) → Daemon E S → Daemon E S
  poll_and_send now files d =
      let (tailers, entries, memory) =
        poll_all parsers files d.tailers (flush_stale_sessions d.memory) in
      send_new replies client cfg now (keep_wanted is_session cfg entries)
        (record d { tailers = tailers; memory = memory })

  -- one pass of `_sender_loop`, at a time and with the files as they are
  unfoldable pub sender_pass : ℕ → (String → Option FileView) → Daemon E S → Daemon E S
  sender_pass now files d =
      if exists d.buffer
      then (let (buffered, rest) = read_and_clear d.buffer in
          after_resend replies client buffered (record d { buffer = rest })
            (poll_and_send now files) (send_logs replies client buffered cfg.batch_size d.net))
      else poll_and_send now files d
