-- ===== src/Daemon/Sender/Startup.antt =====
-- ftp-daemon/soltrace_daemon.py: `_flush_startup_buffer`, and the pauses of `_sender_loop`.
use soltrace.Base.{
  Option, ℕ, ◌+◌, ◌≤◌, ◌≡◌, ◌⊎◌, inl, inr, ap, subst, refl, ◌∙◌, Bool, Bool-cases, true, String,
  List, [], count, count-append, arith,
}
use soltrace.Daemon.Client.{
  pos, Reply, ClientConfig, Net, Outcome, sent, gave_up, disabled, removed, send_logs,
}
use soltrace.Daemon.Client.Batches.{Delivers, send_logs_of-Delivers}
use soltrace.Daemon.Buffer.{count-write, exists, read_and_clear}
use soltrace.Daemon.Sender.{
  Daemon, SenderConfig, after_startup, flush_startup_buffer, next_backoff, backoff_base,
  backoff_max,
}
use soltrace.Daemon.Sender.Tallies.{ledger}
use soltrace.Daemon.Sender.Ledger.{acked-grows}

-- From a backoff that is 0 or at least the base of 30 s, and at most the maximum of 300 s, the
-- next one lies between the base and the maximum and is not shorter.
pub next_backoff-bounds :
    (b : ℕ)
    → (b ≡ 0) ⊎ (backoff_base ≤ b)
    → b ≤ backoff_max
    → (backoff_base ≤ next_backoff b) × (next_backoff b ≤ backoff_max) × (b ≤ next_backoff b)
unfolding next_backoff
next_backoff-bounds b g h = ground arith

module _ {ℓ} {E : Type ℓ} (replies : ℕ → Reply) (client : ClientConfig) {S : Type 0}
    (reads : String → List ℕ → Option E) (is_session : E → Bool) (cfg : SenderConfig) (size : ℕ)
    (positive : cfg.batch_size ≡ pos size) (log : String → List ℕ) (p : E → Bool) where
  after_startup-ledger :
      (buffered : List E) (d : Daemon E S) (r : Outcome × Net E)
      → d.buffer.entries ≡ []
      → Delivers buffered d.net.acked r
      → (after_startup replies client buffered d r).is_running ≡ true
      → count p buffered + ledger is_session cfg p reads log p d
        ≤ ledger is_session cfg p reads log p (after_startup replies client buffered d r)
  after_startup-ledger buffered d (sent c, n) empty del run =
      let e = ap (count p) del ∙ count-append p d.net.acked buffered in omega (arith, e)
  after_startup-ledger buffered d (gave_up, n) empty del run =
      let w = count-write p buffered d.buffer in
      omega (arith, w.0, w.1, acked-grows replies client p buffered d.net.acked (gave_up, n) del)
  after_startup-ledger buffered d (disabled, n) empty del run =
      let w = count-write p buffered d.buffer in
      omega (arith, w.0, w.1, acked-grows replies client p buffered d.net.acked (disabled, n) del)
  after_startup-ledger buffered d (removed, n) empty del run = ground arith

  -- If the daemon does not exit at once and its batch size is not negative, sending the buffer
  -- of the run before loses none of the entries but those that the buffer counts as dropped:
  -- they are in requests that the server took, in the buffer or in the logs.
  pub flush_startup_buffer-ledger :
      (d : Daemon E S)
      → (flush_startup_buffer replies client cfg d).is_running ≡ true
      → ledger is_session cfg p reads log p d
        ≤ ledger is_session cfg p reads log p (flush_startup_buffer replies client cfg d)
  unfolding flush_startup_buffer read_and_clear count
  flush_startup_buffer-ledger d run = elim (Bool-cases (exists d.buffer)) [
    | inl e ↦
        let empty = record d { buffer = record d.buffer { entries = [] } } in
        let goes =
          after_startup-ledger d.buffer.entries empty
            (send_logs replies client d.buffer.entries cfg.batch_size d.net) refl
            (send_logs_of-Delivers replies client d.buffer.entries cfg.batch_size size d.net
              positive) in
        let same : flush_startup_buffer replies client cfg d
            ≡ after_startup replies client d.buffer.entries empty
                (send_logs replies client d.buffer.entries cfg.batch_size d.net) =
          rw e refl in
        let loss = goes (subst (λ x. x.is_running ≡ true) same run) in rw same (omega (arith, loss))
    | inr e ↦ rw (e, flush_startup_buffer) (omega arith)
  ]
