-- ===== src/Daemon/Sender/Ledger.antt =====
-- ftp-daemon/soltrace_daemon.py: where the entries of the logs are after a pass of `_sender_loop`.
use soltrace.Base.{
  length, ℕ, ◌+◌, ◌≤◌, ◌≡◌, refl, ap, sym, subst, ◌∙◌, Bool, true, false, String, Option, List, [],
  ◌∷◌, take, count, count-append, All, Bool-cases, inl, inr, arith,
}
use soltrace.Daemon.Tailer.{Parser, FileView}
use soltrace.Daemon.Tailer.Lines.{Agrees}
use soltrace.Daemon.Client.{
  pos, Net, Reply, ClientConfig, Outcome, sent, gave_up, disabled, removed, send_logs,
}
use soltrace.Daemon.Client.Batches.{Delivers, send_logs_of-Delivers}
use soltrace.Daemon.Buffer.{count-write, read_and_clear, exists}
use soltrace.Daemon.Sender.{
  Daemon, SenderConfig, poll_all, keep_wanted, after_send, after_resend, send_new, poll_and_send,
  sender_pass, safe_shutdown,
}
use soltrace.Daemon.Sender.Tallies.{
  count-select, ledger, IsFollowed, keep_wanted_lem, left, ahead, tally, poll_all-tally,
  commit-tally, advance-tally, rollback-tally,
}

module _ {ℓ} {E : Type ℓ} (replies : ℕ → Reply) (client : ClientConfig) where
  pub acked-grows :
      (p : E → Bool) (entries before : List E) (r : Outcome × Net E)
      → Delivers entries before r
      → count p before ≤ count p r.1.acked
  acked-grows p entries before (sent c, n) d =
      let e = ap (count p) d ∙ count-append p before entries in omega (arith, e)
  acked-grows p entries before (gave_up, n) (k, d) =
      let e = ap (count p) d ∙ count-append p before (take k entries) in omega (arith, e)
  acked-grows p entries before (disabled, n) (k, d) =
      let e = ap (count p) d ∙ count-append p before (take k entries) in omega (arith, e)
  acked-grows p entries before (removed, n) (k, d) =
      let e = ap (count p) d ∙ count-append p before (take k entries) in omega (arith, e)

  module _ {S : Type 0} (parsers : String → Parser E S) (flush : S → S) (p : E → Bool)
      (reads : String → List ℕ → Option E)
      (follows : (path : String) → Agrees p (parsers path) (reads path)) (is_session : E → Bool)
      (cfg : SenderConfig) (size : ℕ) (positive : cfg.batch_size ≡ pos size)
      (log : String → List ℕ) where
    after_send-ledger :
        (now : ℕ) (entries : List E) (d : Daemon E S) (r : Outcome × Net E)
        → tally is_session cfg p reads log (left is_session cfg p reads log) p d.tailers
          ≡ count p entries
            + tally is_session cfg p reads log (ahead is_session cfg p reads log) p d.tailers
        → Delivers entries d.net.acked r
        → (after_send replies client now entries d r).is_running ≡ true
        → ledger is_session cfg p reads log p d
          ≤ ledger is_session cfg p reads log p (after_send replies client now entries d r)
    unfolding safe_shutdown
    after_send-ledger now entries d (sent c, n) h del run =
        let e = ap (count p) del ∙ count-append p d.net.acked entries in
        omega (arith, h, e, commit-tally is_session cfg p reads log p d.tailers)
    after_send-ledger now entries d (gave_up, n) h del run =
        let w = count-write p entries d.buffer in
        omega (
          arith,
          h,
          w.0,
          w.1,
          acked-grows p entries d.net.acked (gave_up, n) del,
          advance-tally is_session cfg p reads log p d.tailers,
        )
    after_send-ledger now entries d (disabled, n) h del run = omega (
      arith,
      acked-grows p entries d.net.acked (disabled, n) del,
      rollback-tally is_session cfg p reads log p d.tailers,
    )
    after_send-ledger now entries d (removed, n) h del run = ground arith

    send_new-ledger :
        (now : ℕ) (entries : List E) (d : Daemon E S)
        → tally is_session cfg p reads log (left is_session cfg p reads log) p d.tailers
          ≡ count p entries
            + tally is_session cfg p reads log (ahead is_session cfg p reads log) p d.tailers
        → (send_new replies client cfg now entries d).is_running ≡ true
        → ledger is_session cfg p reads log p d
          ≤ ledger is_session cfg p reads log p (send_new replies client cfg now entries d)
    unfolding send_new
    send_new-ledger now [] d h run = omega arith
    send_new-ledger now (e ∷ es) d h run =
        after_send-ledger now (e ∷ es) (record d { queue_size = length (e ∷ es) })
          (send_logs replies client (e ∷ es) cfg.batch_size d.net) h
          (send_logs_of-Delivers replies client (e ∷ es) cfg.batch_size size d.net positive) run

    poll_and_send-ledger :
        (now : ℕ) (files : String → Option FileView) (d : Daemon E S)
        → All (IsFollowed is_session cfg p reads log files) d.tailers
        → (poll_and_send parsers flush is_session cfg replies client now files d).is_running ≡ true
        → ledger is_session cfg p reads log p d
          ≤ ledger is_session cfg p reads log p
              (poll_and_send parsers flush is_session cfg replies client now files d)
    unfolding poll_and_send
    poll_and_send-ledger now files d h run =
        let (ts, es, memory) = poll_all parsers files d.tailers (flush d.memory) in
        let (same, split) =
          poll_all-tally is_session cfg p reads log parsers follows p files d.tailers
            (flush d.memory) h in
        let kept = keep_wanted is_session cfg es in
        let k = sym (count-select p kept) ∙ ap (count p) (keep_wanted_lem is_session cfg p es) in
        let goes =
          send_new-ledger now kept (record d { tailers = ts; memory = memory })
            (omega (arith, same, split, k)) run in
        omega (arith, same, goes)

    after_resend-ledger :
        (now : ℕ) (files : String → Option FileView) (buffered : List E) (d : Daemon E S)
        (r : Outcome × Net E)
        → All (IsFollowed is_session cfg p reads log files) d.tailers
        → d.buffer.entries ≡ []
        → Delivers buffered d.net.acked r
        → (after_resend replies client buffered d
            (poll_and_send parsers flush is_session cfg replies client now files)
            r).is_running
          ≡ true
        → count p buffered + ledger is_session cfg p reads log p d
          ≤ ledger is_session cfg p reads log p (
              after_resend replies client buffered d
                (poll_and_send parsers flush is_session cfg replies client now files)
                r)
    unfolding safe_shutdown
    after_resend-ledger now files buffered d (sent c, n) h empty del run =
        let goes = poll_and_send-ledger now files _ h run in
        let e = ap (count p) del ∙ count-append p d.net.acked buffered in omega (arith, goes, e)
    after_resend-ledger now files buffered d (gave_up, n) h empty del run =
        let w = count-write p buffered d.buffer in
        omega (arith, w.0, w.1, acked-grows p buffered d.net.acked (gave_up, n) del)
    after_resend-ledger now files buffered d (disabled, n) h empty del run =
        let w = count-write p buffered d.buffer in
        omega (arith, w.0, w.1, acked-grows p buffered d.net.acked (disabled, n) del)
    after_resend-ledger now files buffered d (removed, n) h empty del run = ground arith

    abbrev resend : ℕ → (String → Option FileView) → Daemon E S → Daemon E S
    resend now files d =
        let (buffered, rest) = read_and_clear d.buffer in
        after_resend replies client buffered (record d { buffer = rest })
          (poll_and_send parsers flush is_session cfg replies client now files)
          (send_logs replies client buffered cfg.batch_size d.net)

    pass-resend :
        (now : ℕ) (files : String → Option FileView) (d : Daemon E S)
        → exists d.buffer ≡ true
        → sender_pass parsers flush is_session cfg replies client now files d ≡ resend now files d
    unfolding sender_pass
    pass-resend now files d e = rw e refl

    pass-poll :
        (now : ℕ) (files : String → Option FileView) (d : Daemon E S)
        → exists d.buffer ≡ false
        → sender_pass parsers flush is_session cfg replies client now files d
          ≡ poll_and_send parsers flush is_session cfg replies client now files d
    unfolding sender_pass
    pass-poll now files d e = rw e refl

    resend-ledger :
        (now : ℕ) (files : String → Option FileView) (d : Daemon E S)
        → All (IsFollowed is_session cfg p reads log files) d.tailers
        → (resend now files d).is_running ≡ true
        → ledger is_session cfg p reads log p d
          ≤ ledger is_session cfg p reads log p (resend now files d)
    unfolding read_and_clear count
    resend-ledger now files d h run =
        let goes =
          after_resend-ledger now files d.buffer.entries
            (record d { buffer = record d.buffer { entries = [] } })
            (send_logs replies client d.buffer.entries cfg.batch_size d.net) h refl
            (send_logs_of-Delivers replies client d.buffer.entries cfg.batch_size size d.net
              positive)
            run in
        omega (arith, goes)

    -- As long as the daemon runs, a pass loses none of the entries that the server is to have, but
    -- those that the buffer says it dropped: each is taken by the server, in the buffer, or read again.
    pub sender_pass-ledger :
        (now : ℕ) (files : String → Option FileView) (d : Daemon E S)
        → All (IsFollowed is_session cfg p reads log files) d.tailers
        → (sender_pass parsers flush is_session cfg replies client now files d).is_running ≡ true
        → ledger is_session cfg p reads log p d
          ≤ ledger is_session cfg p reads log p
              (sender_pass parsers flush is_session cfg replies client now files d)
    sender_pass-ledger now files d h run = elim (Bool-cases (exists d.buffer)) [
      | inl e ↦
          let same = pass-resend now files d e in
          rw same (resend-ledger now files d h (subst (λ x. x.is_running ≡ true) same run))
      | inr e ↦
          let same = pass-poll now files d e in
          rw same (poll_and_send-ledger now files d h (subst (λ x. x.is_running ≡ true) same run))
    ]
