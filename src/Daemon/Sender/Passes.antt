-- ===== src/Daemon/Sender/Passes.antt =====
-- ftp-daemon/soltrace_daemon.py: `_sender_loop` over any number of passes.
use soltrace.Base.{
  length, ℕ, ◌≤◌, ◌≡◌, refl, ap, sym, ◌∙◌, Bool, true, String, Option, none, some, List, [], ◌∷◌,
  ◌++◌, map, select, select-append, All, Bool-cases, inl, inr, arith,
}
use soltrace.Daemon.Tailer.{Parser, Tailer, FileView, poll, commit, advance, rollback, settle}
use soltrace.Daemon.Tailer.Lines.{Agrees}
use soltrace.Daemon.Tailer.Follow.{next_of, next_pos}
use soltrace.Daemon.Client.{
  pos, Net, Reply, ClientConfig, Outcome, sent, gave_up, disabled, removed, send_logs,
}
use soltrace.Daemon.Buffer.{read_and_clear, exists}
use soltrace.Daemon.Sender.{
  Daemon, SenderConfig, poll_all, keep_wanted, after_send, after_resend, send_new, poll_and_send,
  sender_pass, safe_shutdown,
}
use soltrace.Daemon.Sender.Tallies.{
  ledger, rest_of, IsFollowed, wanted, keep_wanted_lem, left, ahead, IsGrown, poll-left,
}
use soltrace.Daemon.Sender.Ledger.{sender_pass-ledger}

append-empty {ℓ} : {A : Type ℓ} (xs ys : List A) → xs ++ ys ≡ [] → (xs ≡ []) × (ys ≡ [])
append-empty [] ys h = (refl, h)
append-empty (x ∷ xs) ys h = ground arith

settled : (t : Tailer) (q : Option ℕ) → t.pending ≡ q → next_pos (settle t q) ≡ (settle t q).pos
settled t none h = ap (next_of t.pos) h
settled t (some q) h = refl

module _ {ℓ} {E : Type ℓ} {S : Type 0} (parsers : String → Parser E S) (flush : S → S)
    (p : E → Bool) (reads : String → List ℕ → Option E)
    (follows : (path : String) → Agrees p (parsers path) (reads path)) (is_session : E → Bool)
    (cfg : SenderConfig) (log : String → List ℕ) where
  -- Nothing that the server is to have is pending.
  abbrev pub IsClear : Tailer → Type ℓ
  IsClear t = left is_session cfg p reads log t ≡ ahead is_session cfg p reads log t

  settled-IsClear : (t : Tailer) → next_pos t ≡ t.pos → IsClear t
  settled-IsClear t h = ap (λ x. rest_of is_session cfg p reads log t.path x) (sym h)

  commit-IsClear : (ts : List Tailer) → All IsClear (map commit ts)
  unfolding commit
  commit-IsClear [] = tt
  commit-IsClear (t ∷ ts) =
      (settled-IsClear (settle t t.pending) (settled t t.pending refl), commit-IsClear ts)

  advance-IsClear : (ts : List Tailer) → All IsClear (map advance ts)
  unfolding advance
  advance-IsClear [] = tt
  advance-IsClear (t ∷ ts) =
      (settled-IsClear (settle t t.pending) (settled t t.pending refl), advance-IsClear ts)

  rollback-IsClear : (ts : List Tailer) → All IsClear (map rollback ts)
  unfolding rollback
  rollback-IsClear [] = tt
  rollback-IsClear (t ∷ ts) = (refl, rollback-IsClear ts)

  poll_all-IsClear :
      (files : String → Option FileView) (ts : List Tailer) (st : S)
      → All (IsFollowed is_session cfg p reads log files) ts
      → select (wanted is_session cfg p) (poll_all parsers files ts st).1 ≡ []
      → All IsClear (poll_all parsers files ts st).0
  unfolding poll_all
  poll_all-IsClear files [] st h e = tt
  poll_all-IsClear files (t ∷ ts) st h e =
      let (t', es, st') = poll (parsers t.path) t (files t.path) st in
      let (ts', more, end) = poll_all parsers files ts st' in
      let none_left =
        append-empty _ _ (sym (select-append (wanted is_session cfg p) es more) ∙ e) in
      let (keeps, splits) =
        poll-left is_session cfg p reads log (parsers t.path) (files t.path) t st (follows t.path)
          h.0.0 h.0.1 in
      (
        keeps ∙ splits ∙ ap (λ x. x ++ ahead is_session cfg p reads log t') none_left.0,
        poll_all-IsClear files ts st' h.1 none_left.1,
      )

  module _ (replies : ℕ → Reply) (client : ClientConfig) where
    after_send-IsClear :
        (now : ℕ) (entries : List E) (d : Daemon E S) (r : Outcome × Net E)
        → All IsClear (after_send replies client now entries d r).tailers
    unfolding safe_shutdown
    after_send-IsClear now entries d (sent c, n) = commit-IsClear d.tailers
    after_send-IsClear now entries d (gave_up, n) = advance-IsClear d.tailers
    after_send-IsClear now entries d (disabled, n) = rollback-IsClear d.tailers
    after_send-IsClear now entries d (removed, n) = advance-IsClear d.tailers

    send_new-IsClear :
        (now : ℕ) (entries : List E) (d : Daemon E S)
        → (entries ≡ [] → All IsClear d.tailers)
        → All IsClear (send_new replies client cfg now entries d).tailers
    unfolding send_new
    send_new-IsClear now [] d h = h refl
    send_new-IsClear now (e ∷ es) d h =
        after_send-IsClear now (e ∷ es) (record d { queue_size = length (e ∷ es) })
          (send_logs replies client (e ∷ es) cfg.batch_size d.net)

    poll_and_send-IsClear :
        (now : ℕ) (files : String → Option FileView) (d : Daemon E S)
        → All (IsFollowed is_session cfg p reads log files) d.tailers
        → All IsClear
            (poll_and_send parsers flush is_session cfg replies client now files d).tailers
    unfolding poll_and_send
    poll_and_send-IsClear now files d h =
        let (ts, es, memory) = poll_all parsers files d.tailers (flush d.memory) in
        send_new-IsClear now (keep_wanted is_session cfg es)
          (record d { tailers = ts; memory = memory })
          (λ e.
            poll_all-IsClear files d.tailers (flush d.memory) h
              (sym (keep_wanted_lem is_session cfg p es) ∙ ap (λ l. select p l) e))

    IsFollowed-IsClear :
        (files : String → Option FileView) (ts : List Tailer)
        → All (IsFollowed is_session cfg p reads log files) ts
        → All IsClear ts
    IsFollowed-IsClear files [] h = tt
    IsFollowed-IsClear files (t ∷ ts) h = (h.0.1, IsFollowed-IsClear files ts h.1)

    after_resend-IsClear :
        (now : ℕ) (files : String → Option FileView) (buffered : List E) (d : Daemon E S)
        (r : Outcome × Net E)
        → All (IsFollowed is_session cfg p reads log files) d.tailers
        → All IsClear
            (after_resend replies client buffered d
              (poll_and_send parsers flush is_session cfg replies client now files)
              r).tailers
    unfolding safe_shutdown
    after_resend-IsClear now files buffered d (sent c, n) h = poll_and_send-IsClear now files _ h
    after_resend-IsClear now files buffered d (gave_up, n) h = IsFollowed-IsClear files d.tailers h
    after_resend-IsClear now files buffered d (disabled, n) h = IsFollowed-IsClear files d.tailers h
    after_resend-IsClear now files buffered d (removed, n) h = advance-IsClear d.tailers

    sender_pass-IsClear :
        (now : ℕ) (files : String → Option FileView) (d : Daemon E S)
        → All (IsFollowed is_session cfg p reads log files) d.tailers
        → All IsClear (sender_pass parsers flush is_session cfg replies client now files d).tailers
    unfolding sender_pass read_and_clear
    sender_pass-IsClear now files d h = elim (Bool-cases (exists d.buffer)) [
      | inl e ↦
          rw (e, sender_pass)
            (after_resend-IsClear now files d.buffer.entries
              (record d { buffer = record d.buffer { entries = [] } })
              (send_logs replies client d.buffer.entries cfg.batch_size d.net) h)
      | inr e ↦ rw (e, sender_pass) (poll_and_send-IsClear now files d h)
    ]

    followed :
        (files : String → Option FileView) (ts : List Tailer)
        → All (λ t. IsGrown is_session cfg p reads log (files t.path) t) ts
        → All IsClear ts
        → All (IsFollowed is_session cfg p reads log files) ts
    followed files [] g c = tt
    followed files (t ∷ ts) g c = ((g.0, c.0), followed files ts g.1 c.1)

    -- Passes of the loop while it runs, each with the files as they are then; no log is rotated.
    pub data Passes : Daemon E S → Daemon E S → Type ℓ where
      stop_here : {d : Daemon E S} → Passes d d
      and_pass :
          {d d' : Daemon E S} (now : ℕ) (files : String → Option FileView)
          → All (λ t. IsGrown is_session cfg p reads log (files t.path) t) d.tailers
          → (sender_pass parsers flush is_session cfg replies client now files d).is_running ≡ true
          → Passes (sender_pass parsers flush is_session cfg replies client now files d) d'
          → Passes d d'

    -- Over any number of passes of the sender loop while it runs, with any answers of the
    -- server, a batch size that is not negative, and logs that grow between the passes and are
    -- not rotated, no entry that the server is to have is lost but those that the buffer counts
    -- as dropped: of the entries that pass a test, those in the buffer, those in the logs from
    -- the positions of the tailers and those in requests that the server took, which it answered
    -- without an error status, with the dropped ones, do not become fewer. Each tailer has its
    -- own parser, and of the entries that pass the test it gives a line the same whatever it
    -- remembers, as `parse_transfer_log` does for all entries and `parse_extended_log` for those
    -- that are neither failed logins nor renames; the loop starts with tailers that have nothing
    -- pending that passes the test and is wanted.
    pub Passes-ledger :
        (size : ℕ) (d d' : Daemon E S)
        → cfg.batch_size ≡ pos size
        → All IsClear d.tailers
        → Passes d d'
        → ledger is_session cfg p reads log p d ≤ ledger is_session cfg p reads log p d'
    Passes-ledger size d d' b c stop_here = omega arith
    Passes-ledger size d d' b c (and_pass now files g run more) =
        let f = followed files d.tailers g c in
        let one =
          sender_pass-ledger replies client parsers flush p reads follows is_session cfg size b log
            now files d f run in
        let rest = Passes-ledger size _ d' b (sender_pass-IsClear now files d f) more in
        omega (arith, one, rest)
