-- ===== src/Daemon/Tests.antt =====
-- ftp-daemon/soltrace_daemon.py: the daemon on small logs, whose entries are their first bytes.
use soltrace.Base.{
  ◌-◌, if◌then◌else◌, ℕ, zero, suc, ◌≤◌, ◌==◌, ◌≡◌, refl, Bool, true, String, Option, none, some,
  List, [], ◌∷◌, ◌++◌, All, select, arith,
}
use soltrace.Daemon.Tailer.{
  Parser, Tailer, FileView, poll, commit, is_rotated, read_lines, split_line,
}
use soltrace.Daemon.Tailer.Lines.{Agrees}
use soltrace.Daemon.Tailer.Follow.{unread, next_pos, poll-unread}
use soltrace.Daemon.Tailer.Saved.{Again, poll-repeats}
use soltrace.Daemon.Client.{
  pos, Counts, Net, Reply, answer, broken, ClientConfig, Outcome, sent, gave_up, send_logs,
  max_batch,
}
use soltrace.Daemon.Client.Batches.{Delivers, send_logs-Delivers}
use soltrace.Daemon.Client.Limits.{send_logs_sends, IsSendable, send_logs-IsSendable}
use soltrace.Daemon.Buffer.{Buffer, write, write-latest}
use soltrace.Daemon.Sender.{
  Daemon, SenderConfig, running, sender_pass, flush_startup_buffer, next_backoff, backoff_base,
  backoff_max,
}
use soltrace.Daemon.Sender.Tallies.{ledger}
use soltrace.Daemon.Sender.Passes.{Passes, stop_here, and_pass, Passes-ledger}
use soltrace.Daemon.Sender.Startup.{flush_startup_buffer-ledger}

-- a line that starts with 35 is noise
abbrev first_byte : List ℕ → Option ℕ
first_byte [] = none
first_byte (c ∷ cs) = if c == 35 then none else some c

-- a parser that counts the lines, as its memory
abbrev counting : Parser ℕ ℕ
counting st line = (first_byte line, suc st)

abbrev parsers : String → Parser ℕ ℕ
parsers path = counting

abbrev reads : String → List ℕ → Option ℕ
reads path = first_byte

-- what is remembered, less the stale sessions
abbrev forget : ℕ → ℕ
forget n = n - 1

abbrev every : ℕ → Bool
every e = true

abbrev agrees : (path : String) → Agrees every (parsers path) (reads path)
agrees path st line = refl

abbrev is_login : ℕ → Bool
is_login e = e == 90

abbrev first_fails : ℕ → Reply
first_fails zero = broken
first_fails (suc n) = answer 200 1 0

abbrev all_answered : ℕ → Reply
all_answered n = answer 200 1 0

abbrev one_try : ClientConfig
one_try = record { retry_max = 1; retry_delay = 10 }

abbrev batches_of_two : SenderConfig
batches_of_two = record { batch_size = pos 2; poll_interval = 5; skip_login_logout = true }

abbrev bytes : List ℕ
bytes = 65 ∷ 10 ∷ 35 ∷ 10 ∷ 66 ∷ 10 ∷ 67 ∷ []

abbrev file : FileView
file = record { inode = 3; content = bytes; readable = true }

abbrev rest_of_line : List ℕ
rest_of_line = 10 ∷ []

abbrev tailer : Tailer
tailer = record {
  path = "xferlog";
  pos = 0;
  inode = some 3;
  pending = none;
  saved = some (0, some 3);
  writable = true;
}

abbrev old_tailer : Tailer
old_tailer = record {
  path = "xferlog";
  pos = 9;
  inode = some 2;
  pending = none;
  saved = some (9, some 2);
  writable = true;
}

abbrev polled : Tailer
polled = record {
  path = "xferlog";
  pos = 0;
  inode = some 3;
  pending = some 6;
  saved = some (0, some 3);
  writable = true;
}

abbrev no_net : Net ℕ
no_net = record { turn = 0; posted = []; acked = []; slept = 0 }

abbrev small_buffer : Buffer ℕ
small_buffer = record { max_lines = 3; entries = 1 ∷ 2 ∷ []; dropped = 0 }

abbrev daemon : Daemon ℕ ℕ
daemon = record {
  buffer = small_buffer;
  tailers = tailer ∷ [];
  memory = 0;
  net = no_net;
  status = running;
  error = none;
  failures = 0;
  queue_size = 0;
  last_send = none;
  backoff = 0;
  pause = 0;
  is_running = true;
  exit_code = 0;
}

abbrev files : String → Option FileView
files path = some file

abbrev whole_log : String → List ℕ
whole_log path = bytes ++ rest_of_line

poll-unread_example :
    let (t', es, end) = poll counting tailer (some file) 0 in
    (t'.pos ≡ 0)
    × (t'.path ≡ tailer.path)
    × (t'.inode ≡ some 3)
    × (select every (unread counting 0 (bytes ++ rest_of_line) 0)
        ≡ select every es
          ++ select every (unread counting end (bytes ++ rest_of_line) (next_pos t')))
poll-unread_example = poll-unread counting every tailer file rest_of_line 0 refl refl

polled_is : poll counting tailer (some file) 0 ≡ (polled, 65 ∷ 66 ∷ [], 3)
unfolding poll soltrace.Daemon.Tailer.read_new soltrace.Daemon.Tailer.follow_rotation read_lines
    split_line
polled_is = refl

poll-repeats_example :
    Again counting every first_byte
      (agrees "xferlog")
      (poll counting tailer (some file) 0)
      (poll counting (poll counting tailer (some file) 0).0 (some file) 3)
poll-repeats_example =
    poll-repeats counting every first_byte (agrees "xferlog") tailer (some file) 0 3

send_logs-Delivers_example :
    Delivers (1 ∷ 2 ∷ 3 ∷ []) [] (send_logs all_answered one_try (1 ∷ 2 ∷ 3 ∷ []) (pos 2) no_net)
send_logs-Delivers_example = send_logs-Delivers all_answered one_try (1 ∷ 2 ∷ 3 ∷ []) 2 no_net

send_logs-IsSendable_example :
    All IsSendable (send_logs all_answered one_try (1 ∷ 2 ∷ 3 ∷ []) (pos 2) no_net).1.posted
send_logs-IsSendable_example =
    send_logs-IsSendable all_answered one_try (1 ∷ 2 ∷ 3 ∷ []) (pos 2) no_net tt

flush_startup_buffer-ledger_example :
    ledger is_login batches_of_two every reads whole_log every daemon
    ≤ ledger is_login batches_of_two every reads whole_log every
        (flush_startup_buffer all_answered one_try batches_of_two daemon)
unfolding flush_startup_buffer soltrace.Daemon.Buffer.exists send_logs
    soltrace.Daemon.Client.send_chunks soltrace.Daemon.Buffer.read_and_clear
    soltrace.Daemon.Client.post soltrace.Daemon.Client.post_from soltrace.Daemon.Client.judge
    soltrace.Daemon.Client.chunk_size
flush_startup_buffer-ledger_example =
    flush_startup_buffer-ledger all_answered one_try reads is_login batches_of_two 2 refl whole_log
      every daemon refl

abbrev after_one : Daemon ℕ ℕ
after_one = sender_pass parsers forget is_login batches_of_two first_fails one_try 100 files daemon

abbrev after_two : Daemon ℕ ℕ
after_two =
    sender_pass parsers forget is_login batches_of_two first_fails one_try 200 files after_one

two_rounds :
    Passes parsers forget every reads agrees is_login batches_of_two whole_log first_fails one_try
      daemon after_two
unfolding sender_pass soltrace.Daemon.Sender.poll_and_send soltrace.Daemon.Sender.send_new
    soltrace.Daemon.Sender.safe_shutdown soltrace.Daemon.Sender.poll_all
    soltrace.Daemon.Sender.keep_wanted soltrace.Daemon.Sender.next_backoff
    soltrace.Daemon.Buffer.exists soltrace.Daemon.Buffer.read_and_clear
    soltrace.Daemon.Client.send_chunks soltrace.Daemon.Client.post soltrace.Daemon.Client.post_from
    soltrace.Daemon.Client.judge soltrace.Daemon.Client.chunk_size soltrace.Daemon.Tailer.read_new
    soltrace.Daemon.Tailer.follow_rotation soltrace.Daemon.Tailer.advance
    soltrace.Daemon.Tailer.rollback write send_logs poll read_lines split_line commit
two_rounds =
    and_pass {d = daemon} 100 files ((refl, (rest_of_line, refl)), tt) refl
      (and_pass {d = after_one} 200 files ((refl, (rest_of_line, refl)), tt) refl stop_here)

Passes-ledger_example :
    ledger is_login batches_of_two every reads whole_log every daemon
    ≤ ledger is_login batches_of_two every reads whole_log every after_two
Passes-ledger_example =
    Passes-ledger parsers forget every reads agrees is_login batches_of_two whole_log first_fails
      one_try 2 daemon after_two refl (refl, tt) two_rounds

send_logs_sends_example :
    (c : Counts) × ((send_logs all_answered one_try (1 ∷ 2 ∷ 3 ∷ []) (pos 2) no_net).0 ≡ sent c)
send_logs_sends_example =
    send_logs_sends all_answered one_try (λ n. refl) (omega arith) (1 ∷ 2 ∷ 3 ∷ []) 2 no_net
