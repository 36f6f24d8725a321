-- ===== src/Bulk.antt =====
-- ftp-daemon/soltrace_bulk.py: the loader of old logs. The parsers of the daemon are functions with
-- their state, `glob` and the files are parameters; a file is its lines, none where it is missing.
-- A time is a number, and `time_of` is none where `fromisoformat` raises.
pub mod Accounts
pub mod Tests
use soltrace.Base.{
  ℕ, zero, suc, ◌+◌, ◌-◌, ◌==◌, ltb, leb, min, max, Bool, true, false, not, ◌||◌, Option, none,
  some, List, [], ◌∷◌, ◌++◌, length, if◌then◌else◌,
}
use soltrace.Auth.Text.{Text, is_empty}

abbrev pub max_batch : ℕ
max_batch = 500

-- A `batch_size` of 0 stands for any that is not positive.
pub record Args : Type 0 where
  pub transfer_log : Text
  pub extended_log : Text
  pub date_from : Option ℕ
  pub date_to : Option ℕ
  pub batch_size : ℕ
  pub dry_run : Bool
  pub no_extended : Bool
  pub no_transfer : Bool

unfoldable pub bounded_size : ℕ → ℕ
bounded_size batch_size = max 1 (min batch_size max_batch)

-- `sorted` of names, by code points
unfoldable pub text_leb : Text → Text → Bool
text_leb [] t = true
text_leb (c ∷ cs) [] = false
text_leb (c ∷ cs) (d ∷ ds) = if ltb c d then true else if c == d then text_leb cs ds else false

unfoldable pub insert_name : Text → List Text → List Text
insert_name n [] = n ∷ []
insert_name n (x ∷ xs) = if text_leb n x then n ∷ x ∷ xs else x ∷ insert_name n xs

unfoldable pub sorted_names : List Text → List Text
sorted_names [] = []
sorted_names (n ∷ ns) = insert_name n (sorted_names ns)

abbrev pub is_before : ℕ → Option ℕ → Bool
is_before t none = false
is_before t (some limit) = ltb t limit

abbrev pub is_after : ℕ → Option ℕ → Bool
is_after t none = false
is_after t (some limit) = ltb limit t

-- whether the dates leave an entry out
abbrev pub is_left_out : Option ℕ → Option ℕ → Option ℕ → Bool
is_left_out date_from date_to none = false
is_left_out date_from date_to (some dt) = is_before dt date_from || is_after dt date_to

module _ {L E S : Type 0} (parser : L → S → Option E × S) (time_of : E → Option ℕ)
    (date_from date_to : Option ℕ) where
  abbrev pub and_entry : Option E → List E → List E
  and_entry none rest = rest
  and_entry (some e) rest = if is_left_out date_from date_to (time_of e) then rest else e ∷ rest

  -- the entries that the generator yields, and the parser's state after them
  unfoldable pub iter_lines : List L → S → List E × S
  iter_lines [] st = ([], st)
  iter_lines (l ∷ ls) st =
      let (o, st') = parser l st in let (rest, end) = iter_lines ls st' in (and_entry o rest, end)

  abbrev pub iter_file : Option (List L) → S → List E × S
  iter_file none st = ([], st)
  iter_file (some lines) st = iter_lines lines st

  unfoldable pub iter_all : (Text → Option (List L)) → List Text → S → List E × S
  iter_all read [] st = ([], st)
  iter_all read (path ∷ paths) st =
      let (es, st') = iter_file (read path) st in
      let (rest, end) = iter_all read paths st' in (es ++ rest, end)

  abbrev pub or_itself : Text → List Text → List Text
  or_itself pattern [] = pattern ∷ []
  or_itself pattern (path ∷ paths) = path ∷ paths

  unfoldable pub iter_files : (Text → List Text) → (Text → Option (List L)) → Text → S → List E × S
  iter_files glob read pattern st =
      iter_all read (or_itself pattern (sorted_names (glob pattern))) st

-- The requests made, the open batch, the answers that its posts have got, the counters, and the
-- batches that were flushed, each with the answers that its posts got.
pub record Run (E : Type 0) : Type 0 where
  pub turn : ℕ
  pub batch : List E
  pub replies : List Bool
  pub total_sent : ℕ
  pub total_failed : ℕ
  pub flushed : List (List E × List Bool)

module _ {E : Type 0} where
  abbrev pub close : List E → Run E → Run E
  close batch r = record r {
    batch = [];
    replies = [];
    flushed = r.flushed ++ (batch, r.replies) ∷ [];
  }

  abbrev pub book_sent : List E → Run E → Run E
  book_sent batch r = record r { total_sent = r.total_sent + length batch }

  abbrev pub book_failed : List E → Run E → Run E
  book_failed batch r = record r { total_failed = r.total_failed + length batch }

  abbrev pub take_back : List E → Run E → Run E
  take_back batch r = record r { total_failed = r.total_failed - length batch }

module _ {E : Type 0} (answers : ℕ → Bool) (dry_run : Bool) (batch_size : ℕ) where
  -- the request that `send_batch` makes
  abbrev pub post : Run E → Run E
  post r = record r { turn = suc r.turn; replies = r.replies ++ answers r.turn ∷ [] }

  -- counted as failed, and taken back when the second try is answered
  abbrev pub retry_once : List E → Run E → Run E
  retry_once batch r =
      if answers r.turn
      then close batch (take_back batch (book_sent batch (post r)))
      else close batch (post r)

  -- a dry run only counts
  abbrev pub flush_entries : List E → Run E → Run E
  flush_entries [] r = r
  flush_entries (e ∷ es) r =
      if dry_run
      then close (e ∷ es) (book_sent (e ∷ es) r)
      else if answers r.turn
      then close (e ∷ es) (book_sent (e ∷ es) (post r))
      else retry_once (e ∷ es) (book_failed (e ∷ es) (post r))

  unfoldable pub flush_batch : Run E → Run E
  flush_batch r = flush_entries r.batch r

  abbrev pub flush_full : Run E → Run E
  flush_full r = if leb batch_size (length r.batch) then flush_batch r else r

  unfoldable pub load : List E → Run E → Run E
  load [] r = flush_batch r
  load (e ∷ es) r = load es (flush_full (record r { batch = r.batch ++ e ∷ [] }))

module _ {E : Type 0} (answers : ℕ → Bool) (args : Args) where
  -- the first request registers the device, whatever it is answered
  abbrev pub first_run : Run E
  first_run = record {
    turn = if args.dry_run then 0 else 1;
    batch = [];
    replies = [];
    total_sent = 0;
    total_failed = 0;
    flushed = [];
  }

  abbrev pub load_unless : Bool → List E → Run E → Run E
  load_unless skip entries r =
      if skip then r else load answers args.dry_run (bounded_size args.batch_size) entries r

  -- The entries of the two logs, as `iter_files` yields them. A log whose path is empty is skipped;
  -- the exit code is 0 if nothing failed.
  unfoldable pub run_bulk : List E → List E → Bool × Run E
  run_bulk transfer extended =
      let r =
        load_unless (args.no_extended || is_empty args.extended_log) extended
          (load_unless (args.no_transfer || is_empty args.transfer_log) transfer first_run) in
      (r.total_failed == 0, r)

module _ {L E S : Type 0} (parse_transfer parse_extended : L → S → Option E × S)
    (time_of : E → Option ℕ) (glob : Text → List Text) (read : Text → Option (List L)) where
  abbrev pub read_unless : Bool → (L → S → Option E × S) → Args → Text → S → List E × S
  read_unless true parser args pattern st = ([], st)
  read_unless false parser args pattern st =
      iter_files parser time_of args.date_from args.date_to glob read pattern st

  -- `run_bulk` from the arguments, with the state of the parsers at the start
  unfoldable pub import_logs : (ℕ → Bool) → Args → S → Bool × Run E
  import_logs answers args st =
      let (transfer, st') =
        read_unless (args.no_transfer || is_empty args.transfer_log) parse_transfer args
          args.transfer_log st in
      let (extended, end) =
        read_unless (args.no_extended || is_empty args.extended_log) parse_extended args
          args.extended_log st' in
      run_bulk answers args transfer extended
