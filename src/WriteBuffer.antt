-- ===== src/WriteBuffer.antt =====
-- was/app/write_buffer.py: the buffer between the ingest API and the database.
-- Each part of a method that runs under `self._lock` is a function of its own (`extend`,
-- `take_queue`, `take_due`, `push_retry`, `count_dropped`), and the methods are composed of them.
-- Times are nanoseconds of `time.monotonic()`. The subtractions from `retry_rows` stop at 0 here and
-- not in Python: while the counter is exact (`Counters.IsCounted`) no subtraction goes below 0.
pub mod Counters
pub mod Conservation
pub mod Backoff
pub mod Recovery
pub mod Threads
pub mod Calls
mod Tests
use soltrace.Base.{
  ℕ, zero, suc, ◌+◌, ◌-◌, ◌*◌, ◌^◌, min, String, Bool, true, false, not, ◌||◌, List, [], ◌∷◌, ◌++◌,
  map, length, select, ltb, leb, if◌then◌else◌,
}
use text.Mathlib.Text.{◌==◌ as str_eq}

-- What the buffer is given: SQLAlchemy's view of the objects, the database, and the clock.
-- `commits n` says whether the n-th bulk insert commits (or raises), and `monotonic n` is the
-- n-th reading of the clock.
pub record Env : Type 1 where
  pub Model : Type 0
  pub Object : Type 0
  pub Value : Type 0
  pub model_of : Object → Model
  pub columns : Model → List String
  pub attr : Object → String → Value
  pub commits : ℕ → Bool
  pub monotonic : ℕ → ℕ

abbrev pub second : ℕ
second = 1_000_000_000

-- `_RETRY_BASE_SEC`, `_RETRY_MAX_SEC`, `_MAX_ATTEMPTS`, `DEFAULT_MAX_PENDING`
abbrev pub retry_base : ℕ
retry_base = 2 * second

abbrev pub retry_max : ℕ
retry_max = 60 * second

abbrev pub max_attempts : ℕ
max_attempts = 100

abbrev pub default_max_pending : ℕ
default_max_pending = 50_000

-- one row to insert: the column names and their values
abbrev pub Mapping : Env → Type 0
Mapping e = List (String × e.Value)

pub record Batch (e : Env) : Type 0 where
  pub model : e.Model
  pub mappings : List (Mapping e)
  pub attempts : ℕ
  pub next_at : ℕ

-- The fields of `WriteBuffer`; `written` is what the committed inserts have handed to the
-- database, `inserts` and `readings` count the calls of it and of the clock.
pub record State (e : Env) : Type 0 where
  pub max_size : ℕ
  pub max_pending : ℕ
  pub queue : List e.Object
  pub retry : List (Batch e)
  pub retry_rows : ℕ
  pub dropped : ℕ
  pub running : Bool
  pub written : List (Mapping e)
  pub inserts : ℕ
  pub readings : ℕ

-- `_SKIP_COLS`
unfoldable pub is_skipped : String → Bool
is_skipped key = str_eq key "id" || str_eq key "created_at"

-- `min(_RETRY_BASE_SEC * 2 ** (attempts - 1), _RETRY_MAX_SEC)`
unfoldable pub delay : ℕ → ℕ
delay attempts = min (retry_base * 2 ^ (attempts - 1)) retry_max

module _ (e : Env) where
  -- `_Batch.__len__`, and the sum of it
  unfoldable pub batch_rows : List (Batch e) → ℕ
  batch_rows [] = 0
  batch_rows (b ∷ bs) = length b.mappings + batch_rows bs

  unfoldable pub to_mapping : List String → e.Object → Mapping e
  to_mapping cols obj = map (λ key. (key, e.attr obj key)) cols

  -- `_to_mappings`, called with `first ∷ rest`: the first object gives the model
  unfoldable pub to_mappings : e.Object → List e.Object → e.Model × List (Mapping e)
  to_mappings first rest =
      let model = e.model_of first in
      let cols = select (λ key. not (is_skipped key)) (e.columns model) in
      (model, map (to_mapping cols) (first ∷ rest))

  -- `_Batch.__init__`
  abbrev pub new_batch : e.Model → List (Mapping e) → Batch e
  new_batch m rows = record { model = m; mappings = rows; attempts = 0; next_at = 0 }

  -- `_Batch.defer`: whether the batch may be tried again, and the batch
  unfoldable pub defer : Batch e → State e → Bool × Batch e × State e
  defer b s =
      let tried : Batch e = record b { attempts = b.attempts + 1 } in
      if leb max_attempts tried.attempts then (false, tried, s) else (
        true,
        record tried { next_at = e.monotonic s.readings + delay tried.attempts },
        record s { readings = s.readings + 1 },
      )

  -- `_insert`: an error of the session, the statement or the commit makes it false
  unfoldable pub insert : List (Mapping e) → State e → Bool × State e
  insert rows s =
      let s' : State e = record s { inserts = s.inserts + 1 } in
      if e.commits s.inserts then (true, record s' { written = s.written ++ rows }) else (false, s')

  -- `_drop`
  unfoldable pub count_dropped : List (Batch e) → State e → State e
  count_dropped bs s = record s { dropped = s.dropped + batch_rows bs }

  -- The `while` loop of `_requeue`: what stays, its rows, and what is pushed out.
  unfoldable pub evict : ℕ → List (Batch e) → ℕ → List (Batch e) × ℕ × List (Batch e)
  evict limit [] rows = ([], rows, [])
  evict limit (b ∷ []) rows = (b ∷ [], rows, [])
  evict limit (b ∷ c ∷ bs) rows =
      let (kept, left, overflow) = evict limit (c ∷ bs) (rows - length b.mappings) in
      if ltb limit rows then (kept, left, b ∷ overflow) else (b ∷ c ∷ bs, rows, [])

  -- the locked part of `_requeue`
  unfoldable pub push_retry : Batch e → State e → List (Batch e) × State e
  push_retry b s =
      let (kept, left, overflow) =
        evict s.max_pending (s.retry ++ b ∷ []) (s.retry_rows + length b.mappings) in
      (overflow, record s { retry = kept; retry_rows = left })

  unfoldable pub drop_overflow : List (Batch e) → State e → State e
  drop_overflow [] s = s
  drop_overflow (b ∷ bs) s = count_dropped (b ∷ bs) s

  unfoldable pub requeue : Batch e → State e → State e
  requeue b s =
      let (again, b', s') = defer b s in
      if again
      then (let (overflow, s'') = push_retry b' s' in drop_overflow overflow s'')
      else count_dropped (b' ∷ []) s'

  unfoldable pub write : List e.Object → State e → State e
  write [] s = s
  write (first ∷ rest) s =
      let (model, rows) = to_mappings first rest in
      let (done, s') = insert rows s in if done then s' else requeue (new_batch model rows) s'

  -- the locked part of `add`: what has to be written at once
  unfoldable pub extend : List e.Object → State e → List e.Object × State e
  extend objs s =
      let all = s.queue ++ objs in
      if leb s.max_size (length all)
      then (all, record s { queue = [] })
      else ([], record s { queue = all })

  unfoldable pub add : List e.Object → State e → State e
  add objs s = let (flush_now, s') = extend objs s in write flush_now s'

  -- the locked part of `_retry_due`
  unfoldable pub is_due : Bool → ℕ → Batch e → Bool
  is_due force now b = force || leb b.next_at now

  unfoldable pub take_due : Bool → ℕ → State e → List (Batch e) × State e
  take_due force now s =
      let due = select (is_due force now) s.retry in
      (
        due,
        record s {
          retry = select (λ b. not (is_due force now b)) s.retry;
          retry_rows = s.retry_rows - batch_rows due;
        },
      )

  -- the second loop of `_retry_due`
  unfoldable pub retry_batches : List (Batch e) → State e → State e
  retry_batches [] s = s
  retry_batches (b ∷ bs) s =
      let (done, s') = insert b.mappings s in retry_batches bs (if done then s' else requeue b s')

  -- `_retry_due`; its early return on an empty queue comes after the clock is read
  unfoldable pub retry_due : Bool → State e → State e
  retry_due force s =
      let now = e.monotonic s.readings in
      let (due, s') = take_due force now (record s { readings = s.readings + 1 }) in
      retry_batches due s'

  -- the locked part of `_flush`
  unfoldable pub take_queue : State e → List e.Object × State e
  take_queue s = (s.queue, record s { queue = [] })

  unfoldable pub flush : State e → State e
  flush s = let (batch, s') = take_queue (retry_due false s) in write batch s'

  unfoldable pub pending_rows : State e → ℕ
  pending_rows s = length s.queue + s.retry_rows

  unfoldable pub saturated : State e → Bool
  saturated s = leb s.max_pending (pending_rows s)

  -- `_flush_loop`, the round after each sleep, while `_running` holds
  unfoldable pub flush_rounds : ℕ → State e → State e
  flush_rounds zero s = s
  flush_rounds (suc n) s = if s.running then flush_rounds n (flush s) else s

  -- `stop`, after the flush thread has joined; the number is what the last log line reports as lost
  unfoldable pub stop : State e → State e × ℕ
  stop s = let s' = retry_due true (flush (record s { running = false })) in (s', pending_rows s')

  -- `WriteBuffer.__init__`; `start` only sets `_running`
  unfoldable pub init : ℕ → ℕ → State e
  init max_size max_pending = record {
    max_size = max_size;
    max_pending = max_pending;
    queue = [];
    retry = [];
    retry_rows = 0;
    dropped = 0;
    running = false;
    written = [];
    inserts = 0;
    readings = 0;
  }
