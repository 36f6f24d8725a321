-- ===== src/WriteBuffer/Tests.antt =====
-- Tests of the write buffer, and its theorems at concrete inputs.
use soltrace.Base.{
  ℕ, ◌+◌, ◌*◌, ◌≤◌, ◌≡◌, ◌==◌, refl, Bool, true, false, List, [], ◌∷◌, arith, length, leb, count,
}
use soltrace.WriteBuffer.{
  Env, State, Batch, Mapping, second, add, extend, write, flush, take_queue, retry_due, take_due,
  is_due, retry_batches, insert, requeue, defer, delay, push_retry, evict, drop_overflow,
  count_dropped, batch_rows, to_mappings, to_mapping, is_skipped, stop, pending_rows, init,
}
use soltrace.WriteBuffer.Counters.{IsValid}
use soltrace.WriteBuffer.Conservation.{SingleModel, Settles, held, held_rows}
use soltrace.WriteBuffer.Calls.{
  Call, adds, flushes, retries, stops, call, run, entered, run-Settles, run-IsValid,
}
use soltrace.WriteBuffer.Recovery.{stop_writes_all}
use soltrace.WriteBuffer.Threads.{
  Threads, Step, Run, here, next, accounted, as_batches, Run-accounted,
}

-- One model with a primary key and a column. The first two inserts fail, and the clock is read
-- once a second.
abbrev down_twice : Env
down_twice = record {
  Model = Unit;
  Object = ℕ;
  Value = ℕ;
  model_of = λ o. tt;
  columns = λ m. "id" ∷ "device_id" ∷ [];
  attr = λ o key. o;
  commits = λ n. leb 2 n;
  monotonic = λ n. n * second;
}

abbrev start : State down_twice
start = init down_twice 3 4

-- Two rows wait, the flush fails, the retry fails; the stop writes the third row, then those two.
abbrev calls : List (Call down_twice)
calls = adds (7 ∷ 8 ∷ []) ∷ flushes ∷ retries true ∷ adds (9 ∷ []) ∷ stops ∷ []

one_model : SingleModel down_twice
one_model a b = refl

start-IsValid : IsValid down_twice start
unfolding init batch_rows
start-IsValid = ground arith

abbrev is_seven : Mapping down_twice → Bool
is_seven [] = false
is_seven ((key, value) ∷ _) = value == 7

run_writes_all :
    let s = run down_twice calls start in
    (s.written ≡ (("device_id", 9) ∷ []) ∷ (("device_id", 7) ∷ []) ∷ (("device_id", 8) ∷ []) ∷ [])
    × (s.dropped ≡ 0)
    × (s.inserts ≡ 4)
unfolding run call add extend write flush take_queue retry_due take_due is_due retry_batches insert
    requeue defer delay push_retry evict drop_overflow count_dropped batch_rows to_mappings
    to_mapping is_skipped stop pending_rows init
run_writes_all = (refl, refl, refl)

run-Settles_example :
    Settles down_twice is_seven (entered down_twice calls) start (run down_twice calls start)
run-Settles_example = run-Settles down_twice one_model is_seven calls start

run-IsValid_example : IsValid down_twice (run down_twice calls start)
run-IsValid_example = run-IsValid down_twice calls start start-IsValid

abbrev failed : Batch down_twice
failed = record { model = tt; mappings = (("device_id", 7) ∷ []) ∷ []; attempts = 2; next_at = 0 }

abbrev backing_off : State down_twice
backing_off = record start { retry = record failed { next_at = 5 * second } ∷ []; retry_rows = 1 }

-- after the two failures
abbrev recovered : State down_twice
recovered = record start {
  queue = 8 ∷ [];
  retry = record failed { next_at = 5 * second } ∷ [];
  retry_rows = 1;
  inserts = 2;
}

stop_writes_all_example :
    let (s', lost) = stop down_twice recovered in
    (lost ≡ 0)
    × (s'.dropped ≡ recovered.dropped)
    × (held down_twice is_seven recovered ≤ count is_seven s'.written)
    × (held_rows down_twice recovered ≡ length s'.written)
unfolding init batch_rows
stop_writes_all_example =
    stop_writes_all down_twice one_model recovered (omega arith) (λ k h. ground arith) is_seven

abbrev idle : Threads down_twice
idle = record { shared = start; moving = []; doomed = [] }

-- A request thread hands in three rows, which fill the queue, and the batch is then in its hands.
abbrev handed_in : Threads down_twice
handed_in = record {
  shared = (extend down_twice (7 ∷ 8 ∷ 9 ∷ []) start).1;
  moving = as_batches down_twice (extend down_twice (7 ∷ 8 ∷ 9 ∷ []) start).0;
  doomed = [];
}

one_step : Run down_twice idle handed_in 3
one_step = next here (Step.adds (7 ∷ 8 ∷ 9 ∷ []) 3 (omega arith) refl) (omega arith)

Run-accounted_example :
    (accounted down_twice handed_in ≡ accounted down_twice idle + 3)
    × IsValid down_twice handed_in.shared
Run-accounted_example = Run-accounted down_twice one_step start-IsValid
