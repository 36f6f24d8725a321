-- ===== src/Storage/Rebalance/Job.antt =====
-- was/app/rebalance.py: `_run` on the statements of the script, and the state that `start` and
-- `_finish` change under the lock. The n-th statement is answered by the database, and `raised n` are
-- the notices that the driver has collected when n statements were sent.
use soltrace.Base.{
  ◌≢◌, ℕ, suc, ◌-◌, ◌==◌, ◌≡◌, Bool, true, false, Option, none, some, List, [], ◌∷◌, ◌++◌, map,
  length, drop, if◌then◌else◌,
}
use soltrace.Auth.Text.{Text, is_empty, is_break, strip, lstrip, codes}
use soltrace.Auth.Text.Split.{join}
use soltrace.Daemon.Extended.{starts}
use soltrace.Storage.Rebalance.Scan.{statements}

-- `_state`
pub record Job : Type 0 where
  pub running : Bool
  pub started_at : Option ℕ
  pub finished_at : Option ℕ
  pub ok : Option Bool
  pub message : Text
  pub notices : List Text

abbrev pub idle : Job
idle = record {
  running = false;
  started_at = none;
  finished_at = none;
  ok = none;
  message = [];
  notices = [];
}

abbrev pub begun : ℕ → Job
begun now = record {
  running = true;
  started_at = some now;
  finished_at = none;
  ok = none;
  message = codes "재배치를 진행하고 있습니다.";
  notices = [];
}

-- the locked section of `start`
abbrev pub start_if : Bool → ℕ → Job → Bool × Job
start_if true now job = (false, job)
start_if false now job = (true, begun now)

unfoldable pub start : ℕ → Job → Bool × Job
start now job = start_if job.running now job

unfoldable pub finish : Bool → Text → List Text → ℕ → Job → Job
finish ok message notices now job = record job {
  running = false;
  ok = some ok;
  message = message;
  notices = notices;
  finished_at = some now;
}

-- what reading the file gives: its text, an OSError, or a UnicodeDecodeError
pub data Script : Type 0 where
  script : Text → Script
  unreadable : Script
  undecodable : Script

-- no result, the rows of a result, or an exception with its text
pub data Answer : Type 0 where
  done : Answer
  rows : List (List Text) → Answer
  raises : Text → Answer

-- `re.sub(r"^(NOTICE|WARNING|알림|경고)\s*:\s*", "", n)`
abbrev pub after_colon : Text → Text → Text
after_colon notice [] = notice
after_colon notice (c ∷ cs) = if c == 58 then lstrip cs else notice

abbrev pub without : Text → Text → Option Text
without label notice =
    if starts label notice
    then some (after_colon notice (lstrip (drop (length label) notice)))
    else none

abbrev pub or_next : Option Text → Text → Text
or_next none other = other
or_next (some s) other = s

unfoldable pub strip_label : Text → Text
strip_label n = or_next (without (codes "NOTICE") n) (
    or_next (without (codes "WARNING") n)
      (or_next (without (codes "알림") n) (or_next (without (codes "경고") n) n)))

unfoldable pub drain_notices : List Text → List Text
drain_notices raw = map (λ n. strip_label (strip n)) raw

-- the first of `splitlines`
unfoldable pub first_line : Text → Text
first_line [] = []
first_line (c ∷ cs) = let rest = first_line cs in if is_break c then [] else c ∷ rest

abbrev pub failure_text : Text → Text
failure_text error =
    let stripped = strip error in
    if is_empty stripped then codes "재배치에 실패했습니다." else first_line stripped

-- `", ".join`
abbrev pub join_comma : List Text → Text
join_comma [] = []
join_comma (p ∷ []) = p
join_comma (p ∷ q ∷ qs) = p ++ codes ", " ++ join_comma (q ∷ qs)

abbrev pub left_notice : List (List Text) → List Text
left_notice [] = []
left_notice (row ∷ more) =
    (codes "붙지 않은 테이블: "
      ++ join_comma (map (λ r. join 32 r) (row ∷ more))
      ++ codes " — 다시 실행하면 마저 붙입니다")
    ∷ []

-- How many statements were sent, the exception that ended the loop, and the notices of the results.
pub record Ran : Type 0 where
  pub executed : ℕ
  pub error : Option Text
  pub found : List Text

module _ (execute : ℕ → Text → Answer) where
  -- the loop over the statements; `go_on` is the rest of it
  abbrev pub after_answer : ℕ → List Text → (List Text → Ran) → Answer → Ran
  after_answer n found go_on done = go_on found
  after_answer n found go_on (rows rs) = go_on (found ++ left_notice rs)
  after_answer n found go_on (raises error) = record {
    executed = suc n;
    error = some error;
    found = found;
  }

  unfoldable pub run_statements : List Text → ℕ → List Text → Ran
  run_statements [] n found = record { executed = n; error = none; found = found }
  run_statements (s ∷ ss) n found =
      after_answer n found (λ more. run_statements ss (suc n) more) (execute n s)

  module _ (raised : ℕ → List Text) where
    abbrev pub conclude : ℕ → Ran → Option Text → Job → Job
    conclude now ran none job =
        finish true (codes "재배치를 마쳤습니다.") (drain_notices (raised ran.executed) ++ ran.found) now job
    conclude now ran (some error) job =
        finish false (failure_text error) (drain_notices (raised ran.executed) ++ ran.found) now job

    -- with a connection, or with the exception of the connection
    abbrev pub run_with : ℕ → Option Text → Text → Job → Job
    run_with now (some error) sql job = finish false (failure_text error) [] now job
    run_with now none sql job =
        let ran = run_statements (statements sql) 0 [] in conclude now ran ran.error job

    -- `_run`; an exception that it does not catch ends the thread and leaves the state
    unfoldable pub run : Text → ℕ → Option Text → Script → Job → Job
    run path now refused unreadable job =
        finish false (codes "재배치 스크립트를 읽을 수 없습니다: " ++ path) [] now job
    run path now refused undecodable job = job
    run path now refused (script sql) job = run_with now refused sql job

-- A job and its threads: any number of calls of `start`, and threads that end.
pub record Shop : Type 0 where
  pub job : Job
  pub threads : ℕ

pub data Step (s t : Shop) : Type 0 where
  -- a call of `start` that is taken starts a thread
  starts_job :
      (now : ℕ)
      → t ≡ (
          let (taken, job) = start now s.job in
          record { job = job; threads = if taken then suc s.threads else s.threads })
      → Step s t
  -- a thread ends through `_finish`
  ends_job :
      (ok : Bool) (message : Text) (notices : List Text) (now : ℕ)
      → s.threads ≢ 0
      → t ≡ record { job = finish ok message notices now s.job; threads = s.threads - 1 }
      → Step s t
  -- a thread ends by an exception that `_run` does not catch, as of a script that is not text
  breaks_off : s.threads ≢ 0 → t ≡ record s { threads = s.threads - 1 } → Step s t

pub data Steps (s : Shop) : Shop → Type 0 where
  none_yet : Steps s s
  and_step : {t u : Shop} → Steps s t → Step t u → Steps s u

abbrev pub closed : Shop
closed = record { job = idle; threads = 0 }
