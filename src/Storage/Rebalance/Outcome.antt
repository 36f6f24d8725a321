-- ===== src/Storage/Rebalance/Outcome.antt =====
-- was/app/rebalance.py: one job at a time, and what its state says of its run.
use soltrace.Base.{
  inr, inl, ◌==◌, Bool-cases, ◌≢◌, ◌≤◌, ◌↔◌, ℕ, suc, ◌≡◌, refl, Bool, true, false, Option, none,
  some, List, [], ◌∷◌, ◌++◌, if◌then◌else◌, arith,
}
use soltrace.Auth.Text.{Text}
use soltrace.Storage.Rebalance.Scan.{statements}
use soltrace.Storage.Rebalance.Job.{
  Job, start_if, start, finish, script, Answer, done, rows, raises, left_notice, Ran, after_answer,
  run_statements, conclude, run_with, run, Shop, Step, starts_job, ends_job, breaks_off, Steps,
  none_yet, and_step, closed,
}

-- at most one thread, and the state says so while it runs
abbrev pub IsSingle : Shop → Type 0
IsSingle s = (s.threads ≤ 1) × (s.threads ≢ 0 → s.job.running ≡ true)

start_if-IsSingle :
    (running : Bool) (now : ℕ) (job : Job) (threads : ℕ)
    → job.running ≡ running
    → threads ≤ 1
    → (threads ≢ 0 → running ≡ true)
    → (let (taken, after) = start_if running now job in
        ((if taken then suc threads else threads) ≤ 1)
        × ((if taken then suc threads else threads) ≢ 0 → after.running ≡ true))
start_if-IsSingle true now job threads r h k = (h, λ z. r)
start_if-IsSingle false now job threads r h k = elim (Bool-cases (threads == 0)) [
  | inl e ↦ (ground (arith, e), λ z. refl)
  | inr e ↦ cc (k (λ z. ground (arith, z, e)))
]

Step-IsSingle : (s t : Shop) → Step s t → IsSingle s → IsSingle t
unfolding start finish
Step-IsSingle s t (starts_job now e) h =
    rw e (start_if-IsSingle s.job.running now s.job s.threads refl h.0 h.1)
Step-IsSingle s t (ends_job ok message notices now p e) h =
    rw e (omega (arith, h.0), λ z. absurd (z (omega (arith, h.0))))
Step-IsSingle s t (breaks_off p e) h =
    rw e (omega (arith, h.0), λ z. absurd (z (omega (arith, h.0))))

-- In any sequence of calls of start and of threads that end, through _finish or by an exception
-- that they do not catch, from the state at the import, at most one thread runs, and while one
-- runs the state says that the job is running.
pub Steps-IsSingle : (s : Shop) → Steps closed s → IsSingle s
Steps-IsSingle s none_yet = (omega arith, λ z. absurd (z refl))
Steps-IsSingle s (and_step {t} steps step) = Step-IsSingle t s step (Steps-IsSingle t steps)

module _ (execute : ℕ → Text → Answer) where
  abbrev pub is_raised : Answer → Bool
  is_raised (raises error) = true
  is_raised _ = false

  -- the statements, of which the first is the n-th, are answered without an exception
  abbrev pub Answered : List Text → ℕ → Type 0
  Answered [] n = Unit
  Answered (s ∷ ss) n = (is_raised (execute n s) ≡ false) × Answered ss (suc n)

  after_answer-error :
      (a : Answer) (n : ℕ) (found : List Text) (go_on : List Text → Ran)
      → is_raised a ≡ false
      → (more : List Text) × (after_answer execute n found go_on a ≡ go_on more)
  after_answer-error done n found go_on h = (found, refl)
  after_answer-error (rows rs) n found go_on h = (found ++ left_notice rs, refl)
  after_answer-error (raises error) n found go_on h = cc h

  -- The loop ends without an exception exactly when all statements are answered, and then it has
  -- executed all of them.
  run_statements-error :
      (ss : List Text) (n : ℕ) (found : List Text)
      → Answered ss n
      → (run_statements execute ss n found).error ≡ none
  unfolding run_statements
  run_statements-error [] n found h = refl
  run_statements-error (s ∷ ss) n found h =
      let (more, e) =
        after_answer-error (execute n s) n found (λ m. run_statements execute ss (suc n) m) h.0 in
      rw e (run_statements-error ss (suc n) more h.1)

  after_answer-Answered :
      (a : Answer) (n : ℕ) (ss found : List Text) (go_on : List Text → Ran)
      → ((more : List Text) → (go_on more).error ≡ none → Answered ss (suc n))
      → (after_answer execute n found go_on a).error ≡ none
      → (is_raised a ≡ false) × Answered ss (suc n)
  after_answer-Answered done n ss found go_on f h = (refl, f _ h)
  after_answer-Answered (rows rs) n ss found go_on f h = (refl, f _ h)
  after_answer-Answered (raises error) n ss found go_on f h = cc h

  run_statements-Answered :
      (ss : List Text) (n : ℕ) (found : List Text)
      → (run_statements execute ss n found).error ≡ none
      → Answered ss n
  unfolding run_statements
  run_statements-Answered [] n found h = tt
  run_statements-Answered (s ∷ ss) n found h =
      after_answer-Answered (execute n s) n ss found (λ m. run_statements execute ss (suc n) m)
        (run_statements-Answered ss (suc n)) h

  module _ (raised : ℕ → List Text) where
    -- what the state says of a run whose exception is `error`
    conclude-ok :
        (now : ℕ) (ran : Ran) (error : Option Text) (job : Job)
        → ((conclude execute raised now ran error job).running ≡ false)
          × (((conclude execute raised now ran error job).ok ≡ some true) ↔ (error ≡ none))
    unfolding finish
    conclude-ok now ran none job = (refl, (λ _. refl, λ _. refl))
    conclude-ok now ran (some error) job = (refl, (λ h. cc h, λ h. cc h))

    run_with-ok :
        (now : ℕ) (refused : Option Text) (sql : Text) (job : Job)
        → ((run_with execute raised now refused sql job).running ≡ false)
          × (((run_with execute raised now refused sql job).ok ≡ some true)
              ↔ ((refused ≡ none) × Answered (statements sql) 0))
    unfolding finish
    run_with-ok now (some error) sql job = (refl, (λ h. cc h, λ h. cc h.0))
    run_with-ok now none sql job =
        let ran = run_statements execute (statements sql) 0 [] in
        let (r, k) = conclude-ok now ran ran.error job in
        (
          r,
          (
            λ h. (refl, run_statements-Answered (statements sql) 0 [] (k.0 h)),
            λ h. k.1 (run_statements-error (statements sql) 0 [] h.1),
          ),
        )

    -- A run of a script that can be read always ends the job, and the state says that it went
    -- well exactly if the connection was made and no statement of the script was answered by an
    -- exception.
    pub run-ok :
        (path : Text) (now : ℕ) (refused : Option Text) (sql : Text) (job : Job)
        → ((run execute raised path now refused (script sql) job).running ≡ false)
          × (((run execute raised path now refused (script sql) job).ok ≡ some true)
              ↔ ((refused ≡ none) × Answered (statements sql) 0))
    unfolding run
    run-ok path now refused sql job = run_with-ok now refused sql job
