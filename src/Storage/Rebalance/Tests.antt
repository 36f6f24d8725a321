-- ===== src/Storage/Rebalance/Tests.antt =====
-- was/app/rebalance.py: a short script, and its job.
use soltrace.Base.{
  arith, ℕ, zero, suc, ◌≡◌, ◌↔◌, refl, true, false, Option, none, some, List, [], ◌∷◌, ◌++◌,
}
use soltrace.Auth.Text.{Text, codes}
use soltrace.Storage.Rebalance.Scan.{pieces, statements}
use soltrace.Storage.Rebalance.Grammar.{
  Token, plain, comment, quoted, tagged, semicolon, print_all, cut, pieces-print_all,
}
use soltrace.Storage.Rebalance.Job.{
  breaks_off, begun, Answer, done, raises, script, run, idle, start, closed, Shop, Steps, none_yet,
  and_step, starts_job,
}
use soltrace.Storage.Rebalance.Outcome.{IsSingle, Steps-IsSingle, Answered, run-ok}

-- `a--;` and a newline, `';'';'`, `$q$;$q$`, `;`, `b`
abbrev tokens : List Token
tokens =
    plain b'a'
    ∷ comment (codes ";")
    ∷ plain 10
    ∷ quoted (codes ";';")
    ∷ tagged (codes "q") (codes ";")
    ∷ semicolon
    ∷ plain b'b'
    ∷ []

pieces-print_all_example : pieces (print_all tokens) ≡ cut tokens
unfolding soltrace.Daemon.Extended.starts
pieces-print_all_example = pieces-print_all tokens (
  (refl, refl, refl, refl),
  (
    ((refl, tt), refl),
    (
      (refl, refl, refl, refl),
      (refl, (((refl, tt), (refl, tt)), (tt, ((refl, refl, refl, refl), tt)))),
    ),
  ),
)

abbrev sql : Text
sql = codes "SELECT ';' -- x;" ++ 10 ∷ codes "; ; DO $$ a; $$; -- end"

two_statements : statements sql ≡ (codes "SELECT ';' -- x;" ∷ codes "DO $$ a; $$" ∷ [])
unfolding statements pieces soltrace.Storage.Rebalance.Scan.scan
    soltrace.Storage.Rebalance.Scan.next_token soltrace.Storage.Rebalance.Scan.to_newline
    soltrace.Storage.Rebalance.Scan.to_quote soltrace.Storage.Rebalance.Scan.to_tag
    soltrace.Storage.Rebalance.Scan.tag_end soltrace.Storage.Rebalance.Scan.uncomment
    soltrace.Auth.Text.strip soltrace.Auth.Text.lstrip soltrace.Auth.Text.rstrip
    soltrace.Auth.Text.is_space soltrace.Daemon.Extended.starts
two_statements = refl

-- the second statement fails
abbrev execute : ℕ → Text → Answer
execute zero s = done
execute (suc n) s = raises (codes " no rows ")

abbrev silent : ℕ → List Text
silent n = []

stopped : (run execute silent [] 9 none (script sql) idle).message ≡ codes "no rows"
unfolding run statements pieces soltrace.Storage.Rebalance.Scan.scan
    soltrace.Storage.Rebalance.Scan.next_token soltrace.Storage.Rebalance.Scan.to_newline
    soltrace.Storage.Rebalance.Scan.to_quote soltrace.Storage.Rebalance.Scan.to_tag
    soltrace.Storage.Rebalance.Scan.tag_end soltrace.Storage.Rebalance.Scan.uncomment
    soltrace.Auth.Text.strip soltrace.Auth.Text.lstrip soltrace.Auth.Text.rstrip
    soltrace.Auth.Text.is_space soltrace.Daemon.Extended.starts
    soltrace.Storage.Rebalance.Job.run_statements soltrace.Storage.Rebalance.Job.finish
    soltrace.Storage.Rebalance.Job.first_line soltrace.Auth.Text.is_break
stopped = refl

abbrev connected : Option Text
connected = none

run-ok_example :
    ((run execute silent [] 9 connected (script sql) idle).running ≡ false)
    × (((run execute silent [] 9 connected (script sql) idle).ok ≡ some true)
        ↔ ((connected ≡ none) × Answered execute (statements sql) 0))
run-ok_example = run-ok execute silent [] 9 connected sql idle

abbrev busy : Shop
busy = record { job = (start 5 idle).1; threads = 1 }

-- a job, and a second call that is refused
busy-Steps : Steps closed busy
unfolding start
busy-Steps = and_step (and_step none_yet (starts_job 5 refl)) (starts_job 7 refl)

Steps-IsSingle_example : IsSingle busy
Steps-IsSingle_example = Steps-IsSingle busy busy-Steps

-- a thread that broke off leaves the state as of a running job
stuck-Steps : Steps closed (record { job = begun 5; threads = 0 })
unfolding start
stuck-Steps = and_step (and_step none_yet (starts_job 5 refl)) (breaks_off (λ e. ground arith) refl)
