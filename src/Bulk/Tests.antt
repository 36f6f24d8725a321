-- ===== src/Bulk/Tests.antt =====
-- ftp-daemon/soltrace_bulk.py: the loader on a few entries, with a server that is down at first.
use soltrace.Base.{
  ℕ, zero, suc, ◌≡◌, refl, Bool, true, false, Option, none, some, List, [], ◌∷◌, All,
}
use soltrace.Bulk.{Args, run_bulk, iter_files, bounded_size, sorted_names}
use soltrace.Bulk.Accounts.{IsExact, was_taken, wanted, run_bulk-IsExact}

abbrev args : Args
args = record {
  transfer_log = 116 ∷ [];
  extended_log = 101 ∷ [];
  date_from = some 3;
  date_to = none;
  batch_size = 2;
  dry_run = false;
  no_extended = false;
  no_transfer = false;
}

-- the registration and the first two posts of logs fail
abbrev up_later : ℕ → Bool
up_later zero = false
up_later (suc zero) = false
up_later (suc (suc zero)) = false
up_later (suc (suc (suc n))) = true

abbrev transfers : List ℕ
transfers = 5 ∷ 6 ∷ 7 ∷ []

abbrev extended_entries : List ℕ
extended_entries = 8 ∷ []

lost_first :
    (run_bulk up_later args transfers extended_entries).1.flushed
    ≡ (5 ∷ 6 ∷ [], false ∷ false ∷ []) ∷ (7 ∷ [], true ∷ []) ∷ (8 ∷ [], true ∷ []) ∷ []
unfolding run_bulk soltrace.Bulk.load soltrace.Bulk.flush_batch bounded_size
lost_first = refl

run_bulk-IsExact_example :
    (let (succeeded, r) = run_bulk up_later args transfers extended_entries in
      IsExact false (bounded_size 2) (wanted args transfers extended_entries) r
      × (r.batch ≡ [])
      × (succeeded ≡ true → args.dry_run ≡ false → All (λ b. was_taken b.1 ≡ true) r.flushed))
run_bulk-IsExact_example = run_bulk-IsExact up_later args transfers extended_entries

-- a line is its number, and an odd line is noise; the dates leave 2 out
abbrev parse_even : ℕ → ℕ → Option ℕ × ℕ
parse_even zero st = (none, st)
parse_even (suc zero) st = (none, st)
parse_even (suc (suc n)) st = (some (suc (suc n)), suc st)

abbrev two_files : List ℕ → Option (List ℕ)
two_files [] = some (2 ∷ 4 ∷ [])
two_files (c ∷ cs) = some (1 ∷ c ∷ [])

read_in_order :
    iter_files parse_even
      (λ e. some e)
      (some 3)
      none
      (λ p. (9 ∷ []) ∷ [] ∷ (7 ∷ []) ∷ [])
      two_files
      []
      0
    ≡ (4 ∷ 7 ∷ 9 ∷ [], 4)
unfolding iter_files soltrace.Bulk.iter_all soltrace.Bulk.iter_lines sorted_names
    soltrace.Bulk.insert_name soltrace.Bulk.text_leb
read_in_order = refl
