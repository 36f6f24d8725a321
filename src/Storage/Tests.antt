-- ===== src/Storage/Tests.antt =====
-- was/app/retention.py, was/app/disk_guard.py: on numbers that are written as one code point.
use soltrace.Base.{ℕ, ◌≡◌, refl, true, Option, none, some, [], ◌∷◌}
use soltrace.Auth.Text.{Text}
use soltrace.Storage.DiskGuard.{Partition, Db, enforce}
use soltrace.Storage.DiskGuard.Victim.{Gives, enforce-Gives}

abbrev read_digit : Text → Option ℕ
read_digit [] = none
read_digit (c ∷ cs) = some c

abbrev write_digit : ℕ → Text
write_digit n = n ∷ []

abbrev same_text : Text → Text
same_text s = s

abbrev nearly_full : Text → Option ℕ
nearly_full path = some 934

abbrev db : Db
db = record {
  enabled = none;
  path = none;
  threshold = some (90 ∷ []);
  partitions =
      record { month = 24300; rows = 5 }
      ∷ record { month = 24298; rows = 7 }
      ∷ record { month = 24301; rows = 9 }
      ∷ record { month = 24290; rows = 0 }
      ∷ [];
  messages = [];
}

enforce-Gives_example : Gives 24301 db (enforce same_text read_digit nearly_full true 24301 db)
enforce-Gives_example = enforce-Gives same_text read_digit nearly_full true 24301 db

drops_oldest : (enforce same_text read_digit nearly_full true 24301 db).0 ≡ some 24298
unfolding enforce soltrace.Storage.DiskGuard.is_enabled soltrace.Storage.DiskGuard.get_threshold
    soltrace.Storage.DiskGuard.purgeable_partitions soltrace.Storage.DiskGuard.sort_months
    soltrace.Storage.DiskGuard.insert_month
drops_oldest = refl
