-- ===== src/Storage/Retention.antt =====
-- was/app/retention.py. `int_of` is `int(str(raw).strip())`: none for what it refuses, and for a
-- negative number, which is as far out of range.
use soltrace.Base.{
  ℕ, ◌≤◌, ◌≡◌, leb, ◌&&◌, not, Bool, Bool-cases, inl, inr, Option, none, some, if◌then◌else◌, arith,
}
use soltrace.Auth.Text.{Text}

abbrev pub default_retention_months : ℕ
default_retention_months = 36

abbrev pub min_retention_months : ℕ
min_retention_months = 1

abbrev pub max_retention_months : ℕ
max_retention_months = 120

abbrev pub is_in_range : ℕ → ℕ → ℕ → Bool
is_in_range low high n = leb low n && leb n high

abbrev pub months_or_default : Option ℕ → ℕ
months_or_default none = default_retention_months
months_or_default (some months) =
    if not (is_in_range min_retention_months max_retention_months months)
    then default_retention_months
    else months

abbrev pub parse : (Text → Option ℕ) → Option Text → Option ℕ
parse int_of none = none
parse int_of (some raw) = int_of raw

unfoldable pub get_retention_months : (Text → Option ℕ) → Option Text → ℕ
get_retention_months int_of raw = months_or_default (parse int_of raw)

-- the value that is stored, or none for the ValueError
unfoldable pub set_retention_months : (ℕ → Text) → ℕ → Option Text
set_retention_months show months =
    if not (is_in_range min_retention_months max_retention_months months)
    then none
    else some (show months)

months-bounds :
    (m : Option ℕ)
    → (min_retention_months ≤ months_or_default m) × (months_or_default m ≤ max_retention_months)
months-bounds none = (omega arith, omega arith)
months-bounds (some m) = ground arith

-- Whatever is stored, the retention lies between the least and the greatest number of months.
pub get_retention_months-bounds :
    (int_of : Text → Option ℕ) (raw : Option Text)
    → (min_retention_months ≤ get_retention_months int_of raw)
      × (get_retention_months int_of raw ≤ max_retention_months)
unfolding get_retention_months
get_retention_months-bounds int_of raw = months-bounds (parse int_of raw)

-- A retention that `set_retention_months` takes is the one that is read afterwards, if numbers
-- are read as they are written.
pub get-set_retention_months :
    (int_of : Text → Option ℕ) (show : ℕ → Text) (months : ℕ) (stored : Text)
    → ((n : ℕ) → int_of (show n) ≡ some n)
    → set_retention_months show months ≡ some stored
    → get_retention_months int_of (some stored) ≡ months
unfolding get_retention_months set_retention_months
get-set_retention_months int_of show months stored reads h =
    elim (Bool-cases (is_in_range min_retention_months max_retention_months months)) [
      | inr out ↦ ground arith
      | inl within ↦ ground (arith, reads months)
    ]
