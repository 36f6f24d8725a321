-- ===== src/Monitor/Stats.antt =====
-- was/app/service_monitor.py: `_median`, `_percentile`, `_mad`.
pub mod Ranks
use soltrace.Base.{
  ℕ, zero, suc, ◌-◌, ◌/◌, ◌%◌, ◌==◌, min, Option, none, some, List, [], ◌∷◌, map, length, Bool,
  true, false, if◌then◌else◌,
}
use soltrace.Base.Index.{get_elem?}
use soltrace.Monitor.Float.{Float}

module _ (f : Float) where
  open f use {R, of_ℕ, add, sub, div, abs, lt, part}

  -- `sorted`, which keeps equal values in their order
  unfoldable pub insert_sorted : R → List R → List R
  insert_sorted x [] = x ∷ []
  insert_sorted x (y ∷ ys) = if lt y x then y ∷ insert_sorted x ys else x ∷ y ∷ ys

  unfoldable pub sorted : List R → List R
  sorted [] = []
  sorted (x ∷ xs) = insert_sorted x (sorted xs)

  abbrev pub mean_of : Option R → Option R → Option R
  mean_of (some a) (some b) = some (div (add a b) (of_ℕ 2))
  mean_of _ _ = none

  unfoldable pub median : List R → Option R
  median xs =
      let s = sorted xs in
      let n = length s in
      let m = n / 2 in
      if n == 0
      then none
      else if n % 2 == 0
      then mean_of (get_elem? s (m - 1)) (get_elem? s m)
      else get_elem? s m

  unfoldable pub percentile : List R → R → Option R
  percentile xs p =
      let s = sorted xs in
      if length s == 0 then none else get_elem? s (min (part (length s) p) (length s - 1))

  abbrev pub or_zero : Option R → R
  or_zero none = of_ℕ 0
  or_zero (some x) = x

  -- `_median([…]) or 0.0`
  unfoldable pub mad : List R → R → R
  mad xs med = or_zero (median (map (λ x. abs (sub x med)) xs))
