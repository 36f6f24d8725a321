-- ===== src/Monitor/Float.antt =====
-- Python's `float` as was/app/service_monitor.py uses it. There are no floats in the logic: the
-- type and its operations are a parameter, with laws that hold where no number is NaN, no operation
-- overflows and no divisor is zero.
use soltrace.Base.{arith, ℕ, ◌≡◌, Bool, true, false, ◌||◌, String, if◌then◌else◌}

pub record Float : Type 1 where
  pub R : Type 0
  pub of_ℕ : ℕ → R
  -- the literal n/d, such as 0.5 as `ratio 1 2`
  pub ratio : ℕ → ℕ → R
  pub add : R → R → R
  pub sub : R → R → R
  pub mul : R → R → R
  pub div : R → R → R
  pub abs : R → R
  pub lt : R → R → Bool
  -- `int(n * p)`, for p ≥ 0
  pub part : ℕ → R → ℕ
  -- `f"{100 * x:.1f}"`, `f"{x / 1048576:.2f}"`, `f"{x:.0f}"`, `int(x)` and `f"{n}"`
  pub percent : R → String
  pub megabytes : R → String
  pub whole : R → String
  pub trunc : R → ℕ
  pub show_ℕ : ℕ → String
  pub lt_irrefl : (a : R) → lt a a ≡ false
  -- `<` and, in this form, its negation are transitive
  pub lt_trans : (a b c : R) → lt a b ≡ true → lt b c ≡ true → lt a c ≡ true
  pub ge_trans : (a b c : R) → lt a b ≡ false → lt b c ≡ false → lt a c ≡ false
  -- the mean of two numbers lies between them
  pub mean_ge : (a b : R) → lt b a ≡ false → lt (div (add a b) (of_ℕ 2)) a ≡ false
  pub mean_le : (a b : R) → lt b a ≡ false → lt b (div (add a b) (of_ℕ 2)) ≡ false
  -- zero divided by a number is not above zero
  pub div_zero : (a : R) → lt (of_ℕ 0) (div (of_ℕ 0) a) ≡ false

module _ (f : Float) where
  open f use {R, of_ℕ, lt}

  -- `max(a, b)`, `min(a, b)` and the truth value of a number
  abbrev pub max_of : R → R → R
  max_of a b = if lt a b then b else a

  abbrev pub min_of : R → R → R
  min_of a b = if lt b a then b else a

  abbrev pub is_nonzero : R → Bool
  is_nonzero a = lt a (of_ℕ 0) || lt (of_ℕ 0) a

  -- What exceeds a maximum exceeds both, and what is below a minimum is below both.
  pub lt-max_of : (a b v : R) → lt (max_of a b) v ≡ true → lt b v ≡ true
  lt-max_of a b v h = ground (arith, f.ge_trans a b v)

  pub lt-min_of : (a b v : R) → lt v (min_of a b) ≡ true → (lt v a ≡ true) × (lt v b ≡ true)
  lt-min_of a b v h = ground (arith, f.ge_trans v b a, f.lt_trans v b a)
