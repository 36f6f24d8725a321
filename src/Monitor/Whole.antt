-- ===== src/Monitor/Whole.antt =====
-- Whole numbers in the place of Python's floats, for the tests of what uses them.
use soltrace.Base.{
  ltb→le, le→ltb, ℕ, zero, suc, ◌+◌, ◌-◌, ◌*◌, ◌/◌, ◌≡◌, refl, ltb, true, false, arith,
}
use soltrace.Monitor.Float.{Float}

pub lt_irrefl : (a : ℕ) → ltb a a ≡ false
lt_irrefl a = ground arith

pub lt_trans : (a b c : ℕ) → ltb a b ≡ true → ltb b c ≡ true → ltb a c ≡ true
lt_trans a b c h k = ground arith

pub ge_trans : (a b c : ℕ) → ltb a b ≡ false → ltb b c ≡ false → ltb a c ≡ false
ge_trans a b c h k = ground arith

pub mean_ge : (a b : ℕ) → ltb b a ≡ false → ltb ((a + b) / 2) a ≡ false
mean_ge a b h = le→ltb _ _ (let k = ltb→le b a h in omega arith)

pub mean_le : (a b : ℕ) → ltb b a ≡ false → ltb b ((a + b) / 2) ≡ false
mean_le a b h = le→ltb _ _ (let k = ltb→le b a h in omega arith)

pub div_zero : (a : ℕ) → ltb 0 (0 / a) ≡ false
div_zero zero = refl
div_zero (suc a) = le→ltb _ _ (grind arith)

-- whole numbers in the place of floats, in percent
abbrev pub whole_numbers : Float
whole_numbers = record {
  R = ℕ;
  of_ℕ = λ n. n;
  ratio = λ n d. n / d;
  add = λ a b. a + b;
  sub = λ a b. a - b;
  mul = λ a b. a * b;
  div = λ a b. a / b;
  abs = λ a. a;
  lt = ltb;
  part = λ n p. n * p / 100;
  percent = λ a. "";
  megabytes = λ a. "";
  whole = λ a. "";
  trunc = λ a. a;
  show_ℕ = λ a. "";
  lt_irrefl = lt_irrefl;
  lt_trans = lt_trans;
  ge_trans = ge_trans;
  mean_ge = mean_ge;
  mean_le = mean_le;
  div_zero = div_zero;
}
