-- ===== src/PeakFinder/Arithmetic.antt =====
-- Floating point as the navigation code uses it. A number is its bit pattern.
use navtechradar.Base.{ℕ, Bool}

pub record Doubles : Type 0 where
  pub less : ℕ → ℕ → Bool
  pub is_inf : ℕ → Bool
  pub plus : ℕ → ℕ → ℕ
  pub minus : ℕ → ℕ → ℕ
  pub times : ℕ → ℕ → ℕ
  pub over : ℕ → ℕ → ℕ
  pub negated : ℕ → ℕ
  -- (double)n, and (double)(n - m) for two integers
  pub of_number : ℕ → ℕ
  pub of_difference : ℕ → ℕ → ℕ
  -- (double)value of a float, and n * value of an integer and a float, which is a float
  pub of_float : ℕ → ℕ
  pub times_float : ℕ → ℕ → ℕ
  -- value / 2.0f
  pub halved : ℕ → ℕ
  -- total + std::pow(10.0f, value / 10.0f), and std::log10(total / n) * 10.0f
  pub power_added : ℕ → ℕ → ℕ
  pub decibels : ℕ → ℕ → ℕ
