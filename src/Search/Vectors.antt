-- ===== src/Search/Vectors.antt =====
-- Rust's `f32`, as far as the search uses it: a parameter, since the language here has no floats.
use agentme.Prelude.{ℕ, Bool}

pub record F32 (R : Type 0) : Type 0 where
  pub zero : R
  pub one : R
  pub two : R
  pub tenth : R
  pub three_tenths : R
  -- `as f32` of an `i32` and of a `usize`.
  pub of_count : ℕ → R
  pub sum : R → R → R
  pub product : R → R → R
  pub quotient : R → R → R
  pub sqrt : R → R
  pub is_equal : R → R → Bool
  pub less : R → R → Bool
  pub at_least : R → R → Bool
