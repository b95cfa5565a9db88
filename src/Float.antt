-- ===== src/Float.antt =====
-- Rust's `f64`, as far as the node uses it: a parameter, since the language here has no floats. No
-- theorem assumes more of an instance than it says.
use agentme.Prelude.{ℕ, Bool}

pub record F64 (F : Type 0) : Type 0 where
  pub zero : F
  pub one : F
  pub tenth : F
  pub nine_tenths : F
  -- `as f64` of a `u64`, and `as u64`, which stops at the bounds of `u64`.
  pub from_u64 : ℕ → F
  pub to_u64 : F → ℕ
  pub sum : F → F → F
  pub product : F → F → F
  pub quotient : F → F → F
  -- `x.clamp(low, high)`.
  pub clamp : F → F → F → F
  pub at_least : F → F → Bool

-- More of `f64`, for the trust scores.
pub record F64Math (F : Type 0) : Type 0 where
  pub base : F64 F
  -- The literal of the fraction `n / d`.
  pub literal : ℕ → ℕ → F
  pub difference : F → F → F
  pub root : F → F
  pub lesser : F → F → F
  pub magnitude : F → F
  -- `powi` with a `u32` as its exponent, which the code casts to `i32`.
  pub power : F → ℕ → F
  pub less : F → F → Bool
