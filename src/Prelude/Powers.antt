-- ===== src/Prelude/Powers.antt =====
-- Powers of two, for the backoff arithmetic.
use Prim.Native.Nat.{ℕ, zero, suc, ◌+◌, ◌*◌, ◌^◌, ◌≤◌}
use mathlib.Core.Path.{◌≡◌}
use native.Mathlib.Nat.{add-zero, add-suc, mul-one, mul_assoc, pow-zero, pow-suc, pow-le-pow_right}
use native.Mathlib.Omega.{arith}

pub pow-add_two : (a b : ℕ) → 2 ^ (a + b) ≡ 2 ^ a * 2 ^ b
pow-add_two a zero = simp (add-zero, pow-zero, mul-one)
pow-add_two a (suc b) = simp (add-suc, pow-suc, pow-add_two a b, mul_assoc)

pub pow-mono_two : (a b : ℕ) → a ≤ b → 2 ^ a ≤ 2 ^ b
pow-mono_two a b h = pow-le-pow_right (omega arith) h
