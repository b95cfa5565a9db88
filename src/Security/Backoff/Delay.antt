-- ===== src/Security/Backoff/Delay.antt =====
-- The delay grows with the failures, as long as its 32-bit multiplier does not wrap.
use agentme.Prelude.{ℕ, zero, suc, ◌+◌, ◌-◌, ◌*◌, ◌^◌, ◌≤◌, ◌<◌, ◌≡◌, refl, min, arith, ap}
use native.Mathlib.Nat.{mul-le-mul_left}
use agentme.Prelude.Powers.{pow-add_two, pow-mono_two}
use agentme.Security.Backoff.{ConnectionRateLimiter, multiplier, calculate_delay, duration_max}

multiplier_exact : (e : ℕ) → e < 32 → multiplier e ≡ 2 ^ e
unfolding multiplier
multiplier_exact e h = omega (arith, pow-mono_two e 31 (omega arith))

multiplier_wrapped : (e : ℕ) → 32 ≤ e → e < 64 → multiplier e ≡ 0
unfolding multiplier
multiplier_wrapped e h k =
    omega (arith, split, pow-add_two (e - 32) 32, pow-mono_two e 63 (omega arith))
  where
    split : 2 ^ e ≡ 2 ^ (e - 32 + 32)
    split = ap (λ n. 2 ^ n) (omega arith)

-- The delay after `f` failures.
delay_exact :
    (l : ConnectionRateLimiter) (f : ℕ)
    → f < 32
    → calculate_delay l (suc f) ≡ min (min (l.base_delay * 2 ^ f) duration_max) l.max_delay
unfolding calculate_delay
delay_exact l f h = rw (multiplier_exact f h)

-- Each further failure up to the 32nd keeps or lengthens the delay.
delay_mono :
    (l : ConnectionRateLimiter) (f g : ℕ)
    → f ≤ g
    → g ≤ 32
    → calculate_delay l f ≤ calculate_delay l g
unfolding calculate_delay
delay_mono l zero g h k = omega arith
delay_mono l (suc f) zero h k = absurd (omega arith)
delay_mono l (suc f) (suc g) h k = omega (
  arith,
  delay_exact l f (omega arith),
  delay_exact l g (omega arith),
  mul-le-mul_left l.base_delay (pow-mono_two f g (omega arith)),
)

-- From the 33rd to the 64th failure the multiplier has wrapped to 0, and with it the delay.
pub delay_lost : (l : ConnectionRateLimiter) (f : ℕ) → 32 < f → f ≤ 64 → calculate_delay l f ≡ 0
unfolding calculate_delay
delay_lost l zero h k = refl
delay_lost l (suc f) h k = rw (multiplier_wrapped f (omega arith) (omega arith)) (omega arith)
