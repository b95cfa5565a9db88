-- ===== src/Security/Backoff.antt =====
-- `ConnectionRateLimiter` (node/src/network/security.rs): exponential backoff per address. An
-- `Instant` and a `Duration` are nanoseconds; the clock is the argument `now`, and `elapsed` stops
-- at 0 as `-` does.
pub mod Delay
pub mod Wait
use agentme.Prelude.{
  ℕ, zero, suc, ◌+◌, ◌-◌, ◌*◌, ◌%◌, ◌^◌, min, Bool, true, false, Option, none, some, leb, ltb, ◌==◌,
  if◌then◌else◌, [], List, retain,
}
use agentme.Prelude.Map.{Map, get, insert, remove, or_zero}
use agentme.Security.Ip.{IpAddr, ip_key}

abbrev pub u32_max : ℕ
u32_max = 2 ^ 32 - 1

abbrev pub u64_max : ℕ
u64_max = 2 ^ 64 - 1

abbrev pub nanos : ℕ
nanos = 1_000_000_000

-- `Duration::MAX`: `u64::MAX` seconds and 999,999,999 nanoseconds.
abbrev pub duration_max : ℕ
duration_max = u64_max * nanos + 999_999_999

pub record Attempt : Type 0 where
  pub last_attempt : ℕ
  pub failures : ℕ

pub record ConnectionRateLimiter : Type 0 where
  pub attempts : Map IpAddr Attempt
  pub base_delay : ℕ
  pub max_delay : ℕ
  pub max_failures : ℕ

unfoldable pub with_config : ℕ → ℕ → ℕ → ConnectionRateLimiter
with_config base_delay max_delay max_failures = record {
  attempts = [];
  base_delay = base_delay;
  max_delay = max_delay;
  max_failures = max_failures;
}

unfoldable pub new : ConnectionRateLimiter
unfolding with_config
new = with_config nanos (300 * nanos) 10

-- `2u64.saturating_pow(e)`, then `as u32`.
unfoldable pub multiplier : ℕ → ℕ
multiplier e = min (2 ^ e) u64_max % 2 ^ 32

unfoldable pub calculate_delay : ConnectionRateLimiter → ℕ → ℕ
calculate_delay l zero = 0
calculate_delay l (suc f) = min (min (l.base_delay * multiplier f) duration_max) l.max_delay

unfoldable pub may_retry : ConnectionRateLimiter → ℕ → Option Attempt → Bool
may_retry l now none = true
may_retry l now (some a) =
    if leb l.max_failures a.failures
    then false
    else leb (calculate_delay l a.failures) (now - a.last_attempt)

unfoldable pub can_attempt : ConnectionRateLimiter → IpAddr → ℕ → Bool
unfolding may_retry
can_attempt l ip now = may_retry l now (get ip l.attempts)

unfoldable pub wait_for : ConnectionRateLimiter → ℕ → Option Attempt → ℕ
wait_for l now none = 0
wait_for l now (some a) =
    let required = calculate_delay l a.failures in
    let elapsed = now - a.last_attempt in
    if leb l.max_failures a.failures
    then duration_max
    else if leb required elapsed
    then 0
    else required - elapsed

unfoldable pub time_until_allowed : ConnectionRateLimiter → IpAddr → ℕ → ℕ
unfolding wait_for
time_until_allowed l ip now = wait_for l now (get ip l.attempts)

abbrev pub failures_of : Option Attempt → ℕ
failures_of none = 0
failures_of (some a) = a.failures

unfoldable pub failure_count : ConnectionRateLimiter → IpAddr → ℕ
failure_count l ip = failures_of (get ip l.attempts)

unfoldable pub record_attempt : ConnectionRateLimiter → IpAddr → ℕ → ConnectionRateLimiter
record_attempt l ip now =
    let entry : Attempt = record {
      last_attempt = now;
      failures = failures_of (get ip l.attempts);
    } in
    record l { attempts = insert ip entry l.attempts }

-- `saturating_add(1)` on a `u32`.
unfoldable pub record_failure : ConnectionRateLimiter → IpAddr → ℕ → ConnectionRateLimiter
record_failure l ip now =
    let entry : Attempt = record {
      last_attempt = now;
      failures = min (failures_of (get ip l.attempts) + 1) u32_max;
    } in
    record l { attempts = insert ip entry l.attempts }

unfoldable pub record_success : ConnectionRateLimiter → IpAddr → ConnectionRateLimiter
record_success l ip = record l { attempts = remove ip l.attempts }

unfoldable pub cleanup : ConnectionRateLimiter → ℕ → ℕ → ConnectionRateLimiter
cleanup l max_age now = record l {
  attempts = retain (λ e. ltb (now - e.1.last_attempt) max_age) l.attempts;
}
