-- ===== src/Security/Backoff/Wait.antt =====
-- Who may try again, and when.
use agentme.Prelude.{
  ℕ, zero, suc, ◌+◌, ◌-◌, ◌≤◌, ◌<◌, ◌≡◌, refl, ◌≢◌, ◌↔◌, true, false, Option, none, some, List, [],
  ◌∷◌, length, arith, ite, if_pos, if_neg, ltb, ◌∙◌, min,
}
use agentme.Prelude.Map.{Map, get, remove, DistinctKeys, get-insert, get-remove, get-retain_drop}
use agentme.Security.Ip.{IpAddr, ip_key}
use agentme.Security.Backoff.{
  ConnectionRateLimiter, Attempt, u32_max, calculate_delay, may_retry, can_attempt, wait_for,
  time_until_allowed, failures_of, failure_count, record_failure, record_success, cleanup,
}

may_retry-wait_for :
    (l : ConnectionRateLimiter) (now : ℕ) (o : Option Attempt)
    → (may_retry l now o ≡ true) ↔ (wait_for l now o ≡ 0)
unfolding may_retry wait_for
may_retry-wait_for l now none = (λ _. refl, λ _. refl)
may_retry-wait_for l now (some a) = ground arith

-- An address may try exactly where no time is left to wait.
can_attempt_iff :
    (l : ConnectionRateLimiter) (ip : IpAddr) (now : ℕ)
    → (can_attempt l ip now ≡ true) ↔ (time_until_allowed l ip now ≡ 0)
unfolding can_attempt time_until_allowed
can_attempt_iff l ip now = may_retry-wait_for l now (get ip l.attempts)

-- The wait that is announced for an address with fewer failures than the maximum is exact: after a
-- further time `d` it may try exactly if `d` is no shorter than that wait.
wait_exact :
    (l : ConnectionRateLimiter) (ip : IpAddr) (a : Attempt) (now d : ℕ)
    → get ip l.attempts ≡ some a
    → a.failures < l.max_failures
    → a.last_attempt ≤ now
    → (can_attempt l ip (now + d) ≡ true) ↔ (time_until_allowed l ip now ≤ d)
unfolding can_attempt time_until_allowed
wait_exact l ip a now d e h t = rw e (exact now d h t)
  where
    exact :
        (now d : ℕ)
        → a.failures < l.max_failures
        → a.last_attempt ≤ now
        → (may_retry l (now + d) (some a) ≡ true) ↔ (wait_for l now (some a) ≤ d)
    exact now d h t = ground arith

-- A run of failures of one address, at the given times.
unfoldable pub fail_at : ConnectionRateLimiter → IpAddr → List ℕ → ConnectionRateLimiter
fail_at l ip [] = l
fail_at l ip (t ∷ ts) = fail_at (record_failure l ip t) ip ts

failure_count-record_failure :
    (l : ConnectionRateLimiter) (ip jp : IpAddr) (now : ℕ)
    → failure_count (record_failure l ip now) jp
      ≡ ite (ip_key.equal ip jp) (min (failure_count l ip + 1) u32_max) (failure_count l jp)
unfolding failure_count record_failure
failure_count-record_failure l ip jp now = ground (
  arith,
  get-insert ip jp
      (record { last_attempt = now; failures = min (failures_of (get ip l.attempts) + 1) u32_max })
      l.attempts,
)

failure_count-fail_at :
    (l : ConnectionRateLimiter) (ip : IpAddr) (ts : List ℕ)
    → failure_count l ip ≤ u32_max
    → (failure_count (fail_at l ip ts) ip ≡ min (failure_count l ip + length ts) u32_max)
      × ((fail_at l ip ts).max_failures ≡ l.max_failures)
unfolding fail_at
failure_count-fail_at l ip [] h = (omega arith, refl)
failure_count-fail_at l ip (t ∷ ts) h =
    let one = failure_count-record_failure l ip ip t in
    let rest = failure_count-fail_at (record_failure l ip t) ip ts (ground (arith, one)) in
    (ground (arith, one, rest), rest.1 ∙ max_kept)
  where
    max_kept : (record_failure l ip t).max_failures ≡ l.max_failures
    max_kept = unfold record_failure in refl

-- Once its failures reach the maximum, an address is refused at every time.
blocked_at_max :
    (l : ConnectionRateLimiter) (ip : IpAddr) (now : ℕ)
    → 0 < l.max_failures
    → l.max_failures ≤ failure_count l ip
    → can_attempt l ip now ≡ false
unfolding can_attempt failure_count may_retry
blocked_at_max l ip now h k = ground arith

-- Once as many failures of an address are recorded as the maximum, at whatever times, the address is
-- refused at every time, where the maximum is positive and fits in 32 bits.
fail_at_blocks :
    (l : ConnectionRateLimiter) (ip : IpAddr) (ts : List ℕ) (now : ℕ)
    → failure_count l ip ≤ u32_max
    → 0 < l.max_failures
    → l.max_failures ≤ u32_max
    → l.max_failures ≤ failure_count l ip + length ts
    → can_attempt (fail_at l ip ts) ip now ≡ false
fail_at_blocks l ip ts now h pos fits enough =
    let (counted, kept) = failure_count-fail_at l ip ts h in
    blocked_at_max (fail_at l ip ts) ip now (omega arith) (omega arith)

calculate_delay-attempts :
    (l : ConnectionRateLimiter) (m : Map IpAddr Attempt) (f : ℕ)
    → calculate_delay (record l { attempts = m }) f ≡ calculate_delay l f
unfolding calculate_delay
calculate_delay-attempts l m zero = refl
calculate_delay-attempts l m (suc f) = refl

may_retry-attempts :
    (l : ConnectionRateLimiter) (m : Map IpAddr Attempt) (now : ℕ) (o : Option Attempt)
    → may_retry (record l { attempts = m }) now o ≡ may_retry l now o
unfolding may_retry
may_retry-attempts l m now none = refl
may_retry-attempts l m now (some a) = rw (calculate_delay-attempts l m a.failures)

-- After a success its address may try at once, and whether any other address may try is unchanged.
record_success_lem :
    (l : ConnectionRateLimiter) (ip jp : IpAddr) (now : ℕ)
    → (can_attempt (record_success l ip) ip now ≡ true)
      × (ip ≢ jp → can_attempt (record_success l ip) jp now ≡ can_attempt l jp now)
unfolding can_attempt record_success
record_success_lem l ip jp now = (
  rw (get-remove ip ip l.attempts, if_pos (ip_key.equal ip ip) refl) (unfold may_retry in refl),
  λ h.
      rw (get-remove ip jp l.attempts, if_neg (ip_key.equal ip jp) h)
        (may_retry-attempts l (remove ip l.attempts) now (get jp l.attempts)),
)

-- After `cleanup` an address whose record is as old as the given age may try at every time, also if
-- its failures had reached the maximum.
cleanup_unblocks :
    (l : ConnectionRateLimiter) (ip : IpAddr) (a : Attempt) (max_age now later : ℕ)
    → DistinctKeys l.attempts
    → get ip l.attempts ≡ some a
    → a.last_attempt + max_age ≤ now
    → can_attempt (cleanup l max_age now) ip later ≡ true
unfolding can_attempt cleanup may_retry
cleanup_unblocks l ip a max_age now later d e h =
    rw (
      get-retain_drop (λ e. ltb (now - e.1.last_attempt) max_age) ip a l.attempts d e
        (ground arith))
