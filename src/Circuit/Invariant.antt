-- ===== src/Circuit/Invariant.antt =====
-- What holds of a circuit breaker between any two events.
use agentme.Prelude.{ℕ, ◌≤◌, ◌≡◌, refl, Bool, true, false, Option, none, some, List, [], ◌∷◌, arith}
use agentme.Float.{F64}
use agentme.Circuit.{
  CircuitState, closed, opened, half_open, CircuitBreakerConfig, CircuitBreaker, new, force_open,
  force_close, reset, try_acquire, record_success, record_failure, Event, acquires, fails,
  forces_open, succeeds, forces_close, resets, apply, run,
}

abbrev has_time : Option ℕ → Bool
has_time none = false
has_time (some t) = true

abbrev was_opened : CircuitState → Bool
was_opened closed = false
was_opened opened = true
was_opened half_open = true

module _ {F : Type 0} ⦃fl : F64 F⦄ where
  -- A closed breaker has no opening time and any other has one; the probes left are within bounds.
  pub record IsValid (c : CircuitBreakerConfig F) (b : CircuitBreaker F) : Type 0 where
    pub configured : b.config ≡ c
    pub timed : has_time b.opened_at ≡ was_opened b.state
    pub probes : b.half_open_remaining ≤ b.config.half_open_calls

  new-IsValid : (c : CircuitBreakerConfig F) → IsValid c (new c)
  unfolding new
  new-IsValid c = record { configured = refl; timed = refl; probes = omega arith }

  apply-IsValid :
      (c : CircuitBreakerConfig F) (b : CircuitBreaker F) (e : Event)
      → IsValid c b
      → IsValid c (apply b e)
  unfolding apply force_open force_close reset try_acquire record_success record_failure
  apply-IsValid c b (acquires now) v = ground arith
  apply-IsValid c b (fails now) v = ground arith
  apply-IsValid c b (forces_open now) v = ground arith
  apply-IsValid c b succeeds v = ground arith
  apply-IsValid c b forces_close v = ground arith
  apply-IsValid c b resets v = ground arith

  run-IsValid :
      (c : CircuitBreakerConfig F) (b : CircuitBreaker F) (es : List Event)
      → IsValid c b
      → IsValid c (run b es)
  unfolding run
  run-IsValid c b [] v = v
  run-IsValid c b (e ∷ es) v = run-IsValid c (apply b e) es (apply-IsValid c b e v)

  -- Every breaker that any history of events makes of a new one is valid: it has an opening time
  -- exactly when it is not closed, and never more probes left than configured.
  pub breaker-IsValid : (c : CircuitBreakerConfig F) (es : List Event) → IsValid c (run (new c) es)
  breaker-IsValid c es = run-IsValid c (new c) es (new-IsValid c)
