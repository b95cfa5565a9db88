-- ===== src/Circuit.antt =====
-- The circuit breaker, node/src/circuit_breaker.rs. A method that takes the lock is one step; it
-- returns the new breaker. Times are nanoseconds, and the clock is the argument `now`; the `u64`
-- counters wrap. `F` is the type of `f64` values.
pub mod Invariant
pub mod Moves
pub mod Recovery
pub mod Calls
pub mod Resilient
mod Tests
use agentme.Prelude.{
  ℕ, ◌+◌, ◌-◌, ◌%◌, ◌^◌, Bool, true, false, Option, none, some, List, [], ◌∷◌, ltb, leb, ◌==◌,
  if◌then◌else◌, Result, ok, err,
}
use agentme.Float.{F64}

-- `open` is a reserved word here.
pub data CircuitState : Type 0 where
  closed opened half_open : CircuitState

pub record CircuitBreakerConfig (F : Type 0) : Type 0 where
  pub failure_rate_threshold : F
  pub minimum_calls : ℕ
  pub open_duration : ℕ
  pub half_open_calls : ℕ
  pub window_size : ℕ

pub record CircuitOpenError (F : Type 0) : Type 0 where
  pub retry_after : ℕ
  pub failure_rate : F

pub data CircuitError (F E : Type 0) : Type 0 where
  open_circuit : CircuitOpenError F → CircuitError F E
  service : E → CircuitError F E

pub record CircuitMetrics : Type 0 where
  pub success_count : ℕ
  pub failure_count : ℕ
  pub rejected_count : ℕ
  pub open_count : ℕ
  pub transition_count : ℕ

abbrev pub u64_mod : ℕ
u64_mod = 2 ^ 64

-- `fetch_add(1)`.
abbrev pub bump : ℕ → ℕ
bump n = (n + 1) % u64_mod

unfoldable pub total_calls : CircuitMetrics → ℕ
total_calls m = (m.success_count + m.failure_count) % u64_mod

abbrev pub reset_metrics : CircuitMetrics → CircuitMetrics
reset_metrics m = record m { success_count = 0; failure_count = 0 }

abbrev pub count_rejected : CircuitMetrics → CircuitMetrics
count_rejected m = record m { rejected_count = bump m.rejected_count }

abbrev pub count_transition : CircuitMetrics → CircuitMetrics
count_transition m = record m { transition_count = bump m.transition_count }

abbrev pub count_opening : CircuitMetrics → CircuitMetrics
count_opening m = record m {
  open_count = bump m.open_count;
  transition_count = bump m.transition_count;
}

-- The fields of `InternalState`, which the lock guards, beside the configuration and the metrics.
pub record CircuitBreaker (F : Type 0) : Type 0 where
  pub config : CircuitBreakerConfig F
  pub state : CircuitState
  pub opened_at : Option ℕ
  pub half_open_remaining : ℕ
  pub last_failure_rate : F
  pub metrics : CircuitMetrics

module _ {F : Type 0} ⦃fl : F64 F⦄ where
  unfoldable pub failure_rate : CircuitMetrics → F
  failure_rate m =
      let total = (m.success_count + m.failure_count) % u64_mod in
      if total == 0 then fl.zero else fl.quotient (fl.from_u64 m.failure_count) (fl.from_u64 total)

  unfoldable pub new : CircuitBreakerConfig F → CircuitBreaker F
  new config = record {
    config = config;
    state = closed;
    opened_at = none;
    half_open_remaining = config.half_open_calls;
    last_failure_rate = fl.zero;
    metrics = record {
      success_count = 0;
      failure_count = 0;
      rejected_count = 0;
      open_count = 0;
      transition_count = 0;
    };
  }

  abbrev open_now : CircuitBreaker F → ℕ → F → CircuitBreaker F
  open_now b now rate = record b {
    state = opened;
    opened_at = some now;
    last_failure_rate = rate;
    metrics = count_opening b.metrics;
  }

  abbrev close_now : CircuitBreaker F → CircuitBreaker F
  close_now b = record b {
    state = closed;
    opened_at = none;
    half_open_remaining = b.config.half_open_calls;
    metrics = count_transition (reset_metrics b.metrics);
  }

  force_open_at : CircuitState → CircuitBreaker F → ℕ → CircuitBreaker F
  unfolding failure_rate
  force_open_at opened b now = b
  force_open_at closed b now = open_now b now (failure_rate b.metrics)
  force_open_at half_open b now = open_now b now (failure_rate b.metrics)

  unfoldable pub force_open : CircuitBreaker F → ℕ → CircuitBreaker F
  unfolding force_open_at
  force_open b now = force_open_at b.state b now

  force_close_at : CircuitState → CircuitBreaker F → CircuitBreaker F
  force_close_at closed b = b
  force_close_at opened b = close_now b
  force_close_at half_open b = close_now b

  unfoldable pub force_close : CircuitBreaker F → CircuitBreaker F
  unfolding force_close_at
  force_close b = force_close_at b.state b

  -- A reset is not counted as a transition.
  unfoldable pub reset : CircuitBreaker F → CircuitBreaker F
  reset b = record b {
    state = closed;
    opened_at = none;
    half_open_remaining = b.config.half_open_calls;
    last_failure_rate = fl.zero;
    metrics = reset_metrics b.metrics;
  }

  transition_at : CircuitState → Option ℕ → CircuitBreaker F → ℕ → CircuitBreaker F
  transition_at opened (some t) b now =
      if leb b.config.open_duration (now - t)
      then record b {
        state = half_open;
        half_open_remaining = b.config.half_open_calls;
        metrics = count_transition b.metrics;
      }
      else b
  transition_at _ _ b now = b

  unfoldable pub check_state_transition : CircuitBreaker F → ℕ → CircuitBreaker F
  unfolding transition_at
  check_state_transition b now = transition_at b.state b.opened_at b now

  abbrev pub retry_after : CircuitBreaker F → ℕ → Option ℕ → ℕ
  retry_after b now (some t) = b.config.open_duration - (now - t)
  retry_after b now none = b.config.open_duration

  acquire_at :
      CircuitState
      → CircuitBreaker F
      → ℕ
      → CircuitBreaker F × Result (CircuitOpenError F) (Unit {0})
  acquire_at closed b now = (b, ok tt)
  acquire_at opened b now = (
    record b { metrics = count_rejected b.metrics },
    err (record {
      retry_after = retry_after b now b.opened_at;
      failure_rate = b.last_failure_rate;
    }),
  )
  acquire_at half_open b now =
      if ltb 0 b.half_open_remaining
      then (record b { half_open_remaining = b.half_open_remaining - 1 }, ok tt)
      else (
        record b { metrics = count_rejected b.metrics },
        err (record { retry_after = 1_000_000_000; failure_rate = b.last_failure_rate }),
      )

  unfoldable pub try_acquire :
      CircuitBreaker F → ℕ → CircuitBreaker F × Result (CircuitOpenError F) (Unit {0})
  unfolding acquire_at check_state_transition
  try_acquire b now =
      let checked = check_state_transition b now in acquire_at checked.state checked now

  unfoldable pub check :
      CircuitBreaker F → ℕ → CircuitBreaker F × Result (CircuitOpenError F) (Unit {0})
  check b now = try_acquire b now

  trip_at : CircuitState → CircuitBreaker F → ℕ → F → CircuitBreaker F
  trip_at opened b now rate = b
  trip_at closed b now rate = open_now b now rate
  trip_at half_open b now rate = open_now b now rate

  unfoldable pub maybe_open_circuit : CircuitBreaker F → ℕ → CircuitBreaker F
  unfolding trip_at total_calls
  maybe_open_circuit b now =
      let rate = failure_rate b.metrics in
      if ltb (total_calls b.metrics) b.config.minimum_calls
      then b
      else if fl.at_least rate b.config.failure_rate_threshold
      then trip_at b.state b now rate
      else b

  close_at : CircuitState → CircuitBreaker F → CircuitBreaker F
  close_at half_open b = close_now b
  close_at _ b = b

  unfoldable pub maybe_close_circuit : CircuitBreaker F → CircuitBreaker F
  unfolding close_at
  maybe_close_circuit b = close_at b.state b

  unfoldable pub record_success : CircuitBreaker F → CircuitBreaker F
  unfolding maybe_close_circuit
  record_success b =
      maybe_close_circuit
        (record b { metrics = record (b.metrics) { success_count = bump b.metrics.success_count } })

  unfoldable pub record_failure : CircuitBreaker F → ℕ → CircuitBreaker F
  unfolding maybe_open_circuit
  record_failure b now =
      maybe_open_circuit
        (record b { metrics = record (b.metrics) { failure_count = bump b.metrics.failure_count } })
        now

-- What reaches the lock, in the order in which it does: callers interleave freely.
pub data Event : Type 0 where
  acquires fails forces_open : ℕ → Event
  succeeds forces_close resets : Event

module _ {F : Type 0} ⦃fl : F64 F⦄ where
  unfoldable pub apply : CircuitBreaker F → Event → CircuitBreaker F
  apply b (acquires now) = (try_acquire b now).0
  apply b (fails now) = record_failure b now
  apply b (forces_open now) = force_open b now
  apply b succeeds = record_success b
  apply b forces_close = force_close b
  apply b resets = reset b

  unfoldable pub run : CircuitBreaker F → List Event → CircuitBreaker F
  run b [] = b
  run b (e ∷ es) = run (apply b e) es
