-- ===== src/Circuit/Tests.antt =====
-- Runs of node/src/circuit_breaker.rs on small inputs, with rates in thousandths for `f64`.
use agentme.Prelude.{
  ℕ, ◌+◌, ◌-◌, ◌≡◌, refl, ◌≢◌, min, Bool, true, Option, none, some, List, [], ◌∷◌, arith, All,
  Result, ok, err,
}
use agentme.Thousandths.{thousandths}
use agentme.Circuit.{
  CircuitState, opened, half_open, CircuitBreakerConfig, CircuitOpenError, CircuitBreaker,
  CircuitMetrics, failure_rate, new, try_acquire, record_success, record_failure, Event, acquires,
  fails, succeeds, apply, run,
}
use agentme.Circuit.Invariant.{IsValid, breaker-IsValid}
use agentme.Circuit.Moves.{Edge, apply-Edge}
use agentme.Circuit.Recovery.{acquire_all, passed, half_open_passes}
use agentme.Circuit.Calls.{call_sync}
use agentme.Circuit.Resilient.{
  last_known_good, ResilientCircuitBreaker, degrade, new_resilient, call_with_fallback,
}
use agentme.Circuit.Resilient.Fallback.{Call, after_calls, latest, last_good_served}

abbrev config : CircuitBreakerConfig ℕ
config = record {
  failure_rate_threshold = 500;
  minimum_calls = 2;
  open_duration = 30;
  half_open_calls = 2;
  window_size = 100;
}

abbrev metrics : CircuitMetrics
metrics = record {
  success_count = 0;
  failure_count = 1;
  rejected_count = 0;
  open_count = 0;
  transition_count = 0;
}

abbrev in_state : CircuitState → Option ℕ → CircuitBreaker ℕ
in_state state opened_at = record {
  config = config;
  state = state;
  opened_at = opened_at;
  half_open_remaining = 2;
  last_failure_rate = 1000;
  metrics = metrics;
}

abbrev events : List Event
events = acquires 1 ∷ fails 2 ∷ acquires 3 ∷ fails 4 ∷ acquires 10 ∷ acquires 40 ∷ succeeds ∷ []

breaker-IsValid_example : IsValid config (run (new config) events)
breaker-IsValid_example = breaker-IsValid config events

apply-Edge_example :
    Edge opened (acquires 40) (apply (in_state opened (some 4)) (acquires 40)).state
apply-Edge_example = apply-Edge (in_state opened (some 4)) (acquires 40)

no_resets : All (λ e. e ≢ Event.resets) events
no_resets = ground arith

abbrev probing : CircuitBreaker ℕ
probing = in_state half_open (some 4)

half_open_passes_example :
    (passed probing (40 ∷ 41 ∷ 42 ∷ []) ≡ min 2 3)
    × ((acquire_all probing (40 ∷ 41 ∷ 42 ∷ [])).state ≡ half_open)
    × ((acquire_all probing (40 ∷ 41 ∷ 42 ∷ [])).half_open_remaining ≡ 2 - 3)
half_open_passes_example = half_open_passes probing (40 ∷ 41 ∷ 42 ∷ []) refl

-- A service that answers with the number of the call, and one that is down.
abbrev counting : ℕ → ℕ × Result Bool ℕ
counting n = (n + 1, ok n)

abbrev down : ℕ → ℕ × Result Bool ℕ
down n = (n, err true)

abbrev resilient : CircuitState → Option ℕ → Option ℕ → ResilientCircuitBreaker ℕ ℕ
resilient state opened_at last = record {
  breaker = in_state state opened_at;
  strategy = last_known_good;
  last_good = last;
}

abbrev refusal : CircuitOpenError ℕ
refusal = record { retry_after = 24; failure_rate = 1000 }

-- A success and a failure, with which the circuit opens at time 4.
abbrev calls : List (Call ℕ Bool)
calls =
    record { answer = ok 5; start = 1; end_ = 2 }
    ∷ record { answer = err true; start = 3; end_ = 4 }
    ∷ []

abbrev later_refusal : CircuitOpenError ℕ
later_refusal = record { retry_after = 24; failure_rate = 500 }

answered : latest (new_resilient config last_known_good) calls none ≡ some 5
unfolding latest new_resilient call_with_fallback call_sync try_acquire record_success
    record_failure new
answered = refl

rejected :
    (try_acquire ((after_calls (new_resilient config last_known_good) calls).breaker) 10).1
    ≡ err later_refusal
unfolding after_calls new_resilient call_with_fallback call_sync try_acquire record_success
    record_failure new failure_rate
rejected = refl

last_good_served_example :
    (call_with_fallback (after_calls (new_resilient config last_known_good) calls) down 7 10 11).2
    ≡ ok (degrade 5 later_refusal)
last_good_served_example =
    last_good_served config calls down 7 10 11 5 later_refusal answered rejected
