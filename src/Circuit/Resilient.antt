-- ===== src/Circuit/Resilient.antt =====
-- `ResilientCircuitBreaker` (node/src/circuit_breaker.rs): what a caller gets while the circuit is
-- open. The reason of a degraded result, a text, is kept as the error that it renders.
pub mod Fallback
use agentme.Prelude.{ℕ, Bool, true, false, Option, none, some, Result, ok, err}
use agentme.Float.{F64}
use agentme.Circuit.{
  CircuitBreakerConfig, CircuitOpenError, CircuitError, open_circuit, service, CircuitBreaker, new,
}
use agentme.Circuit.Calls.{CircuitResult, call_sync}

pub data DegradationStrategy (T : Type 0) : Type 0 where
  static_fallback : T → DegradationStrategy T
  last_known_good default fail_fast : DegradationStrategy T

pub record DegradedResult (F T : Type 0) : Type 0 where
  pub value : T
  pub degraded : Bool
  pub reason : Option (CircuitOpenError F)

pub record ResilientCircuitBreaker (F T : Type 0) : Type 0 where
  pub breaker : CircuitBreaker F
  pub strategy : DegradationStrategy T
  pub last_good : Option T

module _ {F T : Type 0} where
  abbrev pub undegraded : T → DegradedResult F T
  undegraded v = record { value = v; degraded = false; reason = none }

  abbrev pub degrade : T → CircuitOpenError F → DegradedResult F T
  degrade v e = record { value = v; degraded = true; reason = some e }

  unfoldable pub set_last_known_good : ResilientCircuitBreaker F T → T → ResilientCircuitBreaker F T
  set_last_known_good r v = record r { last_good = some v }

  unfoldable pub get_last_known_good : ResilientCircuitBreaker F T → Option T
  get_last_known_good r = r.last_good

module _ {F T : Type 0} ⦃fl : F64 F⦄ where
  unfoldable pub new_resilient :
      CircuitBreakerConfig F → DegradationStrategy T → ResilientCircuitBreaker F T
  new_resilient config strategy = record {
    breaker = new config;
    strategy = strategy;
    last_good = none;
  }

module _ {F T E : Type 0} ⦃fl : F64 F⦄ where
  -- The error of every strategy that has nothing to offer.
  abbrev pub unavailable : Result (CircuitError F E) (DegradedResult F T)
  unavailable = err (open_circuit (record { retry_after = 30_000_000_000; failure_rate = fl.zero }))

  unfoldable pub apply_degradation :
      DegradationStrategy T
      → Option T
      → CircuitOpenError F
      → Result (CircuitError F E) (DegradedResult F T)
  apply_degradation (static_fallback v) last e = ok (degrade v e)
  apply_degradation last_known_good (some v) e = ok (degrade v e)
  apply_degradation last_known_good none e = unavailable
  apply_degradation default last e = unavailable
  apply_degradation fail_fast last e = unavailable

module _ {F S T E : Type 0} ⦃fl : F64 F⦄ where
  settle :
      ResilientCircuitBreaker F T
      → CircuitBreaker F × S × CircuitResult F T E
      → ResilientCircuitBreaker F T × S × Result (CircuitError F E) (DegradedResult F T)
  unfolding apply_degradation
  settle r (b, s, ok v) = (record r { breaker = b; last_good = some v }, s, ok (undegraded v))
  settle r (b, s, err (open_circuit e)) =
      (record r { breaker = b }, s, apply_degradation r.strategy r.last_good e)
  settle r (b, s, err (service e)) = (record r { breaker = b }, s, err (service e))

  unfoldable pub call_with_fallback :
      ResilientCircuitBreaker F T
      → (S → S × Result E T)
      → S
      → ℕ
      → ℕ
      → ResilientCircuitBreaker F T × S × Result (CircuitError F E) (DegradedResult F T)
  unfolding settle
  call_with_fallback r f s start end_ = settle r (call_sync r.breaker f s start end_)
