-- ===== src/Circuit/Moves.antt =====
-- The state machine of a circuit breaker: which event moves it along which edge.
use agentme.Prelude.{ℕ, ◌+◌, ◌%◌, ◌<◌, ◌≡◌, refl, List, [], ◌∷◌, arith, ◌≢◌, All}
use agentme.Float.{F64}
use agentme.Circuit.{
  CircuitState, closed, opened, half_open, CircuitBreakerConfig, CircuitBreaker, new, force_open,
  force_close, reset, try_acquire, record_success, record_failure, Event, acquires, fails,
  forces_open, succeeds, forces_close, resets, apply, run, u64_mod,
}

-- The edges of the diagram, by what causes them.
pub data Edge : CircuitState → Event → CircuitState → Type 0 where
  stay : (s : CircuitState) (e : Event) → Edge s e s
  trip : (now : ℕ) → Edge closed (fails now) opened
  retrip : (now : ℕ) → Edge half_open (fails now) opened
  probe : (now : ℕ) → Edge opened (acquires now) half_open
  recover : Edge half_open succeeds closed
  force_trip : (s : CircuitState) (now : ℕ) → Edge s (forces_open now) opened
  force_recover : (s : CircuitState) → Edge s forces_close closed
  restart : (s : CircuitState) → Edge s resets closed

ruleset edges = (stay, trip, retrip, probe, recover, force_trip, force_recover, restart)

-- Whether two states differ.
abbrev pub changed : CircuitState → CircuitState → ℕ
changed closed closed = 0
changed opened opened = 0
changed half_open half_open = 0
changed _ _ = 1

module _ {F : Type 0} ⦃fl : F64 F⦄ where
  -- Every event moves the breaker along an edge of the diagram, or not at all.
  pub apply-Edge : (b : CircuitBreaker F) (e : Event) → Edge b.state e (apply b e).state
  unfolding apply force_open force_close reset try_acquire record_success record_failure
  apply-Edge b (acquires now) = grind (arith, edges)
  apply-Edge b (fails now) = grind (arith, edges)
  apply-Edge b (forces_open now) = grind (arith, edges)
  apply-Edge b succeeds = grind (arith, edges)
  apply-Edge b forces_close = grind (arith, edges)
  apply-Edge b resets = grind (arith, edges)

  step_transitions :
      (b : CircuitBreaker F) (e : Event)
      → e ≢ resets
      → b.metrics.transition_count < u64_mod
      → (apply b e).metrics.transition_count
        ≡ (b.metrics.transition_count + changed b.state (apply b e).state) % u64_mod
  unfolding apply force_open force_close try_acquire record_success record_failure
  step_transitions b (acquires now) h lt = ground arith
  step_transitions b (fails now) h lt = ground arith
  step_transitions b (forces_open now) h lt = ground arith
  step_transitions b succeeds h lt = ground arith
  step_transitions b forces_close h lt = ground arith
  step_transitions b resets h lt = absurd (h refl)

  -- How often the state changes along a history.
  unfoldable pub moves : CircuitBreaker F → List Event → ℕ
  moves b [] = 0
  moves b (e ∷ es) = changed b.state (apply b e).state + moves (apply b e) es

  run_transitions :
      (b : CircuitBreaker F) (es : List Event)
      → All (λ e. e ≢ resets) es
      → b.metrics.transition_count < u64_mod
      → (run b es).metrics.transition_count ≡ (b.metrics.transition_count + moves b es) % u64_mod
  unfolding run moves
  run_transitions b [] h lt = omega arith
  run_transitions b (e ∷ es) h lt =
      let step = step_transitions b e h.0 lt in
      omega (arith, step, run_transitions (apply b e) es h.1 (omega (arith, step)))

  -- Along any history without a reset, the transition counter of a new breaker is the number of
  -- changes of its state, wrapped to 64 bits.
  transitions_counted :
      (c : CircuitBreakerConfig F) (es : List Event)
      → All (λ e. e ≢ resets) es
      → (run (new c) es).metrics.transition_count ≡ moves (new c) es % u64_mod
  transitions_counted c es h = omega (arith, run_transitions (new c) es h fresh, starts_at_zero)
    where
      starts_at_zero : (new c).metrics.transition_count ≡ 0
      starts_at_zero = unfold new in refl

      fresh : (new c).metrics.transition_count < u64_mod
      fresh = omega (arith, starts_at_zero)
