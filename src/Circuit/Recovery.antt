-- ===== src/Circuit/Recovery.antt =====
-- Failing fast while open, and the way back.
use agentme.Prelude.{
  refl, All, ap, ◌∙◌, ◌%◌, ℕ, ◌+◌, ◌-◌, ◌≤◌, ◌<◌, ◌≡◌, min, none, some, List, [], ◌∷◌, arith,
  Result, ok, err, length,
}
use agentme.Float.{F64}
use agentme.Circuit.{
  closed, opened, half_open, CircuitOpenError, CircuitBreaker, try_acquire, record_success, bump,
  u64_mod,
}

module _ {F : Type 0} ⦃fl : F64 F⦄ where
  -- One request before the open duration has passed.
  fails_fast :
      (b : CircuitBreaker F) (t now : ℕ)
      → b.state ≡ opened
      → b.opened_at ≡ some t
      → now - t < b.config.open_duration
      → try_acquire b now ≡ (
        record b {
          metrics = record (b.metrics) { rejected_count = bump b.metrics.rejected_count };
        },
        err (record {
          retry_after = b.config.open_duration - (now - t);
          failure_rate = b.last_failure_rate;
        }),
      )
  unfolding try_acquire
  fails_fast b t now o e h = ground arith

  -- Once the open duration of an open breaker that allows probes has passed, the next request is
  -- the first probe, and one success of a probe closes the breaker with its call counts at 0.
  recovers :
      (b : CircuitBreaker F) (t now : ℕ)
      → b.state ≡ opened
      → b.opened_at ≡ some t
      → b.config.open_duration ≤ now - t
      → 0 < b.config.half_open_calls
      → let probing = try_acquire b now in
        let healed = record_success probing.0 in
        (probing.1 ≡ ok tt)
        × (probing.0.state ≡ half_open)
        × (probing.0.half_open_remaining + 1 ≡ b.config.half_open_calls)
        × (healed.state ≡ closed)
        × (healed.opened_at ≡ none)
        × (healed.metrics.success_count ≡ 0)
        × (healed.metrics.failure_count ≡ 0)
  unfolding try_acquire record_success
  recovers b t now o e h p = ground arith

  -- Requests at the given times, and how many of them pass.
  unfoldable pub acquire_all : CircuitBreaker F → List ℕ → CircuitBreaker F
  acquire_all b [] = b
  acquire_all b (t ∷ ts) = acquire_all (try_acquire b t).0 ts

  abbrev pub passes : Result (CircuitOpenError F) (Unit {0}) → ℕ
  passes (ok _) = 1
  passes (err _) = 0

  unfoldable pub passed : CircuitBreaker F → List ℕ → ℕ
  passed b [] = 0
  passed b (t ∷ ts) = passes (try_acquire b t).1 + passed (try_acquire b t).0 ts

  -- While the open duration has not passed, every request is refused, however many come: the breaker
  -- stays open since the same time, and the rejections are counted, in 64 bits.
  open_refuses :
      (b : CircuitBreaker F) (t : ℕ) (ts : List ℕ)
      → b.state ≡ opened
      → b.opened_at ≡ some t
      → b.metrics.rejected_count < u64_mod
      → All (λ now. now - t < b.config.open_duration) ts
      → (passed b ts ≡ 0)
        × ((acquire_all b ts).state ≡ opened)
        × ((acquire_all b ts).opened_at ≡ some t)
        × ((acquire_all b ts).metrics.rejected_count
            ≡ (b.metrics.rejected_count + length ts) % u64_mod)
  unfolding passed acquire_all
  open_refuses b t [] o e lt early = (refl, o, e, omega arith)
  open_refuses b t (now ∷ ts) o e lt early =
      let refused = fails_fast b t now o e early.0 in
      let after = ap (λ r. r.0) refused in
      let rest =
        open_refuses (try_acquire b now).0 t ts (ap (λ c. c.state) after ∙ o)
          (ap (λ c. c.opened_at) after ∙ e) (ground (arith, after)) (rw after early.1) in
      (ground (arith, ap (λ r. r.1) refused, rest.0), rest.1, rest.2, ground (arith, after, rest.3))

  half_open_step :
      (b : CircuitBreaker F) (t : ℕ)
      → b.state ≡ half_open
      → ((try_acquire b t).0.state ≡ half_open)
        × ((try_acquire b t).0.half_open_remaining ≡ b.half_open_remaining - 1)
        × (passes (try_acquire b t).1 ≡ min b.half_open_remaining 1)
  unfolding try_acquire
  half_open_step b t h = ground arith

  -- In the half-open state, as long as no call reports back, exactly the probes that are left pass,
  -- at whatever times the requests come; with none left every request is refused, and the breaker
  -- stays half-open.
  pub half_open_passes :
      (b : CircuitBreaker F) (ts : List ℕ)
      → b.state ≡ half_open
      → (passed b ts ≡ min b.half_open_remaining (length ts))
        × ((acquire_all b ts).state ≡ half_open)
        × ((acquire_all b ts).half_open_remaining ≡ b.half_open_remaining - length ts)
  unfolding passed acquire_all
  half_open_passes b [] h = (omega arith, h, omega arith)
  half_open_passes b (t ∷ ts) h =
      let step = half_open_step b t h in
      let rest = half_open_passes (try_acquire b t).0 ts step.0 in
      (omega (arith, step.1, step.2, rest.0), rest.1, omega (arith, step.1, rest.2))
