-- ===== src/Circuit/Resilient/Fallback.antt =====
-- When a value is degraded, and which value it is.
use agentme.Prelude.{
  ℕ, ◌≡◌, refl, Option, none, some, Result, ok, err, arith, ◌⊎◌, inl, inr, ◌∙◌, ap, List, [], ◌∷◌,
}
use agentme.Float.{F64}
use agentme.Circuit.{CircuitBreakerConfig, CircuitOpenError, CircuitError, service, try_acquire}
use agentme.Circuit.Calls.{call_sync_rejected, call_sync_served, call_sync_failed}
use agentme.Circuit.Resilient.{
  DegradationStrategy, static_fallback, last_known_good, default, fail_fast, DegradedResult,
  ResilientCircuitBreaker, undegraded, degrade, unavailable, apply_degradation, call_with_fallback,
  new_resilient,
}

-- What a strategy has to offer in place of an answer.
abbrev pub offer : {T : Type 0} → DegradationStrategy T → Option T → Option T
offer (static_fallback v) last = some v
offer last_known_good last = last
offer default last = none
offer fail_fast last = none

module _ {F T E : Type 0} ⦃fl : F64 F⦄ where
  abbrev pub Offers :
      Option T → CircuitOpenError F → Result (CircuitError F E) (DegradedResult F T) → Type 0
  Offers (some v) e r = r ≡ ok (degrade v e)
  Offers none e r = r ≡ unavailable

module _ {F T : Type 0} ⦃fl : F64 F⦄ where
  degradation-Offers :
      (E : Type 0) (st : DegradationStrategy T) (last : Option T) (e : CircuitOpenError F)
      → Offers (offer st last) e (apply_degradation {E = E} st last e)
  unfolding apply_degradation
  degradation-Offers _ (static_fallback v) last e = refl
  degradation-Offers _ last_known_good (some v) e = refl
  degradation-Offers _ last_known_good none e = refl
  degradation-Offers _ default last e = refl
  degradation-Offers _ fail_fast last e = refl

module _ {F S T E : Type 0} ⦃fl : F64 F⦄ where
  -- A call that the breaker rejects leaves the service and the last good value alone and gives what
  -- the strategy offers, marked as degraded with the breaker's error as its reason, or the fixed
  -- error if it offers nothing.
  rejected-Offers :
      (r : ResilientCircuitBreaker F T) (f : S → S × Result E T) (s : S) (start end_ : ℕ)
      (e : CircuitOpenError F)
      → (try_acquire r.breaker start).1 ≡ err e
      → let after = call_with_fallback r f s start end_ in
        (after.1 ≡ s)
        × ((after.0).last_good ≡ r.last_good)
        × Offers (offer r.strategy r.last_good) e after.2
  unfolding call_with_fallback
  rejected-Offers r f s start end_ e h =
      rw (call_sync_rejected r.breaker f s start end_ e h, call_with_fallback)
        (refl, refl, degradation-Offers E r.strategy r.last_good e)

  -- If the breaker lets a call through, no answer of it is marked as degraded, and an error of the
  -- service is passed on with the last good value kept.
  acquired_undegraded :
      (r : ResilientCircuitBreaker F T) (f : S → S × Result E T) (s : S) (start end_ : ℕ)
      → (try_acquire r.breaker start).1 ≡ ok tt
      → let after = call_with_fallback r f s start end_ in
        ((v : T) × ((f s).1 ≡ ok v)
          × (after.2 ≡ ok (undegraded v))
          × ((after.0).last_good ≡ some v))
        ⊎ ((e : E) × ((f s).1 ≡ err e)
            × (after.2 ≡ err (service e))
            × ((after.0).last_good ≡ r.last_good))
  unfolding call_with_fallback
  acquired_undegraded r f s start end_ a = answered (f s).1 refl
    where
      answered :
          (x : Result E T)
          → (f s).1 ≡ x
          → let after = call_with_fallback r f s start end_ in
            ((v : T) × ((f s).1 ≡ ok v)
              × (after.2 ≡ ok (undegraded v))
              × ((after.0).last_good ≡ some v))
            ⊎ ((e : E) × ((f s).1 ≡ err e)
                × (after.2 ≡ err (service e))
                × ((after.0).last_good ≡ r.last_good))
      answered (ok v) e = inl (
        v,
        e,
        rw (call_sync_served r.breaker f s start end_ v a e, call_with_fallback),
        rw (call_sync_served r.breaker f s start end_ v a e, call_with_fallback),
      )
      answered (err x) e = inr (
        x,
        e,
        rw (call_sync_failed r.breaker f s start end_ x a e, call_with_fallback),
        rw (call_sync_failed r.breaker f s start end_ x a e, call_with_fallback),
      )

  last_known_served :
      (r : ResilientCircuitBreaker F T) (f : S → S × Result E T) (s : S) (start end_ : ℕ) (v : T)
      (e : CircuitOpenError F)
      → r.strategy ≡ last_known_good
      → r.last_good ≡ some v
      → (try_acquire r.breaker start).1 ≡ err e
      → (call_with_fallback r f s start end_).2 ≡ ok (degrade v e)
  unfolding call_with_fallback
  last_known_served r f s start end_ v e st last h =
      ground (arith, call_sync_rejected r.breaker f s start end_ e h)

-- A call by its answer, with the times of its request and of the answer.
pub record Call (T E : Type 0) : Type 0 where
  pub answer : Result E T
  pub start : ℕ
  pub end_ : ℕ

module _ {F T E : Type 0} ⦃fl : F64 F⦄ where
  abbrev pub one_call : ResilientCircuitBreaker F T → Call T E → ResilientCircuitBreaker F T
  one_call r c = (call_with_fallback {S = Unit {0}} r (λ s. (s, c.answer)) tt c.start c.end_).0

  unfoldable pub after_calls :
      ResilientCircuitBreaker F T → List (Call T E) → ResilientCircuitBreaker F T
  after_calls r [] = r
  after_calls r (c ∷ cs) = after_calls (one_call r c) cs

  -- The value that a call leaves as the newest: its answer if it passed the breaker and succeeded.
  abbrev pub newest : Result (CircuitOpenError F) (Unit {0}) → Result E T → Option T → Option T
  newest (ok _) (ok v) last = some v
  newest _ _ last = last

  -- The newest value that the service answered along a history.
  unfoldable pub latest : ResilientCircuitBreaker F T → List (Call T E) → Option T → Option T
  latest r [] last = last
  latest r (c ∷ cs) last =
      latest (one_call r c) cs (newest (try_acquire r.breaker c.start).1 c.answer last)

  one_call_keeps :
      (r : ResilientCircuitBreaker F T) (c : Call T E)
      → ((one_call r c).last_good ≡ newest (try_acquire r.breaker c.start).1 c.answer r.last_good)
        × ((one_call r c).strategy ≡ r.strategy)
  unfolding call_with_fallback
  one_call_keeps r c = answered (try_acquire r.breaker c.start).1 c.answer refl refl
    where
      f : Unit {0} → Unit {0} × Result E T
      f s = (s, c.answer)

      answered :
          (x : Result (CircuitOpenError F) (Unit {0})) (y : Result E T)
          → (try_acquire r.breaker c.start).1 ≡ x
          → c.answer ≡ y
          → ((one_call r c).last_good ≡ newest x y r.last_good)
            × ((one_call r c).strategy ≡ r.strategy)
      answered (ok _) (ok v) a e =
          rw (call_sync_served r.breaker f tt c.start c.end_ v a e, call_with_fallback, one_call)
            (refl, refl)
      answered (ok _) (err x) a e =
          rw (call_sync_failed r.breaker f tt c.start c.end_ x a e, call_with_fallback, one_call)
            (refl, refl)
      answered (err x) y a e =
          rw (call_sync_rejected r.breaker f tt c.start c.end_ x a, call_with_fallback, one_call)
            (refl, refl)

  after_calls_keep :
      (r : ResilientCircuitBreaker F T) (cs : List (Call T E))
      → ((after_calls r cs).last_good ≡ latest r cs r.last_good)
        × ((after_calls r cs).strategy ≡ r.strategy)
  unfolding after_calls latest
  after_calls_keep r [] = (refl, refl)
  after_calls_keep r (c ∷ cs) =
      let (stored, kept) = one_call_keeps r c in
      let (stored', kept') = after_calls_keep (one_call r c) cs in
      (stored' ∙ ap (latest (one_call r c) cs) stored, kept' ∙ kept)

module _ {F S T E : Type 0} ⦃fl : F64 F⦄ where
  -- Under the last-known-good strategy, a call that the breaker rejects after any history of calls
  -- from the start hands out the value of the newest call that passed the breaker and that the
  -- service answered, marked as degraded, if there was one.
  pub last_good_served :
      (c : CircuitBreakerConfig F) (cs : List (Call T E)) (f : S → S × Result E T) (s : S)
      (start end_ : ℕ) (v : T) (e : CircuitOpenError F)
      → let r = after_calls (new_resilient c last_known_good) cs in
        latest (new_resilient c last_known_good) cs none ≡ some v
        → (try_acquire r.breaker start).1 ≡ err e
        → (call_with_fallback r f s start end_).2 ≡ ok (degrade v e)
  last_good_served c cs f s start end_ v e newest_value rejected =
      let (stored, kept) = after_calls_keep {F = F} (new_resilient c last_known_good) cs in
      last_known_served (after_calls (new_resilient c last_known_good) cs) f s start end_ v e
        (kept ∙ fresh.0)
        (stored ∙ (ap (latest (new_resilient c last_known_good) cs) fresh.1 ∙ newest_value))
        rejected
    where
      fresh :
          ((new_resilient {F = F} {T = T} c last_known_good).strategy ≡ last_known_good)
          × ((new_resilient {F = F} {T = T} c last_known_good).last_good ≡ none)
      fresh = unfold new_resilient in (refl, refl)
