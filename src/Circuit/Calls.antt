-- ===== src/Circuit/Calls.antt =====
-- Calls of a service through the breaker (`call_sync`; `call` is the same around its `await`). The
-- service is a step on a state `S` of its own; `start` is the time of the request and `end` that of
-- the answer.
use agentme.Prelude.{ℕ, ◌≡◌, refl, arith, Result, ok, err}
use agentme.Float.{F64}
use agentme.Circuit.{
  CircuitOpenError, CircuitError, open_circuit, service, CircuitBreaker, try_acquire,
  record_success, record_failure,
}

abbrev pub CircuitResult : Type 0 → Type 0 → Type 0 → Type 0
CircuitResult F T E = Result (CircuitError F E) T

abbrev pub as_service : {F T E : Type 0} → Result E T → CircuitResult F T E
as_service (ok v) = ok v
as_service (err e) = err (service e)

module _ {F T E : Type 0} ⦃fl : F64 F⦄ where
  record_outcome : CircuitBreaker F → ℕ → Result E T → CircuitBreaker F
  record_outcome b end_ (ok _) = record_success b
  record_outcome b end_ (err _) = record_failure b end_

module _ {F S T E : Type 0} ⦃fl : F64 F⦄ where
  call_through :
      CircuitBreaker F × Result (CircuitOpenError F) (Unit {0})
      → (S → S × Result E T)
      → S
      → ℕ
      → CircuitBreaker F × S × CircuitResult F T E
  unfolding record_outcome
  call_through (b, err e) f s end_ = (b, s, err (open_circuit e))
  call_through (b, ok _) f s end_ =
      let answer = f s in (record_outcome b end_ answer.1, answer.0, as_service answer.1)

  unfoldable pub call_sync :
      CircuitBreaker F
      → (S → S × Result E T)
      → S
      → ℕ
      → ℕ
      → CircuitBreaker F × S × CircuitResult F T E
  unfolding call_through
  call_sync b f s start end_ = call_through (try_acquire b start) f s end_

  -- How a call ends.
  pub data Called (b : CircuitBreaker F) (f : S → S × Result E T) (s : S) (start end_ : ℕ)
      (r : CircuitBreaker F × S × CircuitResult F T E) : Type 0 where
    rejected :
        (e : CircuitOpenError F)
        → (try_acquire b start).1 ≡ err e
        → r ≡ ((try_acquire b start).0, s, err (open_circuit e))
        → Called b f s start end_ r
    served :
        (v : T)
        → (try_acquire b start).1 ≡ ok tt
        → (f s).1 ≡ ok v
        → r ≡ (record_success (try_acquire b start).0, (f s).0, ok v)
        → Called b f s start end_ r
    failed :
        (e : E)
        → (try_acquire b start).1 ≡ ok tt
        → (f s).1 ≡ err e
        → r ≡ (record_failure (try_acquire b start).0 end_, (f s).0, err (service e))
        → Called b f s start end_ r

  call_through-Called :
      (b : CircuitBreaker F) (f : S → S × Result E T) (s : S) (start end_ : ℕ)
      (p : CircuitBreaker F × Result (CircuitOpenError F) (Unit {0})) (a : S × Result E T)
      → try_acquire b start ≡ p
      → f s ≡ a
      → Called b f s start end_ (call_through (try_acquire b start) f s end_)
  unfolding call_through
  call_through-Called b f s start end_ (b', err e) a acquired answered =
      rejected e (ground arith) (ground arith)
  call_through-Called b f s start end_ (b', ok u) (s', ok v) acquired answered =
      served v (ground arith) (ground arith) (ground arith)
  call_through-Called b f s start end_ (b', ok u) (s', err e) acquired answered =
      failed e (ground arith) (ground arith) (ground arith)

  -- A call that the breaker rejects does not run the service and reports the breaker's error; any
  -- other runs it once, records its outcome once and passes it on.
  call_sync-Called :
      (b : CircuitBreaker F) (f : S → S × Result E T) (s : S) (start end_ : ℕ)
      → Called b f s start end_ (call_sync b f s start end_)
  unfolding call_sync
  call_sync-Called b f s start end_ =
      call_through-Called b f s start end_ (try_acquire b start) (f s) refl refl

  pub call_sync_rejected :
      (b : CircuitBreaker F) (f : S → S × Result E T) (s : S) (start end_ : ℕ)
      (e : CircuitOpenError F)
      → (try_acquire b start).1 ≡ err e
      → call_sync b f s start end_ ≡ ((try_acquire b start).0, s, err (open_circuit e))
  unfolding call_sync
  call_sync_rejected b f s start end_ e h = ground arith

  pub call_sync_served :
      (b : CircuitBreaker F) (f : S → S × Result E T) (s : S) (start end_ : ℕ) (v : T)
      → (try_acquire b start).1 ≡ ok tt
      → (f s).1 ≡ ok v
      → call_sync b f s start end_ ≡ (record_success (try_acquire b start).0, (f s).0, ok v)
  unfolding call_sync
  call_sync_served b f s start end_ v h a = ground arith

  pub call_sync_failed :
      (b : CircuitBreaker F) (f : S → S × Result E T) (s : S) (start end_ : ℕ) (e : E)
      → (try_acquire b start).1 ≡ ok tt
      → (f s).1 ≡ err e
      → call_sync b f s start end_
        ≡ (record_failure (try_acquire b start).0 end_, (f s).0, err (service e))
  unfolding call_sync
  call_sync_failed b f s start end_ e h a = ground arith
