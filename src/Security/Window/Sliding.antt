-- ===== src/Security/Window/Sliding.antt =====
-- The limit holds in every window of a history, not only in those that end at a request.
use agentme.Prelude.{
  ℕ, ◌+◌, ◌-◌, ◌≤◌, ◌<◌, ◌≡◌, refl, true, false, ◌&&◌, List, [], ◌∷◌, ◌++◌, leb, ltb, if◌then◌else◌,
  length, retain, count, length-retain, count-append, count-le-length, arith, Bool-cases, inl, inr,
  ◌⊎◌, count-retain,
}
use agentme.Security.Window.{
  GlobalConnectionRateLimiter, with_window, in_window, cleanup_expired, current_count,
  can_accept_new_connection, record_new_connection,
}

-- The requests are answered in order; `h` holds the times of those accepted, newest first.
unfoldable pub run :
    GlobalConnectionRateLimiter → List ℕ → List ℕ → GlobalConnectionRateLimiter × List ℕ
run l h [] = (l, h)
run l h (t ∷ ts) =
    run (record_new_connection l t).0 (if (record_new_connection l t).1 then t ∷ h else h) ts

-- The clock does not go back.
abbrev pub Ascends : ℕ → List ℕ → Type 0
Ascends c [] = Unit
Ascends c (t ∷ ts) = (c ≤ t) × Ascends t ts

abbrev pub count_from : ℕ → List ℕ → ℕ
count_from s = count (λ t. leb s t)

-- How many of the times lie in the window of length `w` that begins at `s`.
abbrev pub count_in : ℕ → ℕ → List ℕ → ℕ
count_in s w = count (λ t. leb s t && ltb t (s + w))

count_in-le-count_from : (s w : ℕ) (h : List ℕ) → count_in s w h ≤ count_from s h
count_in-le-count_from s w [] = omega arith
count_in-le-count_from s w (t ∷ h) = ground (arith, count_in-le-count_from s w h)

count_from-retain :
    (s w now : ℕ) (h : List ℕ)
    → 0 < w
    → now < s + w
    → count_from s (retain (λ t. ltb (now - t) w) h) ≡ count_from s h
count_from-retain s w now [] p q = refl
count_from-retain s w now (t ∷ h) p q = ground (arith, count_from-retain s w now h p q)

-- Between two requests, the last of them at `c`: what the limiter has forgotten of the history `h`
-- is too old to share a window with a later request.
record Inv (l : GlobalConnectionRateLimiter) (h : List ℕ) (c : ℕ) : Type 0 where
  window_open : 0 < l.window_duration
  remembered :
      (s : ℕ) → c < s + l.window_duration → count_from s h ≤ count_from s l.connection_times
  limited : (s : ℕ) → count_in s l.window_duration h ≤ l.max_per_window

cleanup-remembered :
    (l : GlobalConnectionRateLimiter) (h : List ℕ) (c t s : ℕ)
    → Inv l h c
    → c ≤ t
    → t < s + l.window_duration
    → count_from s h ≤ count_from s (cleanup_expired l t).connection_times
unfolding cleanup_expired
cleanup-remembered l h c t s i le lt = omega (
  arith,
  i.remembered s (omega arith),
  count_from-retain s l.window_duration t l.connection_times i.window_open lt,
)

cleanup-Inv :
    (l : GlobalConnectionRateLimiter) (h : List ℕ) (c t : ℕ)
    → Inv l h c
    → c ≤ t
    → Inv (cleanup_expired l t) h t
cleanup-Inv l h c t i le = record {
  window_open = unfold cleanup_expired in i.window_open;
  remembered = λ s. unfold cleanup_expired in cleanup-remembered l h c t s i le;
  limited = unfold cleanup_expired in i.limited;
}

-- A request is accepted: a window that holds it holds no more of the history than the limiter
-- remembers, which is less than the limit.
push-Inv :
    (l : GlobalConnectionRateLimiter) (h : List ℕ) (t : ℕ)
    → Inv l h t
    → length l.connection_times < l.max_per_window
    → Inv (record l { connection_times = l.connection_times ++ (t ∷ []) }) (t ∷ h) t
push-Inv l h t i room = record {
  window_open = i.window_open;
  remembered = λ s lt.
      ground (arith, i.remembered s lt, count-append (λ u. leb s u) l.connection_times (t ∷ []));
  limited = λ s. ground (
    arith,
    i.remembered s,
    i.limited s,
    count_in-le-count_from s l.window_duration h,
    count-le-length (λ u. leb s u) l.connection_times,
  );
}

record-Inv :
    (l : GlobalConnectionRateLimiter) (h : List ℕ) (c t : ℕ)
    → Inv l h c
    → c ≤ t
    → Inv (record_new_connection l t).0 (if (record_new_connection l t).1 then t ∷ h else h) t
unfolding record_new_connection
record-Inv l h c t i le =
    elim (Bool-cases (leb l.max_per_window (length (cleanup_expired l t).connection_times))) [
      | inl full ↦ rw full (cleanup-Inv l h c t i le)
      | inr room ↦
          rw room (push-Inv (cleanup_expired l t) h t (cleanup-Inv l h c t i le) (ground arith))
    ]

window_kept :
    (l : GlobalConnectionRateLimiter) (t : ℕ)
    → ((record_new_connection l t).0.window_duration ≡ l.window_duration)
      × ((record_new_connection l t).0.max_per_window ≡ l.max_per_window)
unfolding record_new_connection cleanup_expired
window_kept l t = ground arith

run-Inv :
    (l : GlobalConnectionRateLimiter) (h : List ℕ) (c : ℕ) (ts : List ℕ)
    → Inv l h c
    → Ascends c ts
    → (s : ℕ) → count_in s l.window_duration (run l h ts).1 ≤ l.max_per_window
unfolding run
run-Inv l h c [] i a = i.limited
run-Inv l h c (t ∷ ts) i a = λ s. ground (
  arith,
  window_kept l t,
  run-Inv (record_new_connection l t).0 (if (record_new_connection l t).1 then t ∷ h else h) t ts
      (record-Inv l h c t i a.0) a.1 s,
)

-- For requests at times that do not go back, no window of the configured positive length, wherever
-- it begins, holds more accepted connections than the limit.
pub window_limit :
    (limit window : ℕ) (ts : List ℕ) (s : ℕ)
    → 0 < window
    → Ascends 0 ts
    → count_in s window (run (with_window limit window) [] ts).1 ≤ limit
unfolding with_window
window_limit limit window ts s open_ a =
    run-Inv (with_window limit window) [] 0 ts
      (record { window_open = open_; remembered = λ r lt. omega arith; limited = λ r. omega arith })
      a s

-- `can_accept_new_connection` foretells the answer of `record_new_connection`; an accepted
-- connection is counted, and a refusal leaves the count, which is then at the limit.
pub record_new_connection_lem :
    (l : GlobalConnectionRateLimiter) (now : ℕ)
    → 0 < l.window_duration
    → ((can_accept_new_connection l now ≡ true)
        × ((record_new_connection l now).1 ≡ true)
        × (current_count (record_new_connection l now).0 now ≡ current_count l now + 1))
      ⊎ ((can_accept_new_connection l now ≡ false)
          × ((record_new_connection l now).1 ≡ false)
          × (current_count (record_new_connection l now).0 now ≡ current_count l now)
          × (l.max_per_window ≤ current_count l now))
unfolding can_accept_new_connection record_new_connection current_count cleanup_expired
record_new_connection_lem l now h = ground (
  arith,
  length-retain (in_window l now) l.connection_times,
  count-retain (in_window l now) l.connection_times,
  count-append (in_window l now) (retain (in_window l now) l.connection_times) (now ∷ []),
)
