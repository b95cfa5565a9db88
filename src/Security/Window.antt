-- ===== src/Security/Window.antt =====
-- `GlobalConnectionRateLimiter` (node/src/network/security.rs): at most so many new connections in
-- a sliding window, over all addresses. Times are nanoseconds, and the clock is the argument `now`:
-- the two readings of it in `record_new_connection` are one.
pub mod Sliding
use agentme.Prelude.{
  ℕ, ◌+◌, ◌-◌, ◌*◌, Bool, true, false, List, [], ◌∷◌, ◌++◌, leb, ltb, if◌then◌else◌, length, retain,
  count,
}

pub record GlobalConnectionRateLimiter : Type 0 where
  pub connection_times : List ℕ
  pub max_per_window : ℕ
  pub window_duration : ℕ

unfoldable pub with_window : ℕ → ℕ → GlobalConnectionRateLimiter
with_window max_per_window window_duration = record {
  connection_times = [];
  max_per_window = max_per_window;
  window_duration = window_duration;
}

unfoldable pub new : ℕ → GlobalConnectionRateLimiter
unfolding with_window
new max_per_minute = with_window max_per_minute (60 * 1_000_000_000)

abbrev pub in_window : GlobalConnectionRateLimiter → ℕ → ℕ → Bool
in_window l now t = ltb (now - t) l.window_duration

unfoldable pub cleanup_expired : GlobalConnectionRateLimiter → ℕ → GlobalConnectionRateLimiter
cleanup_expired l now = record l { connection_times = retain (in_window l now) l.connection_times }

unfoldable pub current_count : GlobalConnectionRateLimiter → ℕ → ℕ
current_count l now = count (in_window l now) l.connection_times

unfoldable pub can_accept_new_connection : GlobalConnectionRateLimiter → ℕ → Bool
can_accept_new_connection l now =
    let active_count = count (in_window l now) l.connection_times in
    ltb active_count l.max_per_window

unfoldable pub record_new_connection :
    GlobalConnectionRateLimiter → ℕ → GlobalConnectionRateLimiter × Bool
unfolding cleanup_expired
record_new_connection l now =
    let cleaned = cleanup_expired l now in
    if leb cleaned.max_per_window (length cleaned.connection_times)
    then (cleaned, false)
    else (record cleaned { connection_times = cleaned.connection_times ++ (now ∷ []) }, true)

unfoldable pub remaining_capacity : GlobalConnectionRateLimiter → ℕ → ℕ
unfolding current_count
remaining_capacity l now = l.max_per_window - current_count l now
