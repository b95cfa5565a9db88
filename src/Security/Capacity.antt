-- ===== src/Security/Capacity.antt =====
-- `ConnectionTracker` (node/src/network/security.rs): the set of connected addresses, bounded. A
-- `HashSet` is a list in which nothing stands twice.
pub mod Bounded
use agentme.Prelude.{
  ℕ, ◌-◌, ◌+◌, Bool, true, false, List, [], ◌∷◌, leb, ltb, if◌then◌else◌, length, contains, not,
  without, Result, ok, err, ite, Key,
}
use agentme.Security.Ip.{IpAddr, ip_key}

pub data Error : Type 0 where
  connection_limit_exceeded : Error

pub record ConnectionTracker : Type 0 where
  pub connections : List IpAddr
  pub max_connections : ℕ

unfoldable pub new : ℕ → ConnectionTracker
new max_connections = record { connections = []; max_connections = max_connections }

unfoldable pub can_accept_connection : ConnectionTracker → Bool
can_accept_connection t = ltb (length t.connections) t.max_connections

unfoldable pub add_connection :
    ConnectionTracker → IpAddr → ConnectionTracker × Result Error (Unit {0})
add_connection t ip =
    if contains ip t.connections
    then (t, ok tt)
    else if leb t.max_connections (length t.connections)
    then (t, err connection_limit_exceeded)
    else (record t { connections = ip ∷ t.connections }, ok tt)

unfoldable pub remove_connection : ConnectionTracker → IpAddr → ConnectionTracker
remove_connection t ip = record t { connections = without ip t.connections }

unfoldable pub has_connection : ConnectionTracker → IpAddr → Bool
has_connection t ip = contains ip t.connections

unfoldable pub current_count : ConnectionTracker → ℕ
current_count t = length t.connections

unfoldable pub remaining_capacity : ConnectionTracker → ℕ
remaining_capacity t = t.max_connections - length t.connections
