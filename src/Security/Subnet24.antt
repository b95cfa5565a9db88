-- ===== src/Security/Subnet24.antt =====
-- The tracker of /24 subnets (node/src/network/security.rs).
use agentme.Prelude.{ℕ, Bool, Result}
use agentme.Security.Ip.{IpAddr, Prefix24, prefix24_key, extract_subnet_24}
use agentme.Security.Tracker
use agentme.Security.Tracker.{Tracker, Error}

abbrev pub max_peers_per_subnet : ℕ
max_peers_per_subnet = 5

unfoldable pub new : Tracker Prefix24
new = Tracker.with_limit max_peers_per_subnet

unfoldable pub with_limit : ℕ → Tracker Prefix24
with_limit max_per_subnet = Tracker.with_limit max_per_subnet

unfoldable pub can_accept_connection : Tracker Prefix24 → IpAddr → Bool
can_accept_connection t ip = Tracker.accepts t (extract_subnet_24 ip)

unfoldable pub add_connection :
    Tracker Prefix24 → IpAddr → Tracker Prefix24 × Result Error (Unit {0})
add_connection t ip = Tracker.add t (extract_subnet_24 ip)

unfoldable pub remove_connection : Tracker Prefix24 → IpAddr → Tracker Prefix24
remove_connection t ip = Tracker.release t (extract_subnet_24 ip)

unfoldable pub connection_count : Tracker Prefix24 → IpAddr → ℕ
connection_count t ip = Tracker.tally t (extract_subnet_24 ip)

unfoldable pub total_connections : Tracker Prefix24 → ℕ
total_connections t = Tracker.total t
