-- ===== src/Security/Subnet16.antt =====
-- The tracker of /16 subnets (node/src/network/security.rs).
use agentme.Prelude.{ℕ, Bool, Result}
use agentme.Security.Ip.{IpAddr, Prefix16, prefix16_key, extract_subnet_16}
use agentme.Security.Tracker
use agentme.Security.Tracker.{Tracker, Error}

abbrev pub max_peers_per_subnet : ℕ
max_peers_per_subnet = 3

unfoldable pub new : Tracker Prefix16
new = Tracker.with_limit max_peers_per_subnet

unfoldable pub with_limit : ℕ → Tracker Prefix16
with_limit max_per_subnet = Tracker.with_limit max_per_subnet

unfoldable pub can_accept_connection : Tracker Prefix16 → IpAddr → Bool
can_accept_connection t ip = Tracker.accepts t (extract_subnet_16 ip)

unfoldable pub add_connection :
    Tracker Prefix16 → IpAddr → Tracker Prefix16 × Result Error (Unit {0})
add_connection t ip = Tracker.add t (extract_subnet_16 ip)

unfoldable pub remove_connection : Tracker Prefix16 → IpAddr → Tracker Prefix16
remove_connection t ip = Tracker.release t (extract_subnet_16 ip)

unfoldable pub connection_count : Tracker Prefix16 → IpAddr → ℕ
connection_count t ip = Tracker.tally t (extract_subnet_16 ip)

unfoldable pub total_connections : Tracker Prefix16 → ℕ
total_connections t = Tracker.total t
