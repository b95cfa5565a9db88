-- ===== src/Security/Tests.antt =====
-- Runs of node/src/network/security.rs on small inputs.
use agentme.Prelude.{
  ◌*◌, ◌≤◌, ◌≡◌, refl, true, false, Option, none, some, List, [], ◌∷◌, length, arith, contains,
  Distinct, ok, Text,
}
use agentme.Security.Ip.{
  IpAddr, v4, v6, Prefix24, Prefix16, ip_key, prefix24_key, prefix16_key, extract_subnet_16,
}
use agentme.Security.Tracker.Bag.{occurrences}
use agentme.Security.Subnet24
use agentme.Security.Sybil.{PeerEvent, connected, disconnected, run24, live24, run24-refines}
use agentme.Security.Backoff.{ConnectionRateLimiter, Attempt, nanos, calculate_delay}
use agentme.Security.Backoff.Delay.{delay_lost}
use agentme.Security.Window
use agentme.Security.Window.Sliding
use agentme.Security.Window.Sliding.{count_in, window_limit, record_new_connection_lem}
use agentme.Security.Capacity
use agentme.Security.Bootstrap.{
  subnet_of, extract_ip_from_multiaddr, first_parsed, NetworkConfig, validate_bootstrap_peers,
  validate_network_config,
}
use agentme.Security.Bootstrap.Eclipse.{Offers, network_resists, diverse_accepted}

abbrev history : List PeerEvent
history =
    connected (v4 10 0 0 1)
    ∷ connected (v4 10 0 0 2)
    ∷ connected (v6 7)
    ∷ disconnected (v4 10 0 0 1)
    ∷ []

run24-refines_example :
    let t = run24 Subnet24.new history in
    (Subnet24.connection_count t (v4 10 0 0 9)
      ≡ occurrences (Prefix24.octets 10 0 0) (live24 history))
    × (Subnet24.connection_count t (v4 10 0 0 9) ≤ 5)
    × (Subnet24.total_connections t ≡ length (live24 history))
run24-refines_example = run24-refines history 10 0 0 9

-- One address failed three times, the last time at 5 seconds; another is blocked.
abbrev peer : IpAddr
peer = v4 10 0 0 1

abbrev tried : Attempt
tried = record { last_attempt = 5_000_000_000; failures = 3 }

abbrev limiter : ConnectionRateLimiter
limiter = record {
  attempts = (peer, tried) ∷ [];
  base_delay = nanos;
  max_delay = 300 * nanos;
  max_failures = 10;
}

delay_lost_example : calculate_delay limiter 40 ≡ 0
delay_lost_example = delay_lost limiter 40 (omega arith) (omega arith)

window_limit_example :
    count_in 30 60 (Sliding.run (Window.with_window 2 60) [] (10 ∷ 40 ∷ 50 ∷ 95 ∷ [])).1 ≤ 2
window_limit_example =
    window_limit 2 60 (10 ∷ 40 ∷ 50 ∷ 95 ∷ []) 30 (omega arith)
      (omega arith, (omega arith, (omega arith, (omega arith, tt))))

abbrev window : Window.GlobalConnectionRateLimiter
window = record { connection_times = 10 ∷ 40 ∷ []; max_per_window = 2; window_duration = 60 }

abbrev nearly_full : Capacity.ConnectionTracker
nearly_full = record { connections = peer ∷ []; max_connections = 2 }

-- A toy parser: one character is an address of its own subnet.
abbrev toy_parse : Text → Option IpAddr
toy_parse (c ∷ []) = some (v4 c 0 0 1)
toy_parse _ = none

abbrev peers : List Text
peers = (1 ∷ []) ∷ (2 ∷ []) ∷ (3 ∷ []) ∷ []

abbrev subnets : List Prefix16
subnets = Prefix16.octets 1 0 ∷ Prefix16.octets 2 0 ∷ Prefix16.octets 3 0 ∷ []

subnet_of_peers :
    (subnet_of toy_parse (1 ∷ []) ≡ some (Prefix16.octets 1 0))
    × (subnet_of toy_parse (2 ∷ []) ≡ some (Prefix16.octets 2 0))
    × (subnet_of toy_parse (3 ∷ []) ≡ some (Prefix16.octets 3 0))
unfolding subnet_of extract_ip_from_multiaddr first_parsed extract_subnet_16
subnet_of_peers = (refl, refl, refl)

offered : (s : Prefix16) → contains s subnets ≡ true → Offers toy_parse s peers
offered s h = ground (arith, subnet_of_peers)

distinct : Distinct subnets
distinct = ground arith

valid : validate_bootstrap_peers toy_parse peers ≡ ok tt
valid = diverse_accepted toy_parse peers subnets distinct (omega arith) offered

abbrev network : NetworkConfig
network = record { listen_addresses = []; bootstrap_peers = peers; max_connections = 8 }

passes : validate_network_config toy_parse network ≡ ok tt
unfolding validate_network_config
passes = ground (arith, valid)

network_resists_example :
    (s : Prefix16) × Offers toy_parse s peers
    × (contains s (Prefix16.octets 1 0 ∷ Prefix16.octets 2 0 ∷ []) ≡ false)
network_resists_example =
    network_resists toy_parse network (Prefix16.octets 1 0 ∷ Prefix16.octets 2 0 ∷ []) passes
      (ground arith) (omega arith)
