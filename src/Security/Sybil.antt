-- ===== src/Security/Sybil.antt =====
-- The Sybil limits over histories of peers, at /24 and /16.
use agentme.Prelude.{ℕ, ◌≤◌, ◌≡◌, refl, Option, List, [], ◌∷◌, length, arith}
use agentme.Security.Ip.{
  IpAddr, v4, Prefix24, Prefix16, prefix24_key, prefix16_key, extract_subnet_24, extract_subnet_16,
}
use agentme.Security.Tracker
use agentme.Security.Tracker.{Tracker}
use agentme.Security.Tracker.Bag.{occurrences}
use agentme.Security.Tracker.Refinement.{Counts, with_limit-Counts, tally-Counts, total-Counts}
use agentme.Security.Tracker.Runs.{Event, connects, disconnects, run, live_after, run-Counts}
use agentme.Security.Subnet24
use agentme.Security.Subnet16

pub data PeerEvent : Type 0 where
  connected : IpAddr → PeerEvent
  disconnected : IpAddr → PeerEvent

-- The history as the tracker over a prefix sees it.
unfoldable pub seen : {P : Type 0} → (IpAddr → Option P) → List PeerEvent → List (Event P)
seen extract [] = []
seen extract (connected ip ∷ es) = connects (extract ip) ∷ seen extract es
seen extract (disconnected ip ∷ es) = disconnects (extract ip) ∷ seen extract es

unfoldable pub run24 : Tracker Prefix24 → List PeerEvent → Tracker Prefix24
run24 t [] = t
run24 t (connected ip ∷ es) = run24 (Subnet24.add_connection t ip).0 es
run24 t (disconnected ip ∷ es) = run24 (Subnet24.remove_connection t ip) es

unfoldable pub run16 : Tracker Prefix16 → List PeerEvent → Tracker Prefix16
run16 t [] = t
run16 t (connected ip ∷ es) = run16 (Subnet16.add_connection t ip).0 es
run16 t (disconnected ip ∷ es) = run16 (Subnet16.remove_connection t ip) es

run24-seen :
    (t : Tracker Prefix24) (es : List PeerEvent) → run24 t es ≡ run t (seen extract_subnet_24 es)
unfolding run24 seen run Subnet24.add_connection Subnet24.remove_connection
run24-seen t [] = refl
run24-seen t (connected ip ∷ es) = run24-seen (Subnet24.add_connection t ip).0 es
run24-seen t (disconnected ip ∷ es) = run24-seen (Subnet24.remove_connection t ip) es

run16-seen :
    (t : Tracker Prefix16) (es : List PeerEvent) → run16 t es ≡ run t (seen extract_subnet_16 es)
unfolding run16 seen run Subnet16.add_connection Subnet16.remove_connection
run16-seen t [] = refl
run16-seen t (connected ip ∷ es) = run16-seen (Subnet16.add_connection t ip).0 es
run16-seen t (disconnected ip ∷ es) = run16-seen (Subnet16.remove_connection t ip) es

-- The prefixes of the live connections, by the specification, from none.
abbrev pub live24 : List PeerEvent → List Prefix24
live24 es = live_after Subnet24.max_peers_per_subnet [] (seen extract_subnet_24 es)

abbrev pub live16 : List PeerEvent → List Prefix16
live16 es = live_after Subnet16.max_peers_per_subnet [] (seen extract_subnet_16 es)

run24-Counts :
    (es : List PeerEvent)
    → Counts (run24 Subnet24.new es) (live24 es) × ((run24 Subnet24.new es).max_per_subnet ≡ 5)
unfolding Subnet24.new
run24-Counts es =
    rw (run24-seen Subnet24.new es)
      (run-Counts _ 5 [] _ (unfold Tracker.with_limit in refl) (with_limit-Counts 5))

run16-Counts :
    (es : List PeerEvent)
    → Counts (run16 Subnet16.new es) (live16 es) × ((run16 Subnet16.new es).max_per_subnet ≡ 3)
unfolding Subnet16.new
run16-Counts es =
    rw (run16-seen Subnet16.new es)
      (run-Counts _ 3 [] _ (unfold Tracker.with_limit in refl) (with_limit-Counts 3))

-- After any history of connections and disconnections from an empty /24 tracker, the count of an
-- IPv4 address is the number of live connections of its /24 subnet in the specification, it is at
-- most 5, and the total is the number of live IPv4 connections.
pub run24-refines :
    (es : List PeerEvent) (a b c d : ℕ)
    → let t = run24 Subnet24.new es in
      (Subnet24.connection_count t (v4 a b c d) ≡ occurrences (Prefix24.octets a b c) (live24 es))
      × (Subnet24.connection_count t (v4 a b c d) ≤ 5)
      × (Subnet24.total_connections t ≡ length (live24 es))
unfolding Subnet24.connection_count Subnet24.total_connections extract_subnet_24
run24-refines es a b c d =
    let (counts, limit) = run24-Counts es in
    (
      tally-Counts _ _ _ counts,
      omega (
        arith,
        tally-Counts _ (Prefix24.octets a b c) _ counts,
        counts.bounded (Prefix24.octets a b c),
        limit,
      ),
      total-Counts _ _ counts,
    )

-- After any history of connections and disconnections from an empty /16 tracker, the count of an
-- IPv4 address is the number of live connections of its /16 subnet in the specification, it is at
-- most 3, and the total is the number of live IPv4 connections.
run16-refines :
    (es : List PeerEvent) (a b c d : ℕ)
    → let t = run16 Subnet16.new es in
      (Subnet16.connection_count t (v4 a b c d) ≡ occurrences (Prefix16.octets a b) (live16 es))
      × (Subnet16.connection_count t (v4 a b c d) ≤ 3)
      × (Subnet16.total_connections t ≡ length (live16 es))
unfolding Subnet16.connection_count Subnet16.total_connections extract_subnet_16
run16-refines es a b c d =
    let (counts, limit) = run16-Counts es in
    (
      tally-Counts _ _ _ counts,
      omega (
        arith,
        tally-Counts _ (Prefix16.octets a b) _ counts,
        counts.bounded (Prefix16.octets a b),
        limit,
      ),
      total-Counts _ _ counts,
    )
