-- ===== src/Security/Capacity/Bounded.antt =====
-- The connection set stays a set, within its limit, and says who is connected.
use agentme.Prelude.{
  ℕ, ◌+◌, ◌≤◌, ◌≡◌, inl, inr, true, false, List, [], ◌∷◌, leb, length, contains, Distinct,
  contains-without, without-Distinct, length-without-le, ok, err, ite, arith, Bool-cases,
}
use agentme.Security.Ip.{IpAddr, ip_key}
use agentme.Security.Capacity.{
  ConnectionTracker, connection_limit_exceeded, new, can_accept_connection, add_connection,
  remove_connection, has_connection, current_count, remaining_capacity,
}

pub record IsValid (t : ConnectionTracker) : Type 0 where
  pub distinct : Distinct t.connections
  pub bounded : length t.connections ≤ t.max_connections

-- What `add_connection` did, by its branches.
pub data Added (t : ConnectionTracker) (ip : IpAddr) : Type 0 where
  known : has_connection t ip ≡ true → add_connection t ip ≡ (t, ok tt) → Added t ip
  refused :
      has_connection t ip ≡ false
      → can_accept_connection t ≡ false
      → add_connection t ip ≡ (t, err connection_limit_exceeded)
      → Added t ip
  fresh :
      has_connection t ip ≡ false
      → can_accept_connection t ≡ true
      → (add_connection t ip).1 ≡ ok tt
      → current_count (add_connection t ip).0 ≡ current_count t + 1
      → ((jp : IpAddr)
          → has_connection (add_connection t ip).0 jp
            ≡ ite (ip_key.equal ip jp) true (has_connection t jp))
      → Added t ip

-- A known address changes nothing; a new one is refused, with nothing changed, exactly when the
-- set is full; otherwise it alone is added and the count grows by one.
add_connection-Added : (t : ConnectionTracker) (ip : IpAddr) → Added t ip
unfolding has_connection add_connection can_accept_connection current_count
add_connection-Added t ip = elim (Bool-cases (contains ip t.connections)) [
  | inl old ↦ known old (ground arith)
  | inr new ↦ elim (Bool-cases (leb t.max_connections (length t.connections))) [
    | inl full ↦ refused new (ground arith) (ground arith)
    | inr room ↦
        fresh new (ground arith) (ground arith) (rw (new, room) (omega arith))
          (λ jp. rw (new, room))
  ]
]

remove_connection_lem :
    (t : ConnectionTracker) (ip jp : IpAddr)
    → has_connection (remove_connection t ip) jp
      ≡ ite (ip_key.equal ip jp) false (has_connection t jp)
unfolding has_connection remove_connection
remove_connection_lem t ip jp = contains-without ip jp t.connections

pub data Event : Type 0 where
  joins leaves : IpAddr → Event

unfoldable pub run : ConnectionTracker → List Event → ConnectionTracker
run t [] = t
run t (joins ip ∷ es) = run (add_connection t ip).0 es
run t (leaves ip ∷ es) = run (remove_connection t ip) es

add-IsValid : (t : ConnectionTracker) (ip : IpAddr) → IsValid t → IsValid (add_connection t ip).0
unfolding add_connection
add-IsValid t ip v = ground arith

remove-IsValid :
    (t : ConnectionTracker) (ip : IpAddr) → IsValid t → IsValid (remove_connection t ip)
unfolding remove_connection
remove-IsValid t ip v = record {
  distinct = without-Distinct ip t.connections v.distinct;
  bounded = omega (arith, v.bounded, length-without-le ip t.connections);
}

run-IsValid : (t : ConnectionTracker) (es : List Event) → IsValid t → IsValid (run t es)
unfolding run
run-IsValid t [] v = v
run-IsValid t (joins ip ∷ es) v = run-IsValid (add_connection t ip).0 es (add-IsValid t ip v)
run-IsValid t (leaves ip ∷ es) v = run-IsValid (remove_connection t ip) es (remove-IsValid t ip v)

-- After any history from an empty tracker, no address stands twice, and the count and the
-- remaining capacity add up to the limit.
run-capacity :
    (limit : ℕ) (es : List Event)
    → let t = run (new limit) es in
      Distinct t.connections × (current_count t + remaining_capacity t ≡ t.max_connections)
unfolding current_count remaining_capacity new
run-capacity limit es =
    let v = run-IsValid (new limit) es (record { distinct = tt; bounded = omega arith }) in
    (v.distinct, omega (arith, v.bounded))
