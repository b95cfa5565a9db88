-- ===== src/Security/Tracker.antt =====
-- What `SubnetTracker` and `Subnet16Tracker` (node/src/network/security.rs) share: the number of
-- connections per subnet. Their methods differ in the prefix alone, so they are written once over
-- a prefix type `P`; `none` is an address that has no prefix (IPv6).
pub mod Bag
pub mod Refinement
pub mod Runs
use agentme.Prelude.{
  ℕ, ◌-◌, ◌+◌, Bool, true, Option, none, some, ltb, leb, ◌==◌, if◌then◌else◌, Key, Result, ok, err,
  [],
}
use agentme.Prelude.Map.{Map, get, insert, remove, or_zero, sum_values}

-- `Error::Network` with its message.
pub data Error : Type 0 where
  subnet_limit_exceeded : Error

pub record Tracker (P : Type 0) : Type 0 where
  pub connections : Map P ℕ
  pub max_per_subnet : ℕ

module _ {P : Type 0} ⦃k : Key P⦄ where
  abbrev pub current : Tracker P → P → ℕ
  current t subnet = or_zero (get subnet t.connections)

  unfoldable pub accepts : Tracker P → Option P → Bool
  accepts t (some subnet) = ltb (current t subnet) t.max_per_subnet
  accepts t none = true

  -- `entry(subnet).or_insert(0)` leaves an entry behind even where the limit refuses.
  unfoldable pub add : Tracker P → Option P → Tracker P × Result Error (Unit {0})
  add t (some subnet) =
      let opened = insert subnet (current t subnet) t.connections in
      if leb t.max_per_subnet (current t subnet)
      then (record t { connections = opened }, err subnet_limit_exceeded)
      else (record t { connections = insert subnet (current t subnet + 1) opened }, ok tt)
  add t none = (t, ok tt)

  -- The count falls, not below 0, and its entry goes when it reaches 0.
  unfoldable pub drop_one : Tracker P → P → Option ℕ → Tracker P
  drop_one t subnet (some n) =
      let lowered = insert subnet (n - 1) t.connections in
      if n - 1 == 0
      then record t { connections = remove subnet lowered }
      else record t { connections = lowered }
  drop_one t subnet none = t

  unfoldable pub release : Tracker P → Option P → Tracker P
  unfolding drop_one
  release t (some subnet) = drop_one t subnet (get subnet t.connections)
  release t none = t

  unfoldable pub tally : Tracker P → Option P → ℕ
  tally t (some subnet) = current t subnet
  tally t none = 0

module _ {P : Type 0} where
  unfoldable pub with_limit : ℕ → Tracker P
  with_limit max_per_subnet = record { connections = []; max_per_subnet = max_per_subnet }

  unfoldable pub total : Tracker P → ℕ
  total t = sum_values t.connections
