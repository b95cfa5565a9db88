-- ===== src/Security/Tracker/Refinement.antt =====
-- A subnet tracker implements the bag of live prefixes: each operation commutes with its view.
use agentme.Prelude.{
  ℕ, ◌+◌, ◌-◌, ◌≤◌, ◌≡◌, refl, Option, none, some, leb, Key, List, [], ◌∷◌, ite, arith, length,
  Option-cases, dec_lt, ap, ◌==◌, Bool-cases, inl, inr,
}
use agentme.Prelude.Map.{
  get, insert, remove, sum_values, DistinctKeys, insert-DistinctKeys, remove-DistinctKeys,
  get-insert, get-remove, sum_values-insert, sum_values-remove,
}
use agentme.Security.Tracker.{Tracker, current, add, release, drop_one, tally, with_limit, total}
use agentme.Security.Tracker.Bag.{
  occurrences, admit, erase, leave, occurrences-erase, erase_of_absent, length-erase,
}

module _ {P : Type 0} ⦃k : Key P⦄ where
  -- `t` counts the live prefixes, under its limit.
  pub record Counts (t : Tracker P) (live : List P) : Type 0 where
    pub keys : DistinctKeys t.connections
    pub exact : (p : P) → current t p ≡ occurrences p live
    pub summed : sum_values t.connections ≡ length live
    pub bounded : (p : P) → occurrences p live ≤ t.max_per_subnet

  pub with_limit-Counts : (limit : ℕ) → Counts (with_limit limit) []
  unfolding with_limit
  with_limit-Counts limit = record {
    keys = tt;
    exact = λ p. refl;
    summed = refl;
    bounded = λ p. omega arith;
  }

  -- An entry is written, and the bag changes by as much.
  write-Counts :
      (t : Tracker P) (p : P) (n : ℕ) (live live' : List P)
      → Counts t live
      → ((q : P) → occurrences q live' ≡ ite (k.equal p q) n (occurrences q live))
      → length live' + occurrences p live ≡ length live + n
      → n ≤ t.max_per_subnet
      → Counts (record t { connections = insert p n t.connections }) live'
  write-Counts t p n live live' c e l h = record {
    keys = insert-DistinctKeys p n t.connections c.keys;
    exact = λ q. ground (arith, c.exact q, e q, get-insert p q n t.connections);
    summed = ground (arith, c.exact p, sum_values-insert p n t.connections);
    bounded = λ q. ground (arith, c.bounded q, e q);
  }

  reserve-Counts :
      (t : Tracker P) (p : P) (live : List P)
      → Counts t live
      → Counts (record t { connections = insert p (occurrences p live) t.connections }) live
  reserve-Counts t p live c =
      write-Counts t p (occurrences p live) live live c (λ q. ground arith) refl (c.bounded p)

  -- An entry of value 0 goes, and the bag stays.
  remove-Counts :
      (t : Tracker P) (p : P) (live : List P)
      → Counts t live
      → occurrences p live ≡ 0
      → Counts (record t { connections = remove p t.connections }) live
  remove-Counts t p live c z = record {
    keys = remove-DistinctKeys p t.connections c.keys;
    exact = λ q. ground (arith, c.exact q, get-remove p q t.connections);
    summed = ground (arith, c.exact p, c.summed, sum_values-remove p t.connections c.keys);
    bounded = c.bounded;
  }

  pub add-Counts :
      (t : Tracker P) (o : Option P) (live : List P)
      → Counts t live
      → Counts (add t o).0 (admit t.max_per_subnet o live).0
        × ((add t o).1 ≡ (admit t.max_per_subnet o live).1)
        × ((add t o).0.max_per_subnet ≡ t.max_per_subnet)
  unfolding add admit
  add-Counts t (some p) live c = elim (Bool-cases (leb t.max_per_subnet (occurrences p live))) [
    | inl full ↦ rw (c.exact p, full) (reserve-Counts t p live c, refl, refl)
    | inr room ↦
        rw (c.exact p, room)
          (
            write-Counts _ p (occurrences p live + 1) live (p ∷ live) (reserve-Counts t p live c)
                (λ q. ground arith) (ground arith) (ground arith),
            refl,
            refl,
          )
  ]
  add-Counts t none live c = (c, refl, refl)

  lowered_length :
      (p : P) (live : List P)
      → length (erase p live) + occurrences p live ≡ length live + (occurrences p live - 1)
  lowered_length p live = elim (dec_lt 0 (occurrences p live)) [
    | yes h ↦ omega (arith, length-erase p live h)
    | no h ↦ omega (arith, ap length (erase_of_absent p live (omega arith)))
  ]

  lower-Counts :
      (t : Tracker P) (p : P) (live : List P)
      → Counts t live
      → Counts
          (record t { connections = insert p (occurrences p live - 1) t.connections })
          (erase p live)
  lower-Counts t p live c =
      write-Counts t p (occurrences p live - 1) live (erase p live) c
        (λ q. ground (arith, occurrences-erase p q live)) (lowered_length p live)
        (omega (arith, c.bounded p))

  drop_one-Counts :
      (t : Tracker P) (p : P) (live : List P)
      → Counts t live
      → Counts (drop_one t p (some (occurrences p live))) (erase p live)
  unfolding drop_one
  drop_one-Counts t p live c = elim (Bool-cases (occurrences p live - 1 == 0)) [
    | inl last ↦ rw last (
        remove-Counts _ p (erase p live) (lower-Counts t p live c)
          (ground (arith, occurrences-erase p p live)))
    | inr more ↦ rw more (lower-Counts t p live c)
  ]

  pub release-Counts :
      (t : Tracker P) (o : Option P) (live : List P)
      → Counts t live
      → Counts (release t o) (leave o live) × ((release t o).max_per_subnet ≡ t.max_per_subnet)
  unfolding release leave
  release-Counts t (some p) live c = elim (Option-cases (get p t.connections)) [
    | inl e ↦ rw (e, erase_of_absent p live (ground (arith, c.exact p))) (c, refl)
    | inr (n, e) ↦
        rw (e, drop_one)
          (rw (let n_exact : n ≡ occurrences p live = ground (arith, c.exact p) in n_exact)
            (drop_one-Counts t p live c, ground arith))
  ]
  release-Counts t none live c = (c, refl)

  -- The readers agree with the bag.
  pub tally-Counts :
      (t : Tracker P) (p : P) (live : List P)
      → Counts t live
      → tally t (some p) ≡ occurrences p live
  unfolding tally
  tally-Counts t p live c = c.exact p

  pub total-Counts : (t : Tracker P) (live : List P) → Counts t live → total t ≡ length live
  unfolding total
  total-Counts t live c = c.summed
