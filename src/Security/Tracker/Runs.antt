-- ===== src/Security/Tracker/Runs.antt =====
-- Histories of connections and disconnections.
use agentme.Prelude.{ℕ, ◌≡◌, Option, Key, List, [], ◌∷◌, ◌∙◌}
use agentme.Security.Tracker.{Tracker, add, release}
use agentme.Security.Tracker.Bag.{admit, leave}
use agentme.Security.Tracker.Refinement.{Counts, add-Counts, release-Counts}

-- What the peers do: `o` is the prefix of the address.
pub data Event (P : Type 0) : Type 0 where
  connects : Option P → Event P
  disconnects : Option P → Event P

module _ {P : Type 0} ⦃k : Key P⦄ where
  unfoldable pub run : Tracker P → List (Event P) → Tracker P
  run t [] = t
  run t (connects o ∷ es) = run (add t o).0 es
  run t (disconnects o ∷ es) = run (release t o) es

  -- The live connections after a history, by the specification.
  unfoldable pub live_after : ℕ → List P → List (Event P) → List P
  live_after limit live [] = live
  live_after limit live (connects o ∷ es) = live_after limit (admit limit o live).0 es
  live_after limit live (disconnects o ∷ es) = live_after limit (leave o live) es

  pub run-Counts :
      (t : Tracker P) (limit : ℕ) (live : List P) (es : List (Event P))
      → t.max_per_subnet ≡ limit
      → Counts t live
      → Counts (run t es) (live_after limit live es) × ((run t es).max_per_subnet ≡ limit)
  unfolding run live_after
  run-Counts t limit live [] e c = (c, e)
  run-Counts t limit live (connects o ∷ es) e c =
      let (c', _, e') = add-Counts t o live c in
      run-Counts (add t o).0 limit (admit limit o live).0 es (e' ∙ e) (rw (← e) c')
  run-Counts t limit live (disconnects o ∷ es) e c =
      let (c', e') = release-Counts t o live c in
      run-Counts (release t o) limit (leave o live) es (e' ∙ e) c'
