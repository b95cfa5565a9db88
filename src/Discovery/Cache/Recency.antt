-- ===== src/Discovery/Cache/Recency.antt =====
-- What the cache promises: the entries in the order of their last use.
use agentme.Prelude.{
  ℕ, zero, suc, ◌-◌, Option, none, some, List, [], ◌∷◌, ◌++◌, if◌then◌else◌, length, Text, text_key,
  retain,
}
use agentme.Prelude.Map.{Map, get, remove}
use agentme.Discovery.Cache.{CacheEntry, is_fresh}

abbrev pub Recency : Type 0 → Type 0
Recency A = Map Text (CacheEntry A)

abbrev pub drop {ℓ} : {A : Type ℓ} → ℕ → List A → List A
drop zero xs = xs
drop (suc n) [] = []
drop (suc n) (x ∷ xs) = drop n xs

module _ {A : Type 0} where
  -- The entry becomes the last one; of more than `max` entries the first ones go.
  unfoldable pub store : Recency A → Text → A → ℕ → ℕ → Recency A
  store m did card now max =
      let m' = remove did m ++ (did, record { card = card; cached_at = now }) ∷ [] in
      drop (length m' - max) m'

  -- A fresh entry becomes the last one; another one goes.
  unfoldable pub fetch : Recency A → Text → ℕ → ℕ → Recency A × Option A
  fetch m did ttl now = elim (get did m) [
    | none ↦ (remove did m, none)
    | some e ↦
        if is_fresh ttl now e
        then (remove did m ++ (did, e) ∷ [], some e.card)
        else (remove did m, none)
  ]

  unfoldable pub prune : Recency A → ℕ → ℕ → Recency A
  prune m ttl now = retain (λ x. is_fresh ttl now x.1) m
