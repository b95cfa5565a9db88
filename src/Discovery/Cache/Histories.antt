-- ===== src/Discovery/Cache/Histories.antt =====
-- The operations of the cache in any order.
use agentme.Prelude.{ℕ, ◌≤◌, ◌≡◌, refl, ap, ◌∙◌, List, [], ◌∷◌, length, Text, text_key, arith}
use agentme.Prelude.Map.{remove}
use agentme.Discovery.Cache.{
  CacheState, empty, cache_insert, cache_get, cache_remove, clear, prune_expired,
}
use agentme.Discovery.Cache.Recency.{Recency, store, fetch, prune}
use agentme.Discovery.Cache.Refinement.{IsValid, view, cache_insert-store, cache_get-fetch, removed}
use agentme.Discovery.Cache.Pruning.{prune_expired-prune}

pub data CacheEvent (A : Type 0) : Type 0 where
  inserted : Text → A → ℕ → CacheEvent A
  fetched : Text → ℕ → CacheEvent A
  dropped : Text → CacheEvent A
  cleared : CacheEvent A
  pruned : ℕ → CacheEvent A

module _ {A : Type 0} (ttl max : ℕ) where
  unfoldable pub apply : CacheState A → CacheEvent A → CacheState A
  apply s (inserted did card now) = (cache_insert s did card now max).0
  apply s (fetched did now) = (cache_get s did ttl now).0
  apply s (dropped did) = (cache_remove s did).0
  apply s cleared = clear s
  apply s (pruned now) = (prune_expired s ttl now).0

  unfoldable pub run : CacheState A → List (CacheEvent A) → CacheState A
  run s [] = s
  run s (e ∷ events) = run (apply s e) events

  -- The same on the entries in the order of their use.
  unfoldable pub promise : Recency A → CacheEvent A → Recency A
  promise m (inserted did card now) = store m did card now max
  promise m (fetched did now) = (fetch m did ttl now).0
  promise m (dropped did) = remove did m
  promise m cleared = []
  promise m (pruned now) = prune m ttl now

  unfoldable pub promises : Recency A → List (CacheEvent A) → Recency A
  promises m [] = m
  promises m (e ∷ events) = promises (promise m e) events

  -- A cache in use: in order, within its size, and as promised.
  record Keeps (s : CacheState A) (m : Recency A) : Type 0 where
    valid : IsValid s.entries s.lru
    order : view s ≡ m
    bound : length s.lru ≤ max

  empty-Keeps : Keeps empty []
  empty-Keeps = record {
    valid = record { distinct = tt; keys = tt; listed = λ k. refl; counted = refl };
    order = refl;
    bound = omega arith;
  }

  apply-Keeps :
      (s : CacheState A) (m : Recency A) (e : CacheEvent A)
      → Keeps s m
      → Keeps (apply s e) (promise m e)
  unfolding apply promise clear
  apply-Keeps s m (inserted did card now) k =
      let (valid, order, bound) = cache_insert-store s did card now max k.valid in
      record {
        valid = valid;
        order = order ∙ ap (λ n. store n did card now max) k.order;
        bound = bound;
      }
  apply-Keeps s m (fetched did now) k =
      let (valid, order, same, shorter) = cache_get-fetch s did ttl now k.valid in
      record {
        valid = valid;
        order = order ∙ ap (λ n. (fetch n did ttl now).0) k.order;
        bound = omega (arith, shorter, k.bound);
      }
  apply-Keeps s m (dropped did) k =
      let (valid, order, shorter) = removed s did k.valid in
      record {
        valid = valid;
        order = order ∙ ap (remove did) k.order;
        bound = omega (arith, shorter, k.bound);
      }
  apply-Keeps s m cleared k = empty-Keeps
  apply-Keeps s m (pruned now) k =
      let (valid, order, shorter) = prune_expired-prune s ttl now k.valid in
      record {
        valid = valid;
        order = order ∙ ap (λ n. prune n ttl now) k.order;
        bound = omega (arith, shorter, k.bound);
      }

  run-Keeps :
      (s : CacheState A) (m : Recency A) (events : List (CacheEvent A))
      → Keeps s m
      → Keeps (run s events) (promises m events)
  unfolding run promises
  run-Keeps s m [] k = k
  run-Keeps s m (e ∷ events) k = run-Keeps (apply s e) (promise m e) events (apply-Keeps s m e k)

  -- After any history of insertions, lookups, removals, clearings and prunings, the cache is the
  -- list of its entries in the order of their last use that the history promises: an insertion puts
  -- an entry last and drops the first ones beyond `max`, a lookup puts a fresh entry last and drops
  -- one that is too old, a pruning drops the old ones. It holds at most `max` entries, its queue
  -- has every key once, and a lookup answers as the list does.
  pub cache-refines :
      (events : List (CacheEvent A))
      → let s = run empty events in
        let m = promises [] events in
        (view s ≡ m)
        × IsValid s.entries s.lru
        × (length s.entries ≤ max)
        × ((did : Text) (now : ℕ) → (cache_get s did ttl now).1 ≡ (fetch m did ttl now).1)
  cache-refines events =
      let s = run empty events in
      let k = run-Keeps empty [] events empty-Keeps in
      (
        k.order,
        k.valid,
        omega (arith, k.valid.counted, k.bound),
        λ did now.
            (cache_get-fetch s did ttl now k.valid).2 ∙ ap (λ n. (fetch n did ttl now).1) k.order,
      )
