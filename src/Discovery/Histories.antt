-- ===== src/Discovery/Histories.antt =====
-- The discovery service in use: registrations, searches by keyword, invalidations and clearings.
use agentme.Prelude.{
  ℕ, ◌≤◌, ◌≡◌, refl, sym, subst, ◌∙◌, inl, inr, Bool, Bool-cases, false, Option, some, List, [],
  ◌∷◌, Result, Text, text_key, arith, length,
}
use agentme.Discovery.Card.{CapabilityCard}
use agentme.Discovery.Cache.{cache_remove, clear}
use agentme.Discovery.Cache.Refinement.{IsValid, cache_insert-store, removed}
use agentme.Discovery.Cache.Pruning.{prune_expired-prune}
use agentme.Discovery.{
  DiscoveryService, DiscoveryCacheConfig, Network, from_parts, register, search_simple, invalidate,
  clear_cache, insert_card, prune_expired_cache, remove_from_search_index,
}
use agentme.Discovery.Index.{
  Covered, indexed_at, prune_expired_cache-Covered, invalidate-Covered, clear_cache-Covered,
  registered-Covered, register-cases, registered,
}
use agentme.Search.Hybrid.{HybridSearch, did_of}
use agentme.Search.Embedding.{SearchError}

empty-IsValid : {A : Type 0} → IsValid {A = A} [] []
empty-IsValid = record { distinct = tt; keys = tt; listed = λ k. refl; counted = refl }

pub data ServiceEvent (F : Type 0) : Type 0 where
  registers : CapabilityCard F → ℕ → ServiceEvent F
  searches : Text → ℕ → ServiceEvent F
  invalidates : Text → ServiceEvent F
  clears : ServiceEvent F

module _ {F R : Type 0} (embed : Text → Result SearchError (List R)) (to_lowercase : Text → Text)
    (less : F → F → Bool) (zero : F) where
  unfoldable pub serve : DiscoveryService F R → ServiceEvent F → DiscoveryService F R
  serve s (registers card now) = (register embed s card now).0
  serve s (searches query now) = (search_simple to_lowercase less zero s query now).0
  serve s (invalidates did) = (invalidate s did).0
  serve s clears = clear_cache s

  unfoldable pub serve_all : DiscoveryService F R → List (ServiceEvent F) → DiscoveryService F R
  serve_all s [] = s
  serve_all s (e ∷ events) = serve_all (serve s e) events

  invalidate-cache :
      (s : DiscoveryService F R) (did : Text)
      → ((invalidate s did).0.cache ≡ (cache_remove s.cache did).0)
        × ((invalidate s did).0.cache_config ≡ s.cache_config)
  unfolding invalidate remove_from_search_index
  invalidate-cache s did = elim (Bool-cases (cache_remove s.cache did).1) [
    | inl e ↦ rw (invalidate, e) (refl, refl)
    | inr e ↦ rw (invalidate, e) (refl, refl)
  ]

  module _ (config : DiscoveryCacheConfig) (room : 1 ≤ config.max_entries) where
    record Kept (s : DiscoveryService F R) : Type 0 where
      configured : s.cache_config ≡ config
      valid : IsValid s.cache.entries s.cache.lru
      bound : length s.cache.lru ≤ config.max_entries
      covered : Covered s

    registered-Kept :
        (s : DiscoveryService F R) (did : Text) (card : CapabilityCard F) (now : ℕ)
        → did_of card ≡ some did
        → Kept s
        → Kept (registered embed s did card now)
    unfolding insert_card remove_from_search_index
    registered-Kept s did card now d k =
        let has_room : 1 ≤ s.cache_config.max_entries =
          subst (λ c. 1 ≤ c.max_entries) (sym k.configured) room in
        let (valid, order, bound) =
          cache_insert-store s.cache did card now s.cache_config.max_entries k.valid in
        record {
          configured = k.configured;
          valid = valid;
          bound =
              subst (λ c. length (registered embed s did card now).cache.lru ≤ c.max_entries)
                k.configured bound;
          covered = registered-Covered embed s did card now k.valid has_room d k.covered;
        }

    serve-Kept : (s : DiscoveryService F R) (e : ServiceEvent F) → Kept s → Kept (serve s e)
    unfolding serve search_simple prune_expired_cache clear_cache clear remove_from_search_index
    serve-Kept s (registers card now) k = elim (register-cases embed s card now) [
      | inl same ↦ subst Kept (sym same) k
      | inr (did, d, same) ↦ subst Kept (sym same) (registered-Kept s did card now d k)
    ]
    serve-Kept s (searches query now) k =
        let (valid, order, shorter) = prune_expired-prune s.cache s.cache_config.ttl now k.valid in
        record {
          configured = k.configured;
          valid = valid;
          bound = omega (arith, shorter, k.bound);
          covered = prune_expired_cache-Covered s now k.covered;
        }
    serve-Kept s (invalidates did) k =
        let (valid, order, shorter) = removed s.cache did k.valid in
        let (same, same_config) = invalidate-cache s did in
        record {
          configured = same_config ∙ k.configured;
          valid = subst (λ c. IsValid c.entries c.lru) (sym same) valid;
          bound =
              subst (λ c. length c.lru ≤ config.max_entries) (sym same)
                (omega (arith, shorter, k.bound));
          covered = invalidate-Covered s did k.covered;
        }
    serve-Kept s clears k = record {
      configured = k.configured;
      valid = empty-IsValid;
      bound = omega arith;
      covered = clear_cache-Covered s;
    }

    serve_all-Kept :
        (s : DiscoveryService F R) (events : List (ServiceEvent F))
        → Kept s
        → Kept (serve_all s events)
    unfolding serve_all
    serve_all-Kept s [] k = k
    serve_all-Kept s (e ∷ events) k = serve_all-Kept (serve s e) events (serve-Kept s e k)

  -- A discovery service whose cache has room for a card at least, after any history of
  -- registrations, searches by keyword, invalidations and clearings from its start with an empty
  -- search index or without one: each card in the search index is in the cache, the cache is within
  -- its size, and its queue has the identifier of each cached card once.
  pub serve_all-Covered :
      (config : DiscoveryCacheConfig) (network : Network) (h : Option (HybridSearch F R))
      (events : List (ServiceEvent F))
      → 1 ≤ config.max_entries
      → ((k : Text) → indexed_at h k ≡ false)
      → let s = serve_all (from_parts network h config) events in
        Covered s
        × IsValid s.cache.entries s.cache.lru
        × (length s.cache.entries ≤ config.max_entries)
  unfolding from_parts
  serve_all-Covered config network h events room none_indexed =
      let k = serve_all-Kept config room (from_parts network h config) events (record {
        configured = refl;
        valid = empty-IsValid;
        bound = omega arith;
        covered = λ k i. absurd (ground (arith, i, none_indexed k));
      }) in
      (k.covered, k.valid, omega (arith, k.valid.counted, k.bound))
