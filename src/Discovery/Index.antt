-- ===== src/Discovery/Index.antt =====
-- The search index against the cache.
use agentme.Prelude.{
  ℕ, ◌≤◌, ◌≡◌, refl, sym, ap, subst, ◌∙◌, Bool, true, false, Option, none, some, List, [], ◌∷◌,
  if◌then◌else◌, ltb, length, Result, Text, text_key, codes, starts_with, arith, contains,
  Option-cases, Result-cases, Bool-cases, inl, inr, ◌⊎◌, map,
}
use mathlib.Core.Option.{some-injective}
use agentme.Prelude.Map.{Map, get, insert, remove, get-remove, get-insert, is_some}
use agentme.Discovery.Card.{CapabilityCard}
use agentme.Discovery.Cache.{
  CacheState, CacheEntry, cache_insert, cache_remove, evict, touch, remove_all, prune_expired,
  expired,
}
use agentme.Discovery.Cache.Refinement.{IsValid}
use agentme.Discovery.{
  DiscoveryService, insert_card, remove_from_search_index, remove_cards, on_search,
  prune_expired_cache, invalidate, clear_cache, register, indexed,
}
use agentme.Discovery.Lookup.{get-cache_insert, cache-insert_card}
use agentme.Search.Hybrid.{HybridSearch, remove_card, index_card, did_of}
use agentme.Search.Hybrid as Hybrid
use agentme.Search.Embedding.{SearchError, card_to_text}

module _ {A : Type 0} where
  skipped :
      (max : ℕ) (m : Map Text (CacheEntry A)) (oldest : Text) (lru : List Text) (k : Text)
      → let (rest, evicted) = evict max (remove oldest m) lru in
        (contains k evicted ≡ false → get k rest.entries ≡ get k (remove oldest m))
        → contains k (if is_some (get oldest m) then oldest ∷ evicted else evicted) ≡ false
        → get k rest.entries ≡ get k m
  skipped max m oldest lru k ih h = elim (Option-cases (get oldest m)) [
    | inl n ↦ ground (arith, ih, n, get-remove oldest k m)
    | inr (e, held) ↦ ground (arith, ih, held, get-remove oldest k m)
  ]

  -- What the loop of `insert` does not evict stays.
  evict-kept :
      (max : ℕ) (m : Map Text (CacheEntry A)) (lru : List Text) (k : Text)
      → contains k (evict max m lru).1 ≡ false
      → get k (evict max m lru).0.entries ≡ get k m
  unfolding evict
  evict-kept max m [] k h = refl
  evict-kept max m (oldest ∷ lru) k h = elim (Bool-cases (ltb max (length m))) [
    | inr room ↦ rw room refl
    | inl full ↦
        rw full (skipped max m oldest lru k (evict-kept max (remove oldest m) lru k) (rw full at h))
  ]

  remove_all-get :
      (s : CacheState A) (dids : List Text) (k : Text)
      → get k (remove_all s dids).entries ≡ (if contains k dids then none else get k s.entries)
  unfolding remove_all cache_remove
  remove_all-get s [] k = refl
  remove_all-get s (did ∷ dids) k =
      ground (arith, remove_all-get (cache_remove s did).0 dids k, get-remove did k s.entries)

module _ {F R : Type 0} where
  remove_cards-get :
      (h : HybridSearch F R) (dids : List Text) (k : Text)
      → get k (remove_cards h dids).index ≡ (if contains k dids then none else get k h.index)
  unfolding remove_card
  remove_cards-get h [] k = refl
  remove_cards-get h (did ∷ dids) k =
      ground (arith, remove_cards-get (remove_card h did).0 dids k, get-remove did k h.index)

  abbrev pub indexed_at : Option (HybridSearch F R) → Text → Bool
  indexed_at none k = false
  indexed_at (some h) k = is_some (get k h.index)

  -- Every indexed card is cached.
  abbrev pub Covered : DiscoveryService F R → Type 0
  Covered s =
      (k : Text) → indexed_at s.hybrid_search k ≡ true → is_some (get k s.cache.entries) ≡ true

  indexed_at-remove :
      (o : Option (HybridSearch F R)) (dids : List Text) (k : Text)
      → indexed_at (on_search (λ h. remove_cards h dids) o) k
        ≡ (if contains k dids then false else indexed_at o k)
  indexed_at-remove none dids k = ground arith
  indexed_at-remove (some h) dids k = ground (arith, remove_cards-get h dids k)

  insert_card-Covered :
      (s : DiscoveryService F R) (did : Text) (card : CapabilityCard F) (now : ℕ)
      → Covered s
      → Covered (insert_card s did card now)
  unfolding insert_card remove_from_search_index cache_insert touch
  insert_card-Covered s did card now c k h =
      let e : CacheEntry (CapabilityCard F) = record { card = card; cached_at = now } in
      let entries = insert did e s.cache.entries in
      let out = evict s.cache_config.max_entries entries (touch s.cache did).lru in
      ground (
        arith,
        h,
        indexed_at-remove s.hybrid_search out.1 k,
        evict-kept s.cache_config.max_entries entries (touch s.cache did).lru k,
        get-insert did k e s.cache.entries,
        c k,
      )

  pub prune_expired_cache-Covered :
      (s : DiscoveryService F R) (now : ℕ) → Covered s → Covered (prune_expired_cache s now)
  unfolding prune_expired_cache remove_from_search_index prune_expired
  prune_expired_cache-Covered s now c k h =
      let gone = expired s.cache s.cache_config.ttl now in
      ground
        (arith, h, indexed_at-remove s.hybrid_search gone k, remove_all-get s.cache gone k, c k)

  pub invalidate-Covered :
      (s : DiscoveryService F R) (did : Text) → Covered s → Covered (invalidate s did).0
  unfolding invalidate remove_from_search_index cache_remove
  invalidate-Covered s did c k h = elim (Bool-cases (is_some (get did s.cache.entries))) [
    | inl held ↦ rw held (
        ground (
          arith,
          rw held at h,
          indexed_at-remove s.hybrid_search (did ∷ []) k,
          get-remove did k s.cache.entries,
          c k,
        ))
    | inr absent ↦
        rw absent (ground (arith, rw absent at h, get-remove did k s.cache.entries, c k, absent))
  ]

  indexed_at-clear :
      (o : Option (HybridSearch F R)) (k : Text) → indexed_at (on_search Hybrid.clear o) k ≡ false
  unfolding Hybrid.clear
  indexed_at-clear none k = refl
  indexed_at-clear (some h) k = refl

  pub clear_cache-Covered : (s : DiscoveryService F R) → Covered (clear_cache s)
  unfolding clear_cache
  clear_cache-Covered s k h = absurd (ground (arith, h, indexed_at-clear s.hybrid_search k))

module _ {F R : Type 0} (embed : Text → Result SearchError (List R)) where
  get-index_card :
      (h : HybridSearch F R) (card : CapabilityCard F) (k : Text)
      → is_some (get k (indexed embed card h).index) ≡ true
      → (did_of card ≡ some k) ⊎ (is_some (get k h.index) ≡ true)
  unfolding index_card
  get-index_card h card k e = elim (Option-cases (did_of card)) [
    | inl n ↦ inr (ground (arith, e, n))
    | inr (did, d) ↦
        elim (Result-cases
          (embed (card_to_text card.name card.description (map (λ c. c.name) card.skills)))) [
            | inr (x, f) ↦ inr (ground (arith, e, d, f))
            | inl (vector, f) ↦ elim (text_key.equal did k) [
              | yes p ↦ inl (d ∙ ap some p)
              | no n ↦ inr (ground (arith, e, d, f, n, get-insert did k (card, vector) h.index))
            ]
          ]
  ]

  indexed_at-indexed :
      (o : Option (HybridSearch F R)) (card : CapabilityCard F) (k : Text)
      → indexed_at (on_search (indexed embed card) o) k ≡ true
      → (did_of card ≡ some k) ⊎ (indexed_at o k ≡ true)
  indexed_at-indexed none card k e = inr e
  indexed_at-indexed (some h) card k e = get-index_card h card k e

  abbrev pub registered : DiscoveryService F R → Text → CapabilityCard F → ℕ → DiscoveryService F R
  registered s did card now =
      let cached = insert_card s did card now in
      record cached { hybrid_search = on_search (indexed embed card) cached.hybrid_search }

  -- A registration that is refused changes nothing.
  pub register-cases :
      (s : DiscoveryService F R) (card : CapabilityCard F) (now : ℕ)
      → ((register embed s card now).0 ≡ s)
        ⊎ ((did : Text) × (did_of card ≡ some did)
            × ((register embed s card now).0 ≡ registered s did card now))
  unfolding register
  register-cases s card now = elim (Option-cases (did_of card)) [
    | inl n ↦ inl (rw (register, n) refl)
    | inr (did, d) ↦ elim (Bool-cases (starts_with did (codes "did:"))) [
      | inr bad ↦ inl (rw (register, d, bad) refl)
      | inl good ↦ inr (did, d, rw (register, d, good) refl)
    ]
  ]

  pub registered-Covered :
      (s : DiscoveryService F R) (did : Text) (card : CapabilityCard F) (now : ℕ)
      → IsValid s.cache.entries s.cache.lru
      → 1 ≤ s.cache_config.max_entries
      → did_of card ≡ some did
      → Covered s
      → Covered (registered s did card now)
  registered-Covered s did card now v room d c k h =
      let cached = insert_card s did card now in
      elim (indexed_at-indexed cached.hybrid_search card k h) [
        | inr before ↦ insert_card-Covered s did card now c k before
        | inl same ↦
            subst (λ x. is_some (get x cached.cache.entries) ≡ true)
              (some-injective did k (sym d ∙ same))
              (ap (λ m. is_some (get did m.entries)) (cache-insert_card s did card now)
                ∙ ap is_some
                    (get-cache_insert s.cache did card now s.cache_config.max_entries v room))
      ]
