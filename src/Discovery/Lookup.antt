-- ===== src/Discovery/Lookup.antt =====
-- What `get` of the discovery service returns.
use agentme.Prelude.{
  ℕ, zero, suc, ◌-◌, ◌≤◌, ◌<◌, ◌≡◌, ◌⊎◌, inl, inr, refl, sym, ap, subst, ◌∙◌, true, false, Option,
  none, some, List, [], ◌∷◌, ◌++◌, length, Result, ok, err, Text, text_key, codes, starts_with,
  arith, Option-cases, Bool-cases, le→leb, leb→le, length-append,
}
use mathlib.Core.Option.{some-injective}
use agentme.Prelude.Map.{get, remove, get-remove}
use agentme.Discovery.Card.{CapabilityCard}
use agentme.Discovery.Cache.{CacheState, CacheEntry, cache_insert, cache_get, is_fresh}
use agentme.Discovery.Cache.Recency.{Recency, drop, store}
use agentme.Discovery.Cache.Refinement.{IsValid, view, get-view, cache_insert-store}
use agentme.Discovery.{
  Network, no_network, open_channel, closed_channel, send_failed, DiscoveryService, SwarmCommand,
  insert_card, remove_from_search_index, register, get_card, query_dht, get_record, DiscoveryError,
  announce,
}
use agentme.Search.Hybrid.{did_of}
use agentme.Search.Embedding.{SearchError}

module _ {A : Type 0} where
  get-last :
      (did : Text) (e : CacheEntry A) (m : Recency A) (k : ℕ)
      → get did m ≡ none
      → k ≤ length m
      → get did (drop k (m ++ (did, e) ∷ [])) ≡ some e
  get-last did e [] zero h b = ground arith
  get-last did e [] (suc k) h b = absurd (omega arith)
  get-last did e ((d, x) ∷ m) zero h b = ground (arith, get-last did e m zero, h)
  get-last did e ((d, x) ∷ m) (suc k) h b = get-last did e m k (ground arith) (omega arith)

  -- An entry is in the cache after its insertion, if the cache has any room.
  pub get-cache_insert :
      (s : CacheState A) (did : Text) (card : A) (now max : ℕ)
      → IsValid s.entries s.lru
      → 1 ≤ max
      → get did (cache_insert s did card now max).0.entries
        ≡ some (record { card = card; cached_at = now })
  unfolding store
  get-cache_insert s did card now max v h =
      let (valid, order, bound) = cache_insert-store s did card now max v in
      sym (get-view (cache_insert s did card now max).0 did valid)
      ∙ ap (get did) order
      ∙ get-last did _ (remove did (view s)) _ (ground (arith, get-remove did did (view s))) (
          omega (
            arith,
            length-append (remove did (view s))
                ((did, record { card = card; cached_at = now }) ∷ []),
          ))

module _ {F : Type 0} where
  old :
      (e e' : CacheEntry (CapabilityCard F)) (ttl now : ℕ)
      → e ≡ e'
      → is_fresh ttl now e ≡ false
      → ttl < now - e'.cached_at
  old e e' ttl now p f = subst (λ x. ttl < now - x.cached_at) p (ground arith)

  -- What the network makes of a request: the commands that it gets, and the result.
  abbrev pub asked :
      Network
      → Text
      → Option (CapabilityCard F)
      → List (SwarmCommand F) × Result DiscoveryError (Option (CapabilityCard F))
  asked no_network did answer = ([], ok none)
  asked open_channel did answer = (get_record did ∷ [], ok answer)
  asked closed_channel did answer = ([], err send_failed)

module _ {F R : Type 0} where
  pub cache-insert_card :
      (s : DiscoveryService F R) (did : Text) (card : CapabilityCard F) (now : ℕ)
      → (insert_card s did card now).cache
        ≡ (cache_insert s.cache did card now s.cache_config.max_entries).0
  unfolding insert_card remove_from_search_index
  cache-insert_card s did card now = refl

  abbrev Answers :
      List (SwarmCommand F)
      → Result DiscoveryError (Option (CapabilityCard F))
      → DiscoveryService F R
        × List (SwarmCommand F)
        × Result DiscoveryError (Option (CapabilityCard F))
      → Type 0
  Answers sent result outcome = (outcome.1 ≡ sent) × (outcome.2 ≡ result)

  get_card-cached :
      (s : DiscoveryService F R) (did : Text) (e : CacheEntry (CapabilityCard F))
      (answer : Option (CapabilityCard F)) (now later : ℕ)
      → get did s.cache.entries ≡ some e
      → is_fresh s.cache_config.ttl now e ≡ true
      → Answers [] (ok (some e.card)) (get_card s did answer now later)
  unfolding get_card cache_get
  get_card-cached s did e answer now later h k = rw (get_card, cache_get, h, k) (refl, refl)

  query_dht-asked :
      (n : Network) (s : DiscoveryService F R) (did : Text) (answer : Option (CapabilityCard F))
      (later : ℕ)
      → Answers (asked n did answer).0 (asked n did answer).1 (query_dht n s did answer later)
  query_dht-asked no_network s did answer later = (refl, refl)
  query_dht-asked open_channel s did none later = (refl, refl)
  query_dht-asked open_channel s did (some card) later = (refl, refl)
  query_dht-asked closed_channel s did answer later = (refl, refl)

  abbrev looked_up : DiscoveryService F R → Text → ℕ → DiscoveryService F R
  looked_up s did now = record s { cache = (cache_get s.cache did s.cache_config.ttl now).0 }

  -- `get` returns the card that is cached under the identifier, and asks nobody, if it was cached
  -- no longer ago than the time to live; and otherwise what the network makes of the request:
  -- nothing without a network, its answer, or an error if its channel is closed.
  get_card_lem :
      (s : DiscoveryService F R) (did : Text) (answer : Option (CapabilityCard F)) (now later : ℕ)
      → let (s', sent, result) = get_card s did answer now later in
        ((e : CacheEntry (CapabilityCard F)) × (get did s.cache.entries ≡ some e)
          × (now - e.cached_at ≤ s.cache_config.ttl)
          × (sent ≡ [])
          × (result ≡ ok (some e.card)))
        ⊎ (((e : CacheEntry (CapabilityCard F))
              → get did s.cache.entries ≡ some e
              → s.cache_config.ttl < now - e.cached_at)
            × (sent ≡ (asked s.network did answer).0)
            × (result ≡ (asked s.network did answer).1))
  unfolding get_card cache_get
  get_card_lem s did answer now later = elim (Option-cases (get did s.cache.entries)) [
    | inl n ↦
        let (sent, result) = query_dht-asked s.network (looked_up s did now) did answer later in
        inr (
          (λ e h. absurd (ground (arith, n, h))),
          rw (get_card, cache_get, n) sent,
          rw (get_card, cache_get, n) result,
        )
    | inr (e, h) ↦ elim (Bool-cases (is_fresh s.cache_config.ttl now e)) [
      | inl f ↦
          let (sent, result) = get_card-cached s did e answer now later h f in
          inl (e, h, leb→le _ _ f, sent, result)
      | inr f ↦
          let (sent, result) = query_dht-asked s.network (looked_up s did now) did answer later in
          inr (
            (λ e' h'. old e e' _ _ (some-injective e e' (sym h ∙ h')) f),
            rw (get_card, cache_get, h, f) sent,
            rw (get_card, cache_get, h, f) result,
          )
    ]
  ]

-- What a registration comes to on a network.
abbrev pub accepted : Network → Result DiscoveryError (Unit {0})
accepted no_network = ok tt
accepted open_channel = ok tt
accepted closed_channel = err send_failed

announce-accepted :
    {F : Type 0} (n : Network) (did : Text) (card : CapabilityCard F)
    → (announce n did card).1 ≡ accepted n
announce-accepted no_network did card = refl
announce-accepted open_channel did card = refl
announce-accepted closed_channel did card = refl

module _ {F R : Type 0} (embed : Text → Result SearchError (List R)) where
  register-accepted :
      (s : DiscoveryService F R) (card : CapabilityCard F) (did : Text) (now : ℕ)
      → did_of card ≡ some did
      → starts_with did (codes "did:") ≡ true
      → (register embed s card now).2 ≡ accepted s.network
  unfolding register
  register-accepted s card did now h k = rw (register, h, k) (announce-accepted s.network did card)

  register-cached :
      (s : DiscoveryService F R) (card : CapabilityCard F) (did : Text) (now : ℕ)
      → did_of card ≡ some did
      → starts_with did (codes "did:") ≡ true
      → let s' = (register embed s card now).0 in
        (s'.cache ≡ (cache_insert s.cache did card now s.cache_config.max_entries).0)
        × (s'.cache_config ≡ s.cache_config)
  unfolding register insert_card remove_from_search_index
  register-cached s card did now h k = rw (register, h, k) (refl, refl)

  -- A registration of a card under a well-formed identifier succeeds without a network and with an
  -- open channel, and fails with the error of the channel if that is closed. In each case, a lookup
  -- of the identifier that directly follows it, no later than the time to live, returns the card
  -- and asks nobody, whatever the network would answer. The cache must have room for one card at
  -- least, and be valid.
  pub get_card-register :
      (s : DiscoveryService F R) (card : CapabilityCard F) (did : Text)
      (answer : Option (CapabilityCard F)) (now next later : ℕ)
      → IsValid s.cache.entries s.cache.lru
      → 1 ≤ s.cache_config.max_entries
      → did_of card ≡ some did
      → starts_with did (codes "did:") ≡ true
      → next - now ≤ s.cache_config.ttl
      → let (registered, sent_first, outcome) = register embed s card now in
        let (s', sent, result) = get_card registered did answer next later in
        (outcome ≡ accepted s.network) × (sent ≡ []) × (result ≡ ok (some card))
  get_card-register s card did answer now next later v room h k fresh =
      let s' = (register embed s card now).0 in
      let (cached, same_config) = register-cached s card did now h k in
      let (sent, result) =
        get_card-cached s' did (record { card = card; cached_at = now }) answer next later
          (ap (λ c. get did c.entries) cached
            ∙ get-cache_insert s.cache did card now s.cache_config.max_entries v room)
          (ap (λ c. is_fresh c.ttl next (record { card = card; cached_at = now })) same_config
            ∙ le→leb _ _ fresh) in
      (register-accepted s card did now h k, sent, result)
