-- ===== src/Discovery.antt =====
-- `DiscoveryService` (node/src/discovery.rs). An operation returns the service after it, the
-- commands that it sent to the swarm, and its result, where an error may come after a change. The
-- locks are not poisoned and a card serializes. `embed` is the embedding of a text, `to_lowercase`
-- that of the standard library; the answer of the DHT, after its time limit and its parsing, is an
-- argument of `get_card`.
pub mod Card
pub mod Cache
pub mod Lookup
pub mod Index
pub mod Histories
mod Tests
use agentme.Prelude.{
  ℕ, Bool, true, false, not, ◌||◌, Option, none, some, List, [], ◌∷◌, map, if◌then◌else◌, length,
  Result, ok, err, ◌>>=◌, ok_or, guard, ◌>>◌, Text, codes, starts_with, retain, sort, text_key,
}
use agentme.Prelude.Map.{Map}
use agentme.Discovery.Card.{CapabilityCard, Skill}
use agentme.Discovery.Cache.{
  CacheState, empty, cache_insert, cache_get, cache_remove, prune_expired, CacheEntry,
}
use agentme.Discovery.Cache as Cache
use agentme.Search.Hybrid as Hybrid
use agentme.Search.Hybrid.{HybridSearch, SearchResult, remove_card, index_card, occurs}
use agentme.Search.Embedding.{SearchError}

pub record DiscoveryCacheConfig : Type 0 where
  pub ttl : ℕ
  pub max_entries : ℕ

-- Seconds in nanoseconds.
abbrev pub default_config : DiscoveryCacheConfig
default_config = record { ttl = 300000000000; max_entries = 10000 }

-- `SwarmCommand`, the commands that the service sends; a card stands for its JSON.
pub data SwarmCommand (F : Type 0) : Type 0 where
  put_record : Text → CapabilityCard F → SwarmCommand F
  publish : Text → CapabilityCard F → SwarmCommand F
  request : Text → SwarmCommand F
  get_record : Text → SwarmCommand F

pub data DiscoveryError : Type 0 where
  missing_extension invalid_did_format send_failed : DiscoveryError

-- The sender of commands: there is none, or its channel is open or closed.
pub data Network : Type 0 where
  no_network open_channel closed_channel : Network

pub record DiscoveryService (F R : Type 0) : Type 0 where
  pub cache : CacheState (CapabilityCard F)
  pub cache_config : DiscoveryCacheConfig
  pub network : Network
  pub hybrid_search : Option (HybridSearch F R)

abbrev pub topic : Text
topic = codes "/agoramesh/discovery/1.0.0"

-- What an operation leaves: the service, the commands sent, and its result.
abbrev pub Outcome : Type 0 → Type 0 → Type 0 → Type 0
Outcome F R B = DiscoveryService F R × List (SwarmCommand F) × Result DiscoveryError B

module _ {F : Type 0} where
  -- Two sends, of which the first fails if the channel is closed.
  abbrev pub announce :
      Network → Text → CapabilityCard F → List (SwarmCommand F) × Result DiscoveryError (Unit {0})
  announce no_network did card = ([], ok tt)
  announce open_channel did card = (put_record did card ∷ publish topic card ∷ [], ok tt)
  announce closed_channel did card = ([], err send_failed)

module _ {F R : Type 0} where
  unfoldable pub from_parts :
      Network → Option (HybridSearch F R) → DiscoveryCacheConfig → DiscoveryService F R
  from_parts network hybrid_search cache_config = record {
    cache = empty;
    cache_config = cache_config;
    network = network;
    hybrid_search = hybrid_search;
  }

  abbrev pub remove_cards : HybridSearch F R → List Text → HybridSearch F R
  remove_cards s [] = s
  remove_cards s (did ∷ dids) = remove_cards (remove_card s did).0 dids

  abbrev pub on_search :
      (HybridSearch F R → HybridSearch F R) → Option (HybridSearch F R) → Option (HybridSearch F R)
  on_search g none = none
  on_search g (some s) = some (g s)

  unfoldable pub remove_from_search_index : DiscoveryService F R → List Text → DiscoveryService F R
  remove_from_search_index s dids = record s {
    hybrid_search = on_search (λ h. remove_cards h dids) s.hybrid_search;
  }

  unfoldable pub insert_card :
      DiscoveryService F R → Text → CapabilityCard F → ℕ → DiscoveryService F R
  insert_card s did card now =
      let (cache, evicted) = cache_insert s.cache did card now s.cache_config.max_entries in
      remove_from_search_index (record s { cache = cache }) evicted

  unfoldable pub prune_expired_cache : DiscoveryService F R → ℕ → DiscoveryService F R
  prune_expired_cache s now =
      let (cache, expired) = prune_expired s.cache s.cache_config.ttl now in
      remove_from_search_index (record s { cache = cache }) expired

  unfoldable pub invalidate : DiscoveryService F R → Text → DiscoveryService F R × Bool
  invalidate s did =
      let (cache, removed) = cache_remove s.cache did in
      let s' = record s { cache = cache } in
      (if removed then remove_from_search_index s' (did ∷ []) else s', removed)

  unfoldable pub clear_cache : DiscoveryService F R → DiscoveryService F R
  clear_cache s = record s {
    cache = Cache.clear s.cache;
    hybrid_search = on_search Hybrid.clear s.hybrid_search;
  }

  unfoldable pub has_semantic_search : DiscoveryService F R → Bool
  has_semantic_search s = elim (s.hybrid_search) [ none ↦ false | some h ↦ true ]

  unfoldable pub request_registry_broadcast : DiscoveryService F R → Outcome F R Bool
  request_registry_broadcast s = elim (s.network) [
    | no_network ↦ (s, [], ok false)
    | open_channel ↦ (s, request topic ∷ [], ok true)
    | closed_channel ↦ (s, [], err send_failed)
  ]

  unfoldable pub cache_size : DiscoveryService F R → ℕ → DiscoveryService F R × ℕ
  cache_size s now =
      let cache = (prune_expired s.cache s.cache_config.ttl now).0 in
      (record s { cache = cache }, length cache.entries)

  -- The DHT's answer is a card, if it came in time and parsed.
  abbrev pub answered :
      DiscoveryService F R
      → Text
      → Option (CapabilityCard F)
      → ℕ
      → Outcome F R (Option (CapabilityCard F))
  answered s did none now = (s, get_record did ∷ [], ok none)
  answered s did (some card) now = (insert_card s did card now, get_record did ∷ [], ok (some card))

  abbrev pub query_dht :
      Network
      → DiscoveryService F R
      → Text
      → Option (CapabilityCard F)
      → ℕ
      → Outcome F R (Option (CapabilityCard F))
  query_dht no_network s did answer now = (s, [], ok none)
  query_dht open_channel s did answer now = answered s did answer now
  query_dht closed_channel s did answer now = (s, [], err send_failed)

  unfoldable pub get_card :
      DiscoveryService F R
      → Text
      → Option (CapabilityCard F)
      → ℕ
      → ℕ
      → Outcome F R (Option (CapabilityCard F))
  get_card s did answer now later =
      let (cache, found) = cache_get s.cache did s.cache_config.ttl now in
      let s' = record s { cache = cache } in
      elim found [
        | some card ↦ (s', [], ok (some card))
        | none ↦ query_dht s.network s' did answer later
      ]

module _ {F R : Type 0} (embed : Text → Result SearchError (List R)) where
  -- An indexing that fails is only logged.
  abbrev pub indexed : CapabilityCard F → HybridSearch F R → HybridSearch F R
  indexed card h = elim (index_card embed h card) [ ok h' ↦ h' | err e ↦ h ]

  abbrev pub register_as :
      DiscoveryService F R → Text → CapabilityCard F → ℕ → Outcome F R (Unit {0})
  register_as s did card now =
      let cached = insert_card s did card now in
      let s' = record cached { hybrid_search = on_search (indexed card) cached.hybrid_search } in
      let (sent, result) = announce s.network did card in (s', sent, result)

  unfoldable pub register : DiscoveryService F R → CapabilityCard F → ℕ → Outcome F R (Unit {0})
  register s card now = elim (Hybrid.did_of card) [
    | none ↦ (s, [], err missing_extension)
    | some did ↦
        if starts_with did (codes "did:")
        then register_as s did card now
        else (s, [], err invalid_did_format)
  ]

module _ (to_lowercase : Text → Text) where
  abbrev pub skill_matches : Text → Skill → Bool
  skill_matches query skill =
      occurs query (to_lowercase skill.name)
      || (elim (skill.description) [ none ↦ false | some d ↦ occurs query (to_lowercase d) ])

  abbrev pub any_skill : Text → List Skill → Bool
  any_skill query [] = false
  any_skill query (skill ∷ skills) = skill_matches query skill || any_skill query skills

  module _ {F : Type 0} where
    unfoldable pub card_matches : CapabilityCard F → Text → Bool
    card_matches card query =
        occurs query (to_lowercase card.name)
        || occurs query (to_lowercase card.description)
        || any_skill query card.skills

    abbrev pub trust_of : F → CapabilityCard F → F
    trust_of zero card = elim (card.agoramesh) [
      | none ↦ zero
      | some ext ↦ elim (ext.trust_score) [ none ↦ zero | some score ↦ score ]
    ]
    -- `less` is `partial_cmp` giving `Less`, and `zero` is 0.0.

  module _ {F R : Type 0} where
    unfoldable pub search_simple :
        (F → F → Bool)
        → F
        → DiscoveryService F R
        → Text
        → ℕ
        → DiscoveryService F R × List (CapabilityCard F)
    search_simple less zero s query now =
        let s' = prune_expired_cache s now in
        let query_lower = to_lowercase query in
        (
          s',
          sort (λ a b. less (trust_of zero a) (trust_of zero b))
              (retain (λ card. card_matches card query_lower)
                (map (λ x. x.1.card) s'.cache.entries)),
        )

    -- The search of the index, if there is one and it does not fail. `hybrid` is that search.
    unfoldable pub search :
        (HybridSearch F R → Text → Result SearchError (List (SearchResult F R)))
        → (F → F → Bool)
        → F
        → DiscoveryService F R
        → Text
        → ℕ
        → DiscoveryService F R × List (CapabilityCard F)
    search hybrid less zero s query now = elim (s.hybrid_search) [
      | none ↦ search_simple less zero s query now
      | some h ↦ elim (hybrid h query) [
        | ok results ↦ (s, map (λ r. r.card) results)
        | err e ↦ search_simple less zero s query now
      ]
    ]
