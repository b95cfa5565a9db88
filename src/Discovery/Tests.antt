-- ===== src/Discovery/Tests.antt =====
-- Runs of node/src/discovery.rs on small inputs.
use agentme.Prelude.{
  ℕ, ◌-◌, ◌≤◌, ◌<◌, ◌≡◌, refl, ◌⊎◌, true, false, Option, none, some, List, [], ◌∷◌, length, ltb,
  Result, ok, err, Text, codes, text_key, Text-discrete, arith,
}
use agentme.Prelude.Map.{get}
use agentme.Discovery.Card.{CapabilityCard}
use agentme.Discovery.Cache.{CacheEntry, empty, cache_get}
use agentme.Discovery.Cache.Recency.{fetch}
use agentme.Discovery.Cache.Refinement.{IsValid, view}
use agentme.Discovery.Cache.Histories.{
  CacheEvent, inserted, fetched, pruned, run, promises, cache-refines,
}
use agentme.Discovery.{
  DiscoveryService, open_channel, no_network, from_parts, register, get_card, get_record,
  default_config,
}
use agentme.Discovery.Lookup.{accepted, get_card-register}
use agentme.Discovery.Index.{Covered}
use agentme.Discovery.Histories.{registers, searches, serve_all, serve_all-Covered}
use agentme.Search.Embedding.{SearchError, embedding_failed}

abbrev history : List (CacheEvent ℕ)
history =
    inserted (codes "a") 1 10
    ∷ inserted (codes "b") 2 20
    ∷ fetched (codes "a") 30
    ∷ inserted (codes "c") 3 40
    ∷ pruned 45
    ∷ []

least_recent_gone :
    (get (codes "a") (promises 100 2 [] history) ≡ some (record { card = 1; cached_at = 10 }))
    × (get (codes "b") (promises 100 2 [] history) ≡ none)
unfolding promises agentme.Discovery.Cache.Histories.promise agentme.Discovery.Cache.Recency.prune
    agentme.Discovery.Cache.Recency.store fetch Text-discrete agentme.Prelude.ℕ_discrete
least_recent_gone = (refl, refl)

cache-refines_example :
    (view (run 100 2 empty history) ≡ promises 100 2 [] history)
    × IsValid (run 100 2 empty history).entries (run 100 2 empty history).lru
    × (length (run 100 2 empty history).entries ≤ 2)
    × ((did : Text) (now : ℕ)
        → (cache_get (run 100 2 empty history) did 100 now).1
          ≡ (fetch (promises 100 2 [] history) did 100 now).1)
cache-refines_example = cache-refines 100 2 history

abbrev card : CapabilityCard ℕ
card = record {
  name = codes "translator";
  description = codes "agent";
  url = codes "https://agent";
  provider = none;
  skills = [];
  authentication = none;
  agoramesh = some (record {
    did = codes "did:a";
    trust_score = some 900;
    stake = none;
    pricing = none;
    payment_methods = [];
  });
}

abbrev no_embedding : Text → Result SearchError (List ℕ)
no_embedding text = err embedding_failed

-- Its one entry is the card, cached at 5.
abbrev stale : DiscoveryService ℕ ℕ
stale = record {
  cache = record {
    entries = (codes "did:a", record { card = card; cached_at = 5 }) ∷ [];
    lru = codes "did:a" ∷ [];
  };
  cache_config = default_config;
  network = no_network;
  hybrid_search = some (record {
    index = (codes "did:a", (card, [])) ∷ [];
    config = record {
      vector_weight = 7;
      keyword_weight = 3;
      rrf_k = 60;
      max_results = 20;
      min_score = 1;
    };
  });
}

-- A lookup that drops an old card leaves it in the search index.
lookup_leaves_index :
    let s = (get_card stale (codes "did:a") none 300000000006 300000000006).0 in
    (s.cache.entries ≡ []) × (s.hybrid_search ≡ stale.hybrid_search)
unfolding get_card cache_get Text-discrete agentme.Prelude.ℕ_discrete
    agentme.Discovery.Cache.cache_remove
lookup_leaves_index = (refl, refl)

abbrev keep : Text → Text
keep text = text

abbrev start : DiscoveryService ℕ ℕ
start = from_parts open_channel none default_config

start-IsValid : IsValid start.cache.entries start.cache.lru
unfolding from_parts
start-IsValid = record { distinct = tt; keys = tt; listed = λ k. refl; counted = refl }

get_card-register_example :
    let (registered, sent_first, outcome) = register no_embedding start card 5 in
    let (s', sent, result) = get_card registered (codes "did:a") none 1000 1001 in
    (outcome ≡ accepted start.network) × (sent ≡ []) × (result ≡ ok (some card))
unfolding from_parts
get_card-register_example =
    get_card-register no_embedding start card (codes "did:a") none 5 1000 1001 start-IsValid
      (omega arith) refl refl (omega arith)

serve_all-Covered_example :
    let s =
      serve_all no_embedding keep ltb 0 start
        (registers card 5 ∷ searches (codes "translator") 6 ∷ []) in
    Covered s × IsValid s.cache.entries s.cache.lru × (length s.cache.entries ≤ 10000)
serve_all-Covered_example =
    serve_all-Covered no_embedding keep ltb 0 default_config open_channel none
      (registers card 5 ∷ searches (codes "translator") 6 ∷ []) (omega arith) (λ k. refl)
