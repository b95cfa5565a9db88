-- ===== src/Discovery/Cache.antt =====
-- `DiscoveryCacheState` (node/src/discovery.rs): the cards by identifier, and the identifiers from
-- the least to the most recently used. The type of the cards is a parameter.
pub mod Recency
pub mod Refinement
pub mod Pruning
pub mod Histories
use agentme.Prelude.{
  ℕ, ◌-◌, Bool, true, false, not, Option, none, some, List, [], ◌∷◌, ◌++◌, map, ltb, leb,
  if◌then◌else◌, length, retain, Text, without, text_key,
}
use agentme.Prelude.Map.{Map, get, insert, remove, is_some}

pub record CacheEntry (A : Type 0) : Type 0 where
  pub card : A
  pub cached_at : ℕ

pub record CacheState (A : Type 0) : Type 0 where
  pub entries : Map Text (CacheEntry A)
  pub lru : List Text

module _ {A : Type 0} where
  abbrev pub empty : CacheState A
  empty = record { entries = []; lru = [] }

  unfoldable pub touch : CacheState A → Text → CacheState A
  touch s did = record s { lru = without did s.lru ++ did ∷ [] }

  -- The loop of `insert`, over the rest of the queue: the state after it, and what was evicted.
  unfoldable pub evict : ℕ → Map Text (CacheEntry A) → List Text → CacheState A × List Text
  evict max_entries entries [] = (record { entries = entries; lru = [] }, [])
  evict max_entries entries (oldest ∷ lru) =
      let (rest, evicted) = evict max_entries (remove oldest entries) lru in
      if ltb max_entries (length entries)
      then (rest, if is_some (get oldest entries) then oldest ∷ evicted else evicted)
      else (record { entries = entries; lru = oldest ∷ lru }, [])

  -- The state, and the identifiers that were evicted.
  unfoldable pub cache_insert : CacheState A → Text → A → ℕ → ℕ → CacheState A × List Text
  cache_insert s did card now max_entries =
      let written = record s {
        entries = insert did (record { card = card; cached_at = now }) s.entries;
      } in
      let touched = touch written did in evict max_entries touched.entries touched.lru

  unfoldable pub cache_remove : CacheState A → Text → CacheState A × Bool
  cache_remove s did = (
    record { entries = remove did s.entries; lru = without did s.lru },
    is_some (get did s.entries),
  )

  abbrev pub is_fresh : ℕ → ℕ → CacheEntry A → Bool
  is_fresh ttl now e = leb (now - e.cached_at) ttl

  unfoldable pub cache_get : CacheState A → Text → ℕ → ℕ → CacheState A × Option A
  cache_get s did ttl now = elim (get did s.entries) [
    | none ↦ ((cache_remove s did).0, none)
    | some e ↦
        if is_fresh ttl now e then (touch s did, some e.card) else ((cache_remove s did).0, none)
  ]

  unfoldable pub clear : CacheState A → CacheState A
  clear s = empty

  -- The loop of `prune_expired`.
  unfoldable pub remove_all : CacheState A → List Text → CacheState A
  remove_all s [] = s
  remove_all s (did ∷ dids) = remove_all (cache_remove s did).0 dids

  unfoldable pub expired : CacheState A → ℕ → ℕ → List Text
  expired s ttl now = map (λ x. x.0) (retain (λ x. not (is_fresh ttl now x.1)) s.entries)

  unfoldable pub prune_expired : CacheState A → ℕ → ℕ → CacheState A × List Text
  prune_expired s ttl now = (remove_all s (expired s ttl now), expired s ttl now)
