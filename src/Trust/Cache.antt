-- ===== src/Trust/Cache.antt =====
-- `TrustCache` (node/src/trust_cache.rs). The moka cache behind it is a parameter. A request that
-- may load awaits its loader between two steps: get_or_load is their composition. The clocks are
-- arguments: `now` for the expiry, `unix`, in seconds, for the time an entry is given.
pub mod Freshness
mod Tests
use agentme.Prelude.{
  ℕ, ◌+◌, ◌-◌, ◌*◌, ◌%◌, ◌^◌, Bool, true, false, ◌&&◌, Option, none, some, ◌==◌, if◌then◌else◌,
  Result, ok, err, Text,
}
use agentme.Prelude.Map.{is_some}
use agentme.Float.{F64}
use agentme.Trust.{TrustInfo}

-- `moka::future::Cache`: its builder takes the capacity and the time to live, `get` and the
-- maintenance take the time and may drop entries.
pub record MokaCache (C E : Type 0) : Type 0 where
  pub build : ℕ → ℕ → C
  pub read : C → Text → ℕ → C × Option E
  pub store : C → Text → E → ℕ → C
  pub drop : C → Text → C
  pub drop_all : C → C
  pub run_pending_tasks : C → ℕ → C
  pub size : C → ℕ

abbrev pub default_ttl_secs : ℕ
default_ttl_secs = 300

abbrev pub default_max_entries : ℕ
default_max_entries = 10_000

pub record TrustCacheConfig : Type 0 where
  pub ttl : ℕ
  pub max_entries : ℕ
  pub enabled : Bool

abbrev pub default_config : TrustCacheConfig
default_config = record {
  ttl = default_ttl_secs * 1_000_000_000;
  max_entries = default_max_entries;
  enabled = true;
}

unfoldable pub with_ttl : ℕ → TrustCacheConfig
with_ttl ttl = record default_config { ttl = ttl }

unfoldable pub disabled : TrustCacheConfig
disabled = record default_config { enabled = false }

pub record TrustCacheStats : Type 0 where
  pub hits : ℕ
  pub misses : ℕ
  pub evictions : ℕ
  pub invalidations : ℕ

abbrev pub no_stats : TrustCacheStats
no_stats = record { hits = 0; misses = 0; evictions = 0; invalidations = 0 }

-- `fetch_add(1)` wraps.
abbrev pub add_one : ℕ → ℕ
add_one n = (n + 1) % 2 ^ 64

unfoldable pub total_requests : TrustCacheStats → ℕ
total_requests s = (s.hits + s.misses) % 2 ^ 64

unfoldable pub hit_rate : {F : Type 0} → F64 F → TrustCacheStats → F
hit_rate f s =
    let total = total_requests s in
    if total == 0 then f.zero else f.quotient (f.from_u64 s.hits) (f.from_u64 total)

pub record CachedTrustInfo (F : Type 0) : Type 0 where
  pub info : TrustInfo F
  pub cached_at : ℕ

-- `CachedTrustInfo::new`.
abbrev pub cached_info : {F : Type 0} → TrustInfo F → ℕ → CachedTrustInfo F
cached_info info unix = record { info = info; cached_at = unix }

unfoldable pub age_secs : {F : Type 0} → CachedTrustInfo F → ℕ → ℕ
age_secs e unix = unix - e.cached_at

pub record TrustCache (C : Type 0) : Type 0 where
  pub cache : Option C
  pub config : TrustCacheConfig
  pub stats : TrustCacheStats

abbrev pub hit : TrustCacheStats → TrustCacheStats
hit s = record s { hits = add_one s.hits }

abbrev pub missed : TrustCacheStats → TrustCacheStats
missed s = record s { misses = add_one s.misses }

abbrev pub dropped : TrustCacheStats → TrustCacheStats
dropped s = record s { invalidations = add_one s.invalidations }

module _ {C : Type 0} where
  unfoldable pub is_enabled : TrustCache C → Bool
  is_enabled t = t.config.enabled && is_some t.cache

  unfoldable pub reset : TrustCache C → TrustCache C
  reset t = record t { stats = no_stats }

module _ {C F : Type 0} (moka : MokaCache C (CachedTrustInfo F)) where
  unfoldable pub new : TrustCacheConfig → TrustCache C
  new config = record {
    cache = if config.enabled then some (moka.build config.max_entries config.ttl) else none;
    config = config;
    stats = no_stats;
  }

  abbrev pub counted :
      TrustCacheStats
      → C × Option (CachedTrustInfo F)
      → Option C × TrustCacheStats × Option (CachedTrustInfo F)
  counted s (c, some e) = (some c, hit s, some e)
  counted s (c, none) = (some c, missed s, none)

  abbrev pub looked_up :
      TrustCache C
      → Option C × TrustCacheStats × Option (CachedTrustInfo F)
      → TrustCache C × Option (CachedTrustInfo F)
  looked_up t (c, s, e) = (record t { cache = c; stats = s }, e)

  abbrev pub look : TrustCache C → Option C → Text → ℕ → TrustCache C × Option (CachedTrustInfo F)
  look t none did now = looked_up t (none, missed t.stats, none)
  look t (some c) did now = looked_up t (counted t.stats (moka.read c did now))

  -- `get`, and the first step of `get_or_load`.
  unfoldable pub cached_trust : TrustCache C → Text → ℕ → TrustCache C × Option (CachedTrustInfo F)
  cached_trust t did now = look t t.cache did now

  abbrev pub on_cache : (C → C) → Option C → Option C
  on_cache g none = none
  on_cache g (some c) = some (g c)

  -- `insert`, and the last step of `get_or_load`.
  unfoldable pub insert_trust : TrustCache C → Text → TrustInfo F → ℕ → ℕ → TrustCache C
  insert_trust t did info now unix = record t {
    cache = on_cache (λ c. moka.store c did (cached_info info unix) now) t.cache;
  }

  -- What a miss makes of the result of the loader.
  abbrev pub load :
      {E : Type 0}
      → TrustCache C
      → Text
      → Result E (TrustInfo F)
      → ℕ
      → ℕ
      → TrustCache C × Result E (CachedTrustInfo F)
  load t did (ok info) now unix = (insert_trust t did info now unix, ok (cached_info info unix))
  load t did (err e) now unix = (t, err e)

  abbrev pub or_load :
      {E : Type 0}
      → TrustCache C × Option (CachedTrustInfo F)
      → Text
      → Result E (TrustInfo F)
      → ℕ
      → ℕ
      → TrustCache C × Result E (CachedTrustInfo F)
  or_load (t, some e) did loaded now unix = (t, ok e)
  or_load (t, none) did loaded now unix = load t did loaded now unix

  -- The loader's result, and the times after it.
  unfoldable pub get_or_load :
      {E : Type 0}
      → TrustCache C
      → Text
      → ℕ
      → Result E (TrustInfo F)
      → ℕ
      → ℕ
      → TrustCache C × Result E (CachedTrustInfo F)
  get_or_load t did asked loaded now unix = or_load (cached_trust t did asked) did loaded now unix

  abbrev pub dropped_from : TrustCache C → Option C → Text → TrustCache C
  dropped_from t none did = t
  dropped_from t (some c) did = record t { cache = some (moka.drop c did); stats = dropped t.stats }

  unfoldable pub invalidate : TrustCache C → Text → TrustCache C
  invalidate t did = dropped_from t t.cache did

  unfoldable pub invalidate_all : TrustCache C → ℕ → TrustCache C
  invalidate_all t now = record t {
    cache = on_cache (λ c. moka.run_pending_tasks (moka.drop_all c) now) t.cache;
  }

  abbrev pub count_of : Option C → ℕ
  count_of none = 0
  count_of (some c) = moka.size c

  unfoldable pub entry_count : TrustCache C → ℕ
  entry_count t = count_of t.cache

  unfoldable pub run_maintenance : TrustCache C → ℕ → TrustCache C
  run_maintenance t now = record t { cache = on_cache (λ c. moka.run_pending_tasks c now) t.cache }
