-- ===== src/Trust/Cache/Freshness.antt =====
-- What the trust cache (node/src/trust_cache.rs) answers after any history.
use agentme.Prelude.{
  ℕ, ◌+◌, ◌<◌, ◌≡◌, refl, sym, ap, ◌∙◌, ◌⊎◌, inl, inr, Option, none, some, List, [], ◌∷◌,
  if◌then◌else◌, Text, text_key, same, arith, Result, ok, err, Bool-cases, subst,
}
use agentme.Trust.{TrustInfo}
use agentme.Trust.Cache.{
  MokaCache, TrustCache, TrustCacheConfig, TrustCacheStats, CachedTrustInfo, cached_info, new,
  cached_trust, insert_trust, invalidate, invalidate_all, get_or_load, or_load, run_maintenance,
  on_cache, counted, look, dropped_from,
}

-- What moka promises: an entry that is read was stored, and not dropped or stored over since, less
-- than the time to live ago. `content` is what was stored, with its time; the cache may have
-- evicted some of it.
pub record MokaLaws {C E : Type 0} (moka : MokaCache C E) : Type 0 where
  pub content : C → Text → Option (E × ℕ)
  pub lifetime : C → ℕ
  pub content-build : (n ttl : ℕ) (did : Text) → content (moka.build n ttl) did ≡ none
  pub lifetime-build : (n ttl : ℕ) → lifetime (moka.build n ttl) ≡ ttl
  pub content-store :
      (c : C) (a b : Text) (e : E) (now : ℕ)
      → content (moka.store c a e now) b ≡ (if same a b then some (e, now) else content c b)
  pub lifetime-store :
      (c : C) (a : Text) (e : E) (now : ℕ) → lifetime (moka.store c a e now) ≡ lifetime c
  pub content-drop :
      (c : C) (a b : Text) → content (moka.drop c a) b ≡ (if same a b then none else content c b)
  pub lifetime-drop : (c : C) (a : Text) → lifetime (moka.drop c a) ≡ lifetime c
  pub content-drop_all : (c : C) (a : Text) → content (moka.drop_all c) a ≡ none
  pub lifetime-drop_all : (c : C) → lifetime (moka.drop_all c) ≡ lifetime c
  pub content-run :
      (c : C) (now : ℕ) (a : Text) → content (moka.run_pending_tasks c now) a ≡ content c a
  pub lifetime-run : (c : C) (now : ℕ) → lifetime (moka.run_pending_tasks c now) ≡ lifetime c
  pub content-read : (c : C) (a b : Text) (now : ℕ) → content (moka.read c a now).0 b ≡ content c b
  pub lifetime-read : (c : C) (a : Text) (now : ℕ) → lifetime (moka.read c a now).0 ≡ lifetime c
  pub read-content :
      (c : C) (a : Text) (now : ℕ) (e : E)
      → (moka.read c a now).1 ≡ some e
      → (t : ℕ) × (content c a ≡ some (e, t)) × (now < t + lifetime c)

pub data CacheEvent (F : Type 0) : Type 0 where
  looked : Text → ℕ → CacheEvent F
  loaded : Text → TrustInfo F → ℕ → ℕ → CacheEvent F
  invalidated : Text → CacheEvent F
  cleared maintained : ℕ → CacheEvent F

module _ {C F : Type 0} (moka : MokaCache C (CachedTrustInfo F)) where
  unfoldable pub apply : TrustCache C → CacheEvent F → TrustCache C
  apply t (looked did now) = (cached_trust moka t did now).0
  apply t (loaded did info now unix) = insert_trust moka t did info now unix
  apply t (invalidated did) = invalidate moka t did
  apply t (cleared now) = invalidate_all moka t now
  apply t (maintained now) = run_maintenance moka t now

  unfoldable pub run : TrustCache C → List (CacheEvent F) → TrustCache C
  run t [] = t
  run t (e ∷ events) = run (apply t e) events

-- What an agent's last load or invalidation leaves, with its time.
abbrev newer :
    {F : Type 0}
    → Text
    → Option (CachedTrustInfo F × ℕ)
    → CacheEvent F
    → Option (CachedTrustInfo F × ℕ)
newer did last (looked a now) = last
newer did last (loaded a info now unix) =
    if same a did then some (cached_info info unix, now) else last
newer did last (invalidated a) = if same a did then none else last
newer did last (cleared now) = none
newer did last (maintained now) = last

abbrev pub newest :
    {F : Type 0}
    → Text
    → Option (CachedTrustInfo F × ℕ)
    → List (CacheEvent F)
    → Option (CachedTrustInfo F × ℕ)
newest did last [] = last
newest did last (e ∷ events) = newest did (newer did last e) events

module _ {C F : Type 0} (moka : MokaCache C (CachedTrustInfo F)) (laws : MokaLaws moka) where
  -- The cache holds, for every agent, what was last stored, and keeps the time to live.
  abbrev Holds : ℕ → (Text → Option (CachedTrustInfo F × ℕ)) → Option C → Type 0
  Holds ttl last none = Unit
  Holds ttl last (some c) = ((did : Text) → laws.content c did ≡ last did) × (laws.lifetime c ≡ ttl)

  counted-cache :
      (s : TrustCacheStats) (r : C × Option (CachedTrustInfo F)) → (counted moka s r).0 ≡ some r.0
  counted-cache s (c, none) = refl
  counted-cache s (c, some e) = refl

  counted-answer :
      (s : TrustCacheStats) (r : C × Option (CachedTrustInfo F)) → (counted moka s r).2 ≡ r.1
  counted-answer s (c, none) = refl
  counted-answer s (c, some e) = refl

  looked-Holds :
      (ttl : ℕ) (last : Text → Option (CachedTrustInfo F × ℕ)) (t : TrustCache C) (o : Option C)
      (did : Text) (now : ℕ)
      → Holds ttl last o
      → Holds ttl last (look moka t o did now).0.cache
  looked-Holds ttl last t none did now h = tt
  looked-Holds ttl last t (some c) did now (held, time) =
      subst (Holds ttl last) (sym (counted-cache t.stats (moka.read c did now)))
        ((λ a. laws.content-read c did a now ∙ held a), laws.lifetime-read c did now ∙ time)

  dropped-Holds :
      (ttl : ℕ) (last : Text → Option (CachedTrustInfo F × ℕ)) (t : TrustCache C) (o : Option C)
      (did : Text)
      → t.cache ≡ o
      → Holds ttl last o
      → Holds ttl (λ a. newer a (last a) (invalidated did)) (dropped_from moka t o did).cache
  dropped-Holds ttl last t none did e h =
      subst (Holds ttl (λ a. newer a (last a) (invalidated did))) (sym e) tt
  dropped-Holds ttl last t (some c) did e (held, time) = (
    (λ a. laws.content-drop c did a ∙ ap (λ x. if same did a then none else x) (held a)),
    laws.lifetime-drop c did ∙ time,
  )

  stored-Holds :
      (ttl : ℕ) (last : Text → Option (CachedTrustInfo F × ℕ)) (o : Option C) (did : Text)
      (info : TrustInfo F) (now unix : ℕ)
      → Holds ttl last o
      → Holds ttl
          (λ a. newer a (last a) (loaded did info now unix))
          (on_cache moka (λ c. moka.store c did (cached_info info unix) now) o)
  stored-Holds ttl last none did info now unix h = tt
  stored-Holds ttl last (some c) did info now unix (held, time) = (
    (λ a.
        laws.content-store c did a (cached_info info unix) now
        ∙ ap (λ x. if same did a then some (cached_info info unix, now) else x) (held a)),
    laws.lifetime-store c did (cached_info info unix) now ∙ time,
  )

  cleared-Holds :
      (ttl : ℕ) (last : Text → Option (CachedTrustInfo F × ℕ)) (o : Option C) (now : ℕ)
      → Holds ttl last o
      → Holds ttl (λ a. none) (on_cache moka (λ c. moka.run_pending_tasks (moka.drop_all c) now) o)
  cleared-Holds ttl last none now h = tt
  cleared-Holds ttl last (some c) now (held, time) = (
    (λ a. laws.content-run (moka.drop_all c) now a ∙ laws.content-drop_all c a),
    laws.lifetime-run (moka.drop_all c) now ∙ laws.lifetime-drop_all c ∙ time,
  )

  maintained-Holds :
      (ttl : ℕ) (last : Text → Option (CachedTrustInfo F × ℕ)) (o : Option C) (now : ℕ)
      → Holds ttl last o
      → Holds ttl last (on_cache moka (λ c. moka.run_pending_tasks c now) o)
  maintained-Holds ttl last none now h = tt
  maintained-Holds ttl last (some c) now (held, time) =
      ((λ a. laws.content-run c now a ∙ held a), laws.lifetime-run c now ∙ time)

  apply-Holds :
      (ttl : ℕ) (last : Text → Option (CachedTrustInfo F × ℕ)) (t : TrustCache C) (e : CacheEvent F)
      → Holds ttl last t.cache
      → Holds ttl (λ a. newer a (last a) e) (apply moka t e).cache
  unfolding apply cached_trust insert_trust invalidate invalidate_all run_maintenance
  apply-Holds ttl last t (looked did now) h = looked-Holds ttl last t t.cache did now h
  apply-Holds ttl last t (loaded did info now unix) h =
      stored-Holds ttl last t.cache did info now unix h
  apply-Holds ttl last t (invalidated did) h = dropped-Holds ttl last t t.cache did refl h
  apply-Holds ttl last t (cleared now) h = cleared-Holds ttl last t.cache now h
  apply-Holds ttl last t (maintained now) h = maintained-Holds ttl last t.cache now h

  run-Holds :
      (ttl : ℕ) (last : Text → Option (CachedTrustInfo F × ℕ)) (t : TrustCache C)
      (events : List (CacheEvent F))
      → Holds ttl last t.cache
      → Holds ttl (λ a. newest a (last a) events) (run moka t events).cache
  unfolding run
  run-Holds ttl last t [] h = h
  run-Holds ttl last t (e ∷ events) h =
      run-Holds ttl (λ a. newer a (last a) e) (apply moka t e) events (apply-Holds ttl last t e h)

  new-Holds : (config : TrustCacheConfig) → Holds config.ttl (λ a. none) (new moka config).cache
  unfolding new
  new-Holds config = elim (Bool-cases config.enabled) [
    | inl on ↦ rw on (
      (λ a. laws.content-build config.max_entries config.ttl a),
      laws.lifetime-build config.max_entries config.ttl,
    )
    | inr off ↦ rw off tt
  ]

  look-fresh :
      (ttl : ℕ) (last : Text → Option (CachedTrustInfo F × ℕ)) (t : TrustCache C) (o : Option C)
      (did : Text) (now : ℕ) (e : CachedTrustInfo F)
      → Holds ttl last o
      → (look moka t o did now).1 ≡ some e
      → (since : ℕ) × (last did ≡ some (e, since)) × (now < since + ttl)
  look-fresh ttl last t none did now e h found = absurd (ground (arith, found))
  look-fresh ttl last t (some c) did now e (held, time) found =
      let (since, stored, young) =
        laws.read-content c did now e
          (sym (counted-answer t.stats (moka.read c did now)) ∙ found) in
      (since, sym (held did) ∙ stored, subst (λ n. now < since + n) time young)

  -- In a cache that starts empty, after any history of lookups, loads, invalidations and
  -- maintenance, what a lookup of an agent finds is the trust that was last loaded for this agent,
  -- with the time it was given then; the agent was not invalidated since, nor the cache cleared,
  -- and the load is less than the time to live of the configuration ago.
  cached_trust-fresh :
      (config : TrustCacheConfig) (events : List (CacheEvent F)) (did : Text) (now : ℕ)
      (e : CachedTrustInfo F)
      → (cached_trust moka (run moka (new moka config) events) did now).1 ≡ some e
      → (since : ℕ) × (newest did none events ≡ some (e, since)) × (now < since + config.ttl)
  unfolding cached_trust
  cached_trust-fresh config events did now e found =
      let t = run moka (new moka config) events in
      look-fresh config.ttl (λ a. newest a none events) t t.cache did now e
        (run-Holds config.ttl (λ a. none) (new moka config) events (new-Holds config)) found

  or_load-source :
      {E : Type 0} (x : TrustCache C × Option (CachedTrustInfo F)) (did : Text)
      (result : Result E (TrustInfo F)) (now unix : ℕ) (e : CachedTrustInfo F)
      → (or_load moka x did result now unix).1 ≡ ok e
      → (x.1 ≡ some e)
        ⊎ ((x.1 ≡ none) × ((info : TrustInfo F) × (result ≡ ok info) × (e ≡ cached_info info unix)))
  or_load-source (t, some e') did result now unix e h = inl cc
  or_load-source (t, none) did (ok info) now unix e h = inr (refl, (info, refl, cc))
  or_load-source (t, none) did (err f) now unix e h = absurd (ground (arith, h))

  -- In a cache that starts empty, after any history of lookups, loads, invalidations and
  -- maintenance, a request that may load gives either the trust that was last loaded for the agent,
  -- which is not invalidated or cleared since and was loaded less than the time to live of the
  -- configuration before the request, or what its own loader gives, with the present time.
  pub get_or_load-fresh :
      {E : Type 0} (config : TrustCacheConfig) (events : List (CacheEvent F)) (did : Text)
      (asked : ℕ) (result : Result E (TrustInfo F)) (now unix : ℕ) (e : CachedTrustInfo F)
      → (get_or_load moka (run moka (new moka config) events) did asked result now unix).1 ≡ ok e
      → ((since : ℕ) × (newest did none events ≡ some (e, since)) × (asked < since + config.ttl))
        ⊎ ((info : TrustInfo F) × (result ≡ ok info) × (e ≡ cached_info info unix))
  unfolding get_or_load
  get_or_load-fresh config events did asked result now unix e found =
      let x = cached_trust moka (run moka (new moka config) events) did asked in
      elim (or_load-source x did result now unix e found) [
        | inl there ↦ inl (cached_trust-fresh config events did asked e there)
        | inr (missing, own) ↦ inr own
      ]
