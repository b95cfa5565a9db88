-- ===== src/Trust/Cache/Tests.antt =====
-- Runs of node/src/trust_cache.rs on small inputs, over a cache that never evicts.
use agentme.Prelude.{
  ℕ, ◌+◌, ◌<◌, ◌≡◌, refl, ◌⊎◌, Bool, true, false, Option, none, some, List, [], ◌∷◌, length, ltb,
  if◌then◌else◌, Result, ok, err, Text, codes, text_key, Text-discrete, arith, ite,
}
use agentme.Prelude.Map.{Map, get, insert, remove, get-insert, get-remove}
use agentme.Trust.{TrustInfo}
use agentme.Trust.Cache.{
  MokaCache, TrustCacheConfig, CachedTrustInfo, cached_info, new, with_ttl, get_or_load,
}
use agentme.Trust.Cache.Freshness.{
  MokaLaws, CacheEvent, looked, loaded, invalidated, maintained, newest, run, get_or_load-fresh,
}

abbrev Plain : Type 0 → Type 0
Plain E = ℕ × Map Text (E × ℕ)

module _ {E : Type 0} where
  abbrev young : ℕ → ℕ → Option (E × ℕ) → Option E
  young ttl now none = none
  young ttl now (some (e, since)) = if ltb now (since + ttl) then some e else none

  abbrev plain : MokaCache (Plain E) E
  plain = record {
    build = λ n ttl. (ttl, []);
    read = λ c did now. (c, young c.0 now (get did c.1));
    store = λ c did e now. (c.0, insert did (e, now) c.1);
    drop = λ c did. (c.0, remove did c.1);
    drop_all = λ c. (c.0, []);
    run_pending_tasks = λ c now. c;
    size = λ c. length c.1;
  }

  young_lem :
      (ttl now : ℕ) (o : Option (E × ℕ)) (e : E)
      → young ttl now o ≡ some e
      → (since : ℕ) × (o ≡ some (e, since)) × (now < since + ttl)
  young_lem ttl now none e h = absurd (ground (arith, h))
  young_lem ttl now (some (e', since)) e h = (since, ground (arith, h), ground (arith, h))

  plain-MokaLaws : MokaLaws plain
  plain-MokaLaws = record {
    content = λ c did. get did c.1;
    lifetime = λ c. c.0;
    content-build = λ n ttl did. refl;
    lifetime-build = λ n ttl. refl;
    content-store = λ c a b e now. ground (arith, get-insert a b (e, now) c.1);
    lifetime-store = λ c a e now. refl;
    content-drop = λ c a b. ground (arith, get-remove a b c.1);
    lifetime-drop = λ c a. refl;
    content-drop_all = λ c a. refl;
    lifetime-drop_all = λ c. refl;
    content-run = λ c now a. refl;
    lifetime-run = λ c now. refl;
    content-read = λ c a b now. refl;
    lifetime-read = λ c a now. refl;
    read-content = λ c a now e h. young_lem c.0 now (get a c.1) e h;
  }

abbrev trusted : TrustInfo ℕ
trusted = record {
  did = codes "did:a";
  score = 700;
  reputation = 800;
  stake_score = 600;
  endorsement_score = 600;
  stake_amount = 5;
  successful_transactions = 3;
  failed_transactions = 1;
  endorsement_count = 0;
}

abbrev history : List (CacheEvent ℕ)
history =
    looked (codes "did:a") 10
    ∷ loaded (codes "did:a") trusted 20 1
    ∷ invalidated (codes "did:b")
    ∷ maintained 25
    ∷ []

abbrev failing : Result ℕ (TrustInfo ℕ)
failing = err 0

served_from_cache :
    (get_or_load plain
      (run plain (new plain (with_ttl 100)) history)
      (codes "did:a")
      110
      failing
      115
      2).1
    ≡ ok (cached_info trusted 1)
unfolding get_or_load agentme.Trust.Cache.cached_trust run agentme.Trust.Cache.Freshness.apply
    agentme.Trust.Cache.run_maintenance agentme.Trust.Cache.invalidate
    agentme.Trust.Cache.insert_trust new with_ttl Text-discrete agentme.Prelude.ℕ_discrete
served_from_cache = refl

too_old :
    (get_or_load plain
      (run plain (new plain (with_ttl 100)) history)
      (codes "did:a")
      120
      failing
      125
      2).1
    ≡ err 0
unfolding get_or_load agentme.Trust.Cache.cached_trust run agentme.Trust.Cache.Freshness.apply
    agentme.Trust.Cache.run_maintenance agentme.Trust.Cache.invalidate
    agentme.Trust.Cache.insert_trust new with_ttl Text-discrete agentme.Prelude.ℕ_discrete
too_old = refl

get_or_load-fresh_example :
    ((since : ℕ) × (newest (codes "did:a") none history ≡ some (cached_info trusted 1, since))
      × (110 < since + 100))
    ⊎ ((info : TrustInfo ℕ) × (failing ≡ ok info) × (cached_info trusted 1 ≡ cached_info info 2))
unfolding with_ttl
get_or_load-fresh_example =
    get_or_load-fresh plain plain-MokaLaws (with_ttl 100) history (codes "did:a") 110 failing 115 2
      (cached_info trusted 1) served_from_cache
