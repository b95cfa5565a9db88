-- ===== src/Discovery/Cache/Pruning.antt =====
-- `prune_expired` on the cache, and histories of its operations.
use agentme.Prelude.{
  ℕ, ◌≤◌, ◌≡◌, refl, sym, ap, ◌∙◌, Bool, true, false, not, none, some, List, [], ◌∷◌, map, length,
  retain, Text, text_key, arith, contains, Key, ite, Bool-cases, inl, inr,
}
use agentme.Prelude.Map.{Map, get, remove, DistinctKeys}
use agentme.Discovery.Cache.{CacheState, is_fresh, cache_remove, remove_all, expired, prune_expired}
use agentme.Discovery.Cache.Recency.{prune}
use agentme.Discovery.Cache.Refinement.{IsValid, view, removed, get-view}
use agentme.Discovery.Cache.Refinement.Order.{ordered-DistinctKeys}

module _ {K V : Type 0} ⦃k : Key K⦄ where
  abbrev remove_keys : List K → Map K V → Map K V
  remove_keys [] m = m
  remove_keys (a ∷ xs) m = remove_keys xs (remove a m)

  retain-remove :
      (a : K) (p q : K × V → Bool) (m : Map K V)
      → ((x : K × V) → ite (k.equal x.0 a) false (p x) ≡ q x)
      → retain p (remove a m) ≡ retain q m
  retain-remove a p q [] h = refl
  retain-remove a p q ((b, v) ∷ m) h = ground (arith, retain-remove a p q m h, h (b, v))

  retain_all : (p : K × V → Bool) (m : Map K V) → ((x : K × V) → p x ≡ true) → retain p m ≡ m
  retain_all p [] h = refl
  retain_all p (x ∷ m) h = ground (arith, retain_all p m h, h x)

  remove_keys-retain :
      (xs : List K) (m : Map K V) → remove_keys xs m ≡ retain (λ x. not (contains x.0 xs)) m
  remove_keys-retain [] m = sym (retain_all _ m (λ x. refl))
  remove_keys-retain (a ∷ xs) m =
      remove_keys-retain xs (remove a m) ∙ retain-remove a _ _ m (λ x. ground arith)

  retain_cong :
      (p q : K × V → Bool) (m : Map K V)
      → DistinctKeys m
      → ((a : K) (v : V) → get a m ≡ some v → p (a, v) ≡ q (a, v))
      → retain p m ≡ retain q m
  retain_cong p q [] d h = refl
  retain_cong p q ((b, v) ∷ m) d h =
      let same = h b v (ground arith) in
      let rest = retain_cong p q m d.1 (λ a w e. h a w (ground (arith, d.0, e))) in
      ground (arith, same, rest)

  -- A key of a map is among the keys that pass a test, if its entry passes.
  contains-keys_none :
      (p : K × V → Bool) (a : K) (m : Map K V)
      → get a m ≡ none
      → contains a (map (λ x. x.0) (retain p m)) ≡ false
  contains-keys_none p a [] h = refl
  contains-keys_none p a ((b, w) ∷ m) h = elim (Bool-cases (p (b, w))) [
    | inl t ↦ rw t (ground (arith, contains-keys_none p a m))
    | inr f ↦ rw f (ground (arith, contains-keys_none p a m))
  ]

  contains-keys :
      (p : K × V → Bool) (a : K) (v : V) (m : Map K V)
      → DistinctKeys m
      → get a m ≡ some v
      → contains a (map (λ x. x.0) (retain p m)) ≡ p (a, v)
  contains-keys p a v [] d e = cc
  contains-keys p a v ((b, w) ∷ m) d e = elim (Bool-cases (p (b, w))) [
    | inl t ↦ rw t (ground (arith, contains-keys p a v m d.1, contains-keys_none p a m))
    | inr f ↦ rw f (ground (arith, contains-keys p a v m d.1, contains-keys_none p a m))
  ]

not-not : (b : Bool) → not (not b) ≡ b
not-not true = refl
not-not false = refl

module _ {A : Type 0} where
  remove_all-view :
      (s : CacheState A) (dids : List Text)
      → IsValid s.entries s.lru
      → let s' = remove_all s dids in
        IsValid s'.entries s'.lru
        × (view s' ≡ remove_keys dids (view s))
        × (length s'.lru ≤ length s.lru)
  unfolding remove_all
  remove_all-view s [] v = (v, refl, omega arith)
  remove_all-view s (did ∷ dids) v =
      let (valid, order, shorter) = removed s did v in
      let (valid', order', shorter') = remove_all-view (cache_remove s did).0 dids valid in
      (valid', order' ∙ ap (remove_keys dids) order, omega (arith, shorter, shorter'))

  -- `prune_expired` is `prune`: it drops the entries that are too old and leaves the order.
  pub prune_expired-prune :
      (s : CacheState A) (ttl now : ℕ)
      → IsValid s.entries s.lru
      → let s' = (prune_expired s ttl now).0 in
        IsValid s'.entries s'.lru
        × (view s' ≡ prune (view s) ttl now)
        × (length s'.lru ≤ length s.lru)
  unfolding prune_expired expired prune
  prune_expired-prune s ttl now v =
      let (valid, order, shorter) = remove_all-view s (expired s ttl now) v in
      (
        valid,
        order
            ∙ remove_keys-retain (expired s ttl now) (view s)
            ∙ retain_cong _ _ (view s) (ordered-DistinctKeys s.lru s.entries v.distinct) (λ a e h.
              ap not (
                contains-keys (λ x. not (is_fresh ttl now x.1)) a e s.entries v.keys
                  (sym (get-view s a v) ∙ h))
              ∙ not-not (is_fresh ttl now e)),
        shorter,
      )
