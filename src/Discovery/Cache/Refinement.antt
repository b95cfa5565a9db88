-- ===== src/Discovery/Cache/Refinement.antt =====
-- The cache keeps its promise: it is the list of its entries in the order of their last use.
pub mod Order
use agentme.Prelude.{
  ℕ, zero, suc, ◌+◌, ◌-◌, ◌≤◌, ◌<◌, ◌≡◌, ◌≢◌, refl, sym, ap, ◌∙◌, Bool, true, false, Option, none,
  some, List, [], ◌∷◌, ◌++◌, if◌then◌else◌, ltb, length, take, Text, text_key, arith, contains,
  Distinct, without, Bool-cases, Option-cases, inl, inr, without-Distinct, contains-without,
  length-without, length-without-le, length-append, dec_lt, ltb→lt, lt→ltb,
}
use agentme.Prelude.Map.{
  Map, get, insert, remove, is_some, DistinctKeys, get-remove, get-insert, get-insert_self,
  remove-DistinctKeys, insert-DistinctKeys, length-insert, length-remove,
}
use agentme.Discovery.Cache.{
  CacheEntry, CacheState, touch, evict, cache_insert, cache_remove, cache_get, is_fresh,
}
use agentme.Discovery.Cache.Recency.{Recency, drop, store, fetch}
use agentme.Discovery.Cache.Refinement.Order.{
  ordered, ordered-without, ordered-append, ordered-insert, ordered-remove, get-ordered_all,
  insert_same, length-ordered, contains-append, append-Distinct,
}

-- The queue holds the keys of the entries, each once.
pub record IsValid {A : Type 0} (entries : Map Text (CacheEntry A)) (lru : List Text) : Type 0 where
  pub distinct : Distinct lru
  pub keys : DistinctKeys entries
  pub listed : (k : Text) → contains k lru ≡ is_some (get k entries)
  pub counted : length entries ≡ length lru

zero-sub : (n : ℕ) → 0 - n ≡ 0
zero-sub n = omega arith

module _ {A : Type 0} where
  abbrev pub view : CacheState A → Recency A
  view s = ordered s.lru s.entries

  popped :
      (oldest : Text) (m : Map Text (CacheEntry A)) (lru : List Text)
      → IsValid m (oldest ∷ lru)
      → IsValid (remove oldest m) lru
  popped oldest m lru v = record {
    distinct = v.distinct.1;
    keys = remove-DistinctKeys oldest m v.keys;
    listed = λ k. ground (arith, v.listed k, get-remove oldest k m, v.distinct.0);
    counted = ground (arith, length-remove oldest m v.keys, v.listed oldest, v.counted);
  }

  present :
      (oldest : Text) (m : Map Text (CacheEntry A)) (lru : List Text)
      → IsValid m (oldest ∷ lru)
      → (e : CacheEntry A) × (get oldest m ≡ some e)
  present oldest m lru v = elim (Option-cases (get oldest m)) [
    | inl n ↦ absurd (ground (arith, v.listed oldest, n))
    | inr held ↦ held
  ]

  -- What is left of a full cache.
  record Evicted (max : ℕ) (m : Map Text (CacheEntry A)) (lru : List Text) : Type 0 where
    valid : IsValid (evict max m lru).0.entries (evict max m lru).0.lru
    order : view (evict max m lru).0 ≡ drop (length lru - max) (ordered lru m)
    gone : (evict max m lru).1 ≡ take (length lru - max) lru
    bound : length (evict max m lru).0.lru ≤ max

  evict-Evicted :
      (max : ℕ) (m : Map Text (CacheEntry A)) (lru : List Text) → IsValid m lru → Evicted max m lru
  unfolding evict
  evict-Evicted max m [] v = record {
    valid = v;
    order = rw (zero-sub max) refl;
    gone = rw (zero-sub max) refl;
    bound = omega arith;
  }
  evict-Evicted max m (oldest ∷ lru) v =
      let ih = evict-Evicted max (remove oldest m) lru (popped oldest m lru v) in
      elim (Bool-cases (ltb max (length m))) [
        | inl full ↦
            let more : suc (length lru) - max ≡ suc (length lru - max) =
              omega (arith, ltb→lt _ _ full, v.counted) in
            let (e, held) = present oldest m lru v in
            record {
              valid = rw full ih.valid;
              order =
                  rw (full, more, held)
                    (ih.order
                      ∙ ap (drop (length lru - max)) (ordered-remove oldest lru m v.distinct.0));
              gone = rw (full, more, held) (ap (◌∷◌ oldest) ih.gone);
              bound = rw full ih.bound;
            }
        | inr room ↦
            let small : suc (length lru) ≤ max = ground (arith, v.counted) in
            let none_more : suc (length lru) - max ≡ 0 = omega (arith, small) in
            record {
              valid = rw room v;
              order = rw (room, none_more) refl;
              gone = rw (room, none_more) refl;
              bound = rw room small;
            }
      ]

  -- A stored key moves to the end of the queue.
  moved :
      (m m' : Map Text (CacheEntry A)) (lru : List Text) (did : Text) (e : CacheEntry A)
      → IsValid m lru
      → m' ≡ insert did e m
      → IsValid m' (without did lru ++ did ∷ [])
  moved m m' lru did e v q = record {
    distinct =
        append-Distinct (without did lru) did (without-Distinct did lru v.distinct)
          (ground (arith, contains-without did did lru));
    keys = rw q (insert-DistinctKeys did e m v.keys);
    listed = λ k. rw q (
        ground (
          arith,
          v.listed k,
          contains-append k (without did lru) (did ∷ []),
          contains-without did k lru,
          get-insert did k e m,
        ));
    counted = rw q (
        ground (
          arith,
          length-insert did e m,
          v.listed did,
          v.counted,
          length-append (without did lru) (did ∷ []),
          length-without did lru v.distinct,
        ));
  }

  moved_view :
      (m : Map Text (CacheEntry A)) (lru : List Text) (did : Text) (e : CacheEntry A)
      → ordered (without did lru ++ did ∷ []) (insert did e m)
        ≡ remove did (ordered lru m) ++ (did, e) ∷ []
  moved_view m lru did e =
      let gone : contains did (without did lru) ≡ false =
        ground (arith, contains-without did did lru) in
      rw
        (
          ordered-append (without did lru) (did ∷ []) (insert did e m),
          get-insert_self did e m,
          ordered-insert did e (without did lru) m gone,
          ordered-without did lru m,
        )
        refl

  removed-IsValid :
      (s : CacheState A) (did : Text)
      → IsValid s.entries s.lru
      → IsValid (cache_remove s did).0.entries (cache_remove s did).0.lru
  unfolding cache_remove
  removed-IsValid s did v = record {
    distinct = without-Distinct did s.lru v.distinct;
    keys = remove-DistinctKeys did s.entries v.keys;
    listed =
        λ k. ground (arith, v.listed k, contains-without did k s.lru, get-remove did k s.entries);
    counted = ground (
      arith,
      v.listed did,
      v.counted,
      length-remove did s.entries v.keys,
      length-without did s.lru v.distinct,
    );
  }

  view-cache_remove :
      (s : CacheState A) (did : Text) → view (cache_remove s did).0 ≡ remove did (view s)
  unfolding cache_remove
  view-cache_remove s did =
      ordered-remove did (without did s.lru) s.entries
        (ground (arith, contains-without did did s.lru))
      ∙ ordered-without did s.lru s.entries

  pub get-view :
      (s : CacheState A) (did : Text)
      → IsValid s.entries s.lru
      → get did (view s) ≡ get did s.entries
  get-view s did v = get-ordered_all did s.lru s.entries (v.listed did)

  length-view : (s : CacheState A) → IsValid s.entries s.lru → length (view s) ≡ length s.lru
  length-view s v = length-ordered s.lru s.entries (λ k h. held k h)
    where
      held : (k : Text) → contains k s.lru ≡ true → get k s.entries ≢ none
      held k h n = ground (arith, v.listed k)

  -- `insert` on the cache is `store` on the entries in the order of their use.
  pub cache_insert-store :
      (s : CacheState A) (did : Text) (card : A) (now max : ℕ)
      → IsValid s.entries s.lru
      → let s' = (cache_insert s did card now max).0 in
        IsValid s'.entries s'.lru
        × (view s' ≡ store (view s) did card now max)
        × (length s'.lru ≤ max)
  unfolding cache_insert touch store
  cache_insert-store s did card now max v =
      let e : CacheEntry A = record { card = card; cached_at = now } in
      let entries = insert did e s.entries in
      let lru = without did s.lru ++ did ∷ [] in
      let v' = moved s.entries entries s.lru did e v refl in
      let out = evict-Evicted max entries lru v' in
      let same_view = moved_view s.entries s.lru did e in
      let as_long = length-view (record { entries = entries; lru = lru }) v' in
      (out.valid, out.order ∙ rw (← as_long, same_view) refl, out.bound)

  -- A use of a stored entry.
  touched :
      (s : CacheState A) (did : Text) (e : CacheEntry A)
      → IsValid s.entries s.lru
      → get did s.entries ≡ some e
      → IsValid s.entries (touch s did).lru
        × (view (touch s did) ≡ remove did (view s) ++ (did, e) ∷ [])
        × (length (touch s did).lru ≡ length s.lru)
  unfolding touch
  touched s did e v h =
      let same_entries = insert_same did e s.entries h in
      let v' = moved s.entries s.entries s.lru did e v (sym same_entries) in
      (
        v',
        ap (ordered (without did s.lru ++ did ∷ [])) (sym same_entries)
            ∙ moved_view s.entries s.lru did e,
        sym v'.counted ∙ v.counted,
      )

  pub removed :
      (s : CacheState A) (did : Text)
      → IsValid s.entries s.lru
      → let s' = (cache_remove s did).0 in
        IsValid s'.entries s'.lru × (view s' ≡ remove did (view s)) × (length s'.lru ≤ length s.lru)
  unfolding cache_remove
  removed s did v = (removed-IsValid s did v, view-cache_remove s did, length-without-le did s.lru)

  -- `get` on the cache is `fetch`.
  pub cache_get-fetch :
      (s : CacheState A) (did : Text) (ttl now : ℕ)
      → IsValid s.entries s.lru
      → let s' = (cache_get s did ttl now).0 in
        IsValid s'.entries s'.lru
        × (view s' ≡ (fetch (view s) did ttl now).0)
        × ((cache_get s did ttl now).1 ≡ (fetch (view s) did ttl now).1)
        × (length s'.lru ≤ length s.lru)
  unfolding cache_get fetch touch
  cache_get-fetch s did ttl now v =
      let (valid, order, shorter) = removed s did v in
      elim (Option-cases (get did s.entries)) [
        | inl e ↦ rw (get-view s did v, e, cache_get, fetch) (valid, order, refl, shorter)
        | inr (entry, e) ↦
            let (valid', order', as_long) = touched s did entry v e in
            elim (Bool-cases (is_fresh ttl now entry)) [
              | inl f ↦
                  rw (get-view s did v, e, f, cache_get, fetch)
                    (valid', order', refl, omega (arith, as_long))
              | inr f ↦ rw (get-view s did v, e, f, cache_get, fetch) (valid, order, refl, shorter)
            ]
      ]
