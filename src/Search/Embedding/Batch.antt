-- ===== src/Search/Embedding/Batch.antt =====
-- Embedding many texts at once against embedding each by itself.
use agentme.Prelude.{
  ℕ, zero, suc, ◌≡◌, refl, sym, ap, subst, ◌∙◌, ◌⊎◌, inl, inr, Bool, Option, none, some, List, [],
  ◌∷◌, ◌++◌, map, length, ok, arith, Text, Option-cases, length-append, Bool-cases,
}
use agentme.Search.Embedding.{
  LruCache, cached, remember, embed, embed_batch, embed_missing, look_up, fill, set_at, collect,
}

-- What the cache promises: a read gives the last value put for the text, or, of texts that were
-- not evicted, what was there before.
pub record LruLaws {C E : Type 0} (lru : LruCache C E) : Type 0 where
  pub peek-put :
      (c : C) (t u : Text) (e e' : E)
      → lru.peek (lru.put c t e) u ≡ some e'
      → ((t ≡ u) × (e ≡ e')) ⊎ (lru.peek c u ≡ some e')

module _ {C E : Type 0} (model : List Text → Option (List E)) (lru : LruCache C E)
    (enable_cache : Bool) (f : Text → E) where
  -- The cache holds what the model makes of a text.
  abbrev pub IsSound : C → Type 0
  IsSound cache = (t : Text) (e : E) → lru.peek cache t ≡ some e → e ≡ f t

  abbrev pub second : List (ℕ × Text) → List Text
  second = map (λ x. x.1)

  put-IsSound :
      (cache : C) (t : Text) → LruLaws lru → IsSound cache → IsSound (lru.put cache t (f t))
  put-IsSound cache t laws sound u e h = elim (laws.peek-put cache t u (f t) e h) [
    | inl (p, q) ↦ sym q ∙ ap f p
    | inr old ↦ sound u e old
  ]

  remember-IsSound :
      (cache : C) (t : Text)
      → LruLaws lru
      → IsSound cache
      → IsSound (remember model lru enable_cache cache t (f t))
  remember-IsSound cache t laws sound = elim (Bool-cases enable_cache) [
    | inl on ↦ rw on (put-IsSound cache t laws sound)
    | inr off ↦ rw off sound
  ]

  cached-f :
      (cache : C) (t : Text) (e : E)
      → IsSound cache
      → cached model lru enable_cache cache t ≡ some e
      → e ≡ f t
  cached-f cache t e sound h = elim (Bool-cases enable_cache) [
    | inl on ↦ sound t e (rw on at h)
    | inr off ↦ absurd (ground (arith, off))
  ]

  append_cons : {A : Type 0} (xs ys : List A) (x : A) → (xs ++ x ∷ []) ++ ys ≡ xs ++ x ∷ ys
  append_cons [] ys x = refl
  append_cons (z ∷ xs) ys x = ap (◌∷◌ z) (append_cons xs ys x)

  set_at-append :
      (i : ℕ) (pre results : List (Option E)) (o : Option E) (e : E)
      → length pre ≡ i
      → set_at model lru enable_cache i e (pre ++ o ∷ results) ≡ pre ++ some e ∷ results
  set_at-append zero [] results o e h = refl
  set_at-append zero (x ∷ pre) results o e h = absurd (omega arith)
  set_at-append (suc i) [] results o e h = absurd (omega arith)
  set_at-append (suc i) (x ∷ pre) results o e h =
      ap (◌∷◌ x) (set_at-append i pre results o e (omega arith))

  -- The loop fills the results in to the target and leaves a sound cache.
  abbrev Fills : C → List (ℕ × Text) → List (Option E) → List (Option E) → Type 0
  Fills cache to_embed results target =
      let (cache', filled) =
        fill model lru enable_cache cache to_embed (map f (second to_embed)) results in
      (filled ≡ target) × IsSound cache'

  abbrev all_of : List Text → List (Option E)
  all_of = map (λ t. some (f t))

  fill-look_up :
      (old cache : C) (i : ℕ) (texts : List Text) (pre : List (Option E))
      → LruLaws lru
      → IsSound old
      → IsSound cache
      → length pre ≡ i
      → let (results, to_embed) = look_up model lru enable_cache old i texts in
        Fills cache to_embed (pre ++ results) (pre ++ all_of texts)
  unfolding look_up fill
  fill-look_up old cache i [] pre laws so sound h = (refl, sound)
  fill-look_up old cache i (text ∷ texts) pre laws so sound h =
      let found = some (f text) in
      let (results, to_embed) = look_up model lru enable_cache old (suc i) texts in
      let longer : length (pre ++ found ∷ []) ≡ suc i =
        omega (arith, length-append pre (found ∷ []), h) in
      let rest : (c : C)
          → IsSound c
          → Fills c to_embed (pre ++ found ∷ results) (pre ++ found ∷ all_of texts) =
        λ c ok_c.
          subst (λ target. Fills c to_embed (pre ++ found ∷ results) target)
            (append_cons pre (all_of texts) found)
            (subst (λ r. Fills c to_embed r ((pre ++ found ∷ []) ++ all_of texts))
              (append_cons pre results found)
              (fill-look_up old c (suc i) texts (pre ++ found ∷ []) laws so ok_c longer)) in
      elim (Option-cases (cached model lru enable_cache old text)) [
        | inr (e, hit) ↦ rw (hit, look_up, cached-f old text e so hit) (rest cache sound)
        | inl miss ↦
            rw (miss, look_up, set_at-append i pre results none (f text) h)
              (rest (remember model lru enable_cache cache text (f text))
                (remember-IsSound cache text laws sound))
      ]

  collect_all :
      (texts : List Text)
      → collect model lru enable_cache (map (λ t. some (f t)) texts) ≡ ok (map f texts)
  unfolding collect
  collect_all [] = refl
  collect_all (t ∷ texts) = rw (collect_all texts) refl

  embed_missing_lem :
      (cache : C) (to_embed : List (ℕ × Text)) (results : List (Option E))
      → ((texts : List Text) → model texts ≡ some (map f texts))
      → embed_missing model lru enable_cache cache to_embed results
        ≡ ok (fill model lru enable_cache cache to_embed (map f (second to_embed)) results)
  unfolding fill
  embed_missing_lem cache [] results h = refl
  embed_missing_lem cache (t ∷ to_embed) results h = rw (h (second (t ∷ to_embed))) refl

  embed-f :
      (cache : C) (t : Text)
      → ((ts : List Text) → model ts ≡ some (map f ts))
      → LruLaws lru
      → IsSound cache
      → (c : C) × (embed model lru enable_cache cache t ≡ ok (c, f t)) × IsSound c
  unfolding embed
  embed-f cache t pointwise laws sound =
      elim (Option-cases (cached model lru enable_cache cache t)) [
        | inr (e, hit) ↦ (cache, rw (embed, hit, cached-f cache t e sound hit) refl, sound)
        | inl miss ↦ (
          remember model lru enable_cache cache t (f t),
          rw (embed, miss, pointwise (t ∷ [])) refl,
          remember-IsSound cache t laws sound,
        )
      ]

  embed_batch-map :
      (cache : C) (texts : List Text)
      → ((ts : List Text) → model ts ≡ some (map f ts))
      → LruLaws lru
      → IsSound cache
      → (cache' : C) × (embed_batch model lru enable_cache cache texts ≡ ok (cache', map f texts))
        × IsSound cache'
  unfolding embed_batch
  embed_batch-map cache [] pointwise laws sound = (cache, refl, sound)
  embed_batch-map cache (t ∷ texts) pointwise laws sound =
      let (results, to_embed) = look_up model lru enable_cache cache 0 (t ∷ texts) in
      let (filled, sound') = fill-look_up cache cache 0 (t ∷ texts) [] laws sound sound refl in
      (
        (fill model lru enable_cache cache to_embed (map f (second to_embed)) results).0,
        rw (embed_missing_lem cache to_embed results pointwise, filled, collect_all (t ∷ texts))
            refl,
        sound',
      )

  -- If the model embeds a text the same way alone and among others, and the cache holds what the
  -- model makes of a text, then embedding many texts at once gives, in their order, what embedding
  -- each by itself gives, whichever of them are cached and however the cache evicts; and the cache
  -- stays sound.
  pub embed_batch-embed :
      (cache : C) (texts : List Text)
      → ((ts : List Text) → model ts ≡ some (map f ts))
      → LruLaws lru
      → IsSound cache
      → (cache' : C) × (embed_batch model lru enable_cache cache texts ≡ ok (cache', map f texts))
        × IsSound cache'
        × ((t : Text) → (c : C) × (embed model lru enable_cache cache t ≡ ok (c, f t)) × IsSound c)
  embed_batch-embed cache texts pointwise laws sound =
      let (cache', batch, sound') = embed_batch-map cache texts pointwise laws sound in
      (cache', batch, sound', λ t. embed-f cache t pointwise laws sound)
