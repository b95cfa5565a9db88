-- ===== src/Search/Embedding.antt =====
-- `EmbeddingService` (node/src/search/embedding.rs). The embedding model is a parameter: from
-- texts it makes vectors, or it fails. So is the `lru` crate's cache, of which `peek` and `put`
-- are used. The construction, which loads the model, is left out.
pub mod Batch
use agentme.Prelude.{
  ℕ, zero, suc, Bool, true, false, not, ◌||◌, Option, none, some, List, [], ◌∷◌, ◌++◌, map,
  if◌then◌else◌, ◌==◌, length, Result, ok, err, ok_or, ◌>>=◌, Text, codes,
}
use agentme.Search.Vectors.{F32}

pub data SearchError : Type 0 where
  embedding_failed empty_result missing_embedding missing_did : SearchError

-- The cache of the `lru` crate: a read that leaves the order, and a write that may evict.
pub record LruCache (C E : Type 0) : Type 0 where
  pub peek : C → Text → Option E
  pub put : C → Text → E → C

module _ {C E : Type 0} (model : List Text → Option (List E)) (lru : LruCache C E)
    (enable_cache : Bool) where
  abbrev pub head : List E → Option E
  head [] = none
  head (e ∷ es) = some e

  abbrev pub cached : C → Text → Option E
  cached cache text = if enable_cache then lru.peek cache text else none

  abbrev pub remember : C → Text → E → C
  remember cache text e = if enable_cache then lru.put cache text e else cache

  abbrev pub embed_new : C → Text → Result SearchError (C × E)
  embed_new cache text = do
    embeddings ← ok_or (model (text ∷ [])) embedding_failed
    e ← ok_or (head embeddings) empty_result
    ok (remember cache text e, e)

  unfoldable pub embed : C → Text → Result SearchError (C × E)
  embed cache text = elim (cached cache text) [
    | some e ↦ ok (cache, e)
    | none ↦ embed_new cache text
  ]

  -- The texts from number `i` on: the results so far, and the numbered texts to embed.
  unfoldable pub look_up : C → ℕ → List Text → List (Option E) × List (ℕ × Text)
  look_up cache i [] = ([], [])
  look_up cache i (text ∷ texts) =
      let (results, to_embed) = look_up cache (suc i) texts in
      elim (cached cache text) [
        | some e ↦ (some e ∷ results, to_embed)
        | none ↦ (none ∷ results, (i, text) ∷ to_embed)
      ]

  -- `results[i] = Some(e)`, on an index in range.
  abbrev pub set_at : ℕ → E → List (Option E) → List (Option E)
  set_at i e [] = []
  set_at zero e (o ∷ results) = some e ∷ results
  set_at (suc i) e (o ∷ results) = o ∷ set_at i e results

  -- The loop over the numbered texts zipped with their embeddings.
  unfoldable pub fill : C → List (ℕ × Text) → List E → List (Option E) → C × List (Option E)
  fill cache [] es results = (cache, results)
  fill cache (t ∷ to_embed) [] results = (cache, results)
  fill cache ((i, text) ∷ to_embed) (e ∷ es) results =
      fill (remember cache text e) to_embed es (set_at i e results)

  unfoldable pub collect : List (Option E) → Result SearchError (List E)
  collect [] = ok []
  collect (o ∷ results) = do e ← ok_or o missing_embedding; es ← collect results; ok (e ∷ es)

  abbrev pub embed_missing :
      C → List (ℕ × Text) → List (Option E) → Result SearchError (C × List (Option E))
  embed_missing cache [] results = ok (cache, results)
  embed_missing cache (t ∷ to_embed) results = do
    embeddings ← ok_or (model (map (λ x. x.1) (t ∷ to_embed))) embedding_failed
    ok (fill cache (t ∷ to_embed) embeddings results)

  unfoldable pub embed_batch : C → List Text → Result SearchError (C × List E)
  embed_batch cache [] = ok (cache, [])
  embed_batch cache (text ∷ texts) = do
    let (results, to_embed) = look_up cache 0 (text ∷ texts)
    (cache', filled) ← embed_missing cache to_embed results
    es ← collect filled
    ok (cache', es)

module _ {R : Type 0} (f : F32 R) where
  abbrev pub dot_from : R → List R → List R → R
  dot_from acc [] b = acc
  dot_from acc (x ∷ a) [] = acc
  dot_from acc (x ∷ a) (y ∷ b) = dot_from (f.sum acc (f.product x y)) a b

  abbrev pub dot : List R → List R → R
  dot = dot_from f.zero

  unfoldable pub cosine_similarity : List R → List R → R
  cosine_similarity a b =
      let norm_a = f.sqrt (dot a a) in
      let norm_b = f.sqrt (dot b b) in
      if not (length a == length b)
      then f.zero
      else if f.is_equal norm_a f.zero || f.is_equal norm_b f.zero
      then f.zero
      else f.quotient (dot a b) (f.product norm_a norm_b)

-- `skills.join(", ")`.
abbrev pub join_skills : List Text → Text
join_skills [] = []
join_skills (s ∷ []) = s
join_skills (s ∷ t ∷ skills) = s ++ codes ", " ++ join_skills (t ∷ skills)

unfoldable pub card_to_text : Text → Text → List Text → Text
card_to_text name description skills =
    name ++ codes ": " ++ description ++ codes ". Skills: " ++ join_skills skills
