-- ===== src/Search/Tests.antt =====
-- Runs of node/src/search on small inputs.
use agentme.Prelude.{
  ℕ, ◌+◌, ◌*◌, ◌/◌, ◌≡◌, refl, ◌⊎◌, inl, inr, true, Option, none, some, List, [], ◌∷◌, ◌++◌, map,
  ltb, leb, ◌==◌, min, length, count, same, All, Descends, IsOrder, Result, ok, Text, codes,
  text_key, Text-discrete, arith,
}
use agentme.Prelude.Map.{Map, get, insert, get-insert_cases}
use agentme.Discovery.Card.{CapabilityCard}
use agentme.Search.Vectors.{F32}
use agentme.Search.Embedding.{LruCache, SearchError, embed, embed_batch}
use agentme.Search.Embedding.Batch.{LruLaws, IsSound, embed_batch-embed}
use agentme.Search.Hybrid.{HybridSearch, SearchResult, search, less_score}
use agentme.Search.Hybrid.Ranking.{Genuine, expected, search-Ranked}

-- Thousandths; the root is that of 0 and 1, the only norms here.
instance abbrev thousandths_32 : F32 ℕ
thousandths_32 = record {
  zero = 0;
  one = 1000;
  two = 2000;
  tenth = 100;
  three_tenths = 300;
  of_count = λ n. n * 1000;
  sum = λ a b. a + b;
  product = λ a b. a * b / 1000;
  quotient = λ a b. a * 1000 / b;
  sqrt = λ a. a;
  is_equal = λ a b. a == b;
  less = ltb;
  at_least = λ a b. leb b a;
}

abbrev card : Text → CapabilityCard ℕ
card name = record {
  name = name;
  description = codes "agent";
  url = codes "https://agent";
  provider = none;
  skills = [];
  authentication = none;
  agoramesh = none;
}

abbrev sample : HybridSearch ℕ ℕ
sample = record {
  index =
      (codes "did:a", (card (codes "translate"), 1000 ∷ 0 ∷ []))
      ∷ (codes "did:b", (card (codes "draw"), 0 ∷ 1000 ∷ []))
      ∷ [];
  config = record {
    vector_weight = 700;
    keyword_weight = 300;
    rrf_k = 60000;
    max_results = 1;
    min_score = 100;
  };
}

abbrev to_east : Text → Result SearchError (List ℕ)
to_east text = ok (1000 ∷ 0 ∷ [])

abbrev one_word : Text → List Text
one_word text = text ∷ []

abbrev keep : Text → Text
keep text = text

by_score-IsOrder : IsOrder (less_score {F = ℕ} thousandths_32)
by_score-IsOrder = record {
  asymmetric = λ x y h. ground arith;
  negative = λ x y z h k. ground arith;
}

search-Ranked_example :
    (found : List (SearchResult ℕ ℕ)) × (left : List (SearchResult ℕ ℕ)) × (search thousandths_32
        keep to_east one_word sample
        (codes "draw")
      ≡ ok found)
    × Descends (less_score thousandths_32) (found ++ left)
    × All
        (Genuine thousandths_32 keep sample.config (1000 ∷ 0 ∷ []) (codes "draw" ∷ []) sample.index)
        (found ++ left)
    × ((did : Text)
        → count (λ r. same r.did did) (found ++ left)
          ≡ expected thousandths_32 keep sample.config
              (1000 ∷ 0 ∷ [])
              (codes "draw" ∷ [])
              did
              (get did sample.index))
    × (length found ≡ min 1 (length (found ++ left)))
unfolding Text-discrete agentme.Prelude.ℕ_discrete
search-Ranked_example =
    search-Ranked thousandths_32 keep to_east one_word sample (codes "draw") (1000 ∷ 0 ∷ []) refl
      by_score-IsOrder (refl, (refl, tt))

-- A cache that evicts nothing, of the lengths of texts.
abbrev as_map : LruCache (Map Text ℕ) ℕ
as_map = record { peek = λ c t. get t c; put = λ c t e. insert t e c }

abbrev lengths : List Text → Option (List ℕ)
lengths texts = some (map length texts)

as_map-LruLaws : LruLaws as_map
as_map-LruLaws = record {
  peek-put = λ c t u e e' h. elim (get-insert_cases t u e e' c h) [
    | inl same ↦ inl same
    | inr (n, old) ↦ inr old
  ];
}

embed_batch-embed_example :
    (cache' : Map Text ℕ) × (embed_batch lengths as_map true []
        (codes "ab" ∷ codes "c" ∷ codes "ab" ∷ [])
      ≡ ok (cache', 2 ∷ 1 ∷ 2 ∷ []))
    × IsSound lengths as_map true length cache'
    × ((t : Text)
        → (c : Map Text ℕ) × (embed lengths as_map true [] t ≡ ok (c, length t))
          × IsSound lengths as_map true length c)
embed_batch-embed_example =
    embed_batch-embed lengths as_map true length [] (codes "ab" ∷ codes "c" ∷ codes "ab" ∷ [])
      (λ ts. refl) as_map-LruLaws (λ t e h. absurd cc)
