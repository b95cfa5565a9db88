-- ===== src/Search/Hybrid/Ranking.antt =====
-- What a search finds, and in which order.
use agentme.Prelude.{
  ℕ, zero, suc, ◌≡◌, refl, sym, ap, subst, ◌∙◌, true, Option, none, some, List, [], ◌∷◌, ◌++◌,
  if◌then◌else◌, min, length, take, count, All, Result, ok, Text, text_key, same, arith, Bool-cases,
  inl, inr, sort, Descends, IsOrder, count-sort, All-sort, sort-Descends,
}
use agentme.Prelude.Map.{get, DistinctKeys}
use agentme.Discovery.Card.{CapabilityCard}
use agentme.Search.Vectors.{F32}
use agentme.Search.Embedding.{SearchError}
use agentme.Search.Hybrid.{
  HybridSearch, HybridSearchConfig, SearchResult, Index, less_score, result_of, is_pushed,
  score_all, search_index, search,
}

module _ {A : Type 0} where
  abbrev pub skip : ℕ → List A → List A
  skip zero xs = xs
  skip (suc n) [] = []
  skip (suc n) (x ∷ xs) = skip n xs

  take-skip : (n : ℕ) (xs : List A) → take n xs ++ skip n xs ≡ xs
  take-skip zero xs = refl
  take-skip (suc n) [] = refl
  take-skip (suc n) (x ∷ xs) = ap (◌∷◌ x) (take-skip n xs)

  length-take : (n : ℕ) (xs : List A) → length (take n xs) ≡ min n (length xs)
  length-take zero xs = omega arith
  length-take (suc n) [] = omega arith
  length-take (suc n) (x ∷ xs) = omega (arith, length-take n xs)

  take_nil : (n : ℕ) → [] ≡ take {A = A} n []
  take_nil zero = refl
  take_nil (suc n) = refl

module _ {F R : Type 0} (f : F32 R) (to_lowercase : Text → Text) where
  abbrev scored :
      HybridSearchConfig R
      → List R
      → List Text
      → Text
      → CapabilityCard F × List R
      → SearchResult F R
  scored config query terms did entry =
      result_of f to_lowercase config query terms did entry.0 entry.1

  -- A result that the index accounts for and that is good enough.
  abbrev pub Genuine :
      HybridSearchConfig R → List R → List Text → Index F R → SearchResult F R → Type 0
  Genuine config query terms index r =
      (entry : CapabilityCard F × List R) × (get r.did index ≡ some entry)
      × (r ≡ scored config query terms r.did entry)
      × (is_pushed f to_lowercase config r ≡ true)

  -- How often a search should find an identifier.
  abbrev pub expected :
      HybridSearchConfig R → List R → List Text → Text → Option (CapabilityCard F × List R) → ℕ
  expected config query terms did none = 0
  expected config query terms did (some entry) =
      if is_pushed f to_lowercase config (scored config query terms did entry) then 1 else 0

  module _ (config : HybridSearchConfig R) (query : List R) (terms : List Text) where
    widen :
        (did : Text) (entry : CapabilityCard F × List R) (index : Index F R)
        (rs : List (SearchResult F R))
        → get did index ≡ none
        → All (Genuine config query terms index) rs
        → All (Genuine config query terms ((did, entry) ∷ index)) rs
    widen did entry index [] h k = tt
    widen did entry index (r ∷ rs) h ((e, found, q, p), k) =
        ((e, ground (arith, h, found), q, p), widen did entry index rs h k)

    score_all-Genuine :
        (index : Index F R)
        → DistinctKeys index
        → All (Genuine config query terms index) (score_all f to_lowercase config query terms index)
    unfolding score_all
    score_all-Genuine [] d = tt
    score_all-Genuine ((did, entry) ∷ index) d =
        let rest = widen did entry index _ d.0 (score_all-Genuine index d.1) in
        elim (Bool-cases (is_pushed f to_lowercase config (scored config query terms did entry))) [
          | inl good ↦ rw good ((entry, ground arith, refl, good), rest)
          | inr bad ↦ rw bad rest
        ]

    count-score_all :
        (did : Text) (index : Index F R)
        → DistinctKeys index
        → count (λ r. same r.did did) (score_all f to_lowercase config query terms index)
          ≡ expected config query terms did (get did index)
    unfolding score_all
    count-score_all did [] d = refl
    count-score_all did ((did', entry) ∷ index) d =
        let ih = count-score_all did index d.1 in
        elim (text_key.equal did' did) [
          | yes p ↦
              elim (Bool-cases
                (is_pushed f to_lowercase config (scored config query terms did' entry))) [
                  | inl good ↦ rw good (ground (arith, ih, good, d.0))
                  | inr bad ↦ rw bad (ground (arith, ih, bad, d.0))
                ]
          | no n ↦
              elim (Bool-cases
                (is_pushed f to_lowercase config (scored config query terms did' entry))) [
                  | inl good ↦ rw good (ground (arith, ih))
                  | inr bad ↦ rw bad (ground (arith, ih))
                ]
        ]

  search_index_lem :
      (embed : Text → Result SearchError (List R)) (split_whitespace : Text → List Text)
      (config : HybridSearchConfig R) (index : Index F R) (query : Text) (vector : List R)
      → embed query ≡ ok vector
      → search_index f to_lowercase embed split_whitespace config index query
        ≡ ok (
            take config.max_results (
              sort (less_score f) (
                score_all f to_lowercase config vector
                  (split_whitespace (to_lowercase query))
                  index)))
  unfolding search_index score_all
  search_index_lem embed split_whitespace config [] query vector e =
      ap ok (take_nil config.max_results)
  search_index_lem embed split_whitespace config (entry ∷ index) query vector e = rw e refl

  -- A search over an index that holds each identifier once finds the best of the cards that pass
  -- its tests: of the cards that it finds and those that it leaves out, in one list, none scores
  -- more than one before it; each of them is a card of the index with the score that the weights
  -- give it, good enough by the tests; the identifiers with such a card are in the list once and no
  -- others; and as many are found as there are, up to `max_results`. This supposes that the scores
  -- are ordered, as they are without NaN, and that the query is embedded.
  pub search-Ranked :
      (embed : Text → Result SearchError (List R)) (split_whitespace : Text → List Text)
      (s : HybridSearch F R) (query : Text) (vector : List R)
      → embed query ≡ ok vector
      → IsOrder (less_score {F = F} f)
      → DistinctKeys s.index
      → let terms = split_whitespace (to_lowercase query) in
        (found : List (SearchResult F R)) × (left : List (SearchResult F R)) × (search f
            to_lowercase embed split_whitespace s query
          ≡ ok found)
        × Descends (less_score f) (found ++ left)
        × All (Genuine s.config vector terms s.index) (found ++ left)
        × ((did : Text)
            → count (λ r. same r.did did) (found ++ left)
              ≡ expected s.config vector terms did (get did s.index))
        × (length found ≡ min s.config.max_results (length (found ++ left)))
  unfolding search
  search-Ranked embed split_whitespace s query vector e o d =
      let terms = split_whitespace (to_lowercase query) in
      let n = s.config.max_results in
      let all = score_all f to_lowercase s.config vector terms s.index in
      let sorted = sort (less_score f) all in
      let whole = sym (take-skip n sorted) in
      (
        take n sorted,
        skip n sorted,
        search_index_lem embed split_whitespace s.config s.index query vector e,
        subst (Descends (less_score f)) whole (sort-Descends (less_score f) all o),
        subst (All (Genuine s.config vector terms s.index)) whole
            (All-sort (less_score f) _ all (score_all-Genuine s.config vector terms s.index d)),
        (λ did.
            ap (count (λ r. same r.did did)) (take-skip n sorted)
            ∙ count-sort (less_score f) _ all
            ∙ count-score_all s.config vector terms did s.index d),
        length-take n sorted ∙ ap (λ rs. min n (length rs)) whole,
      )
