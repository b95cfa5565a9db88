-- ===== src/Search/Hybrid.antt =====
-- `HybridSearch` (node/src/search/hybrid.rs). The embedding of a text is a parameter here, which
-- may fail: `EmbeddingService::embed` is in Search/Embedding. So are `to_lowercase` and
-- `split_whitespace` of the standard library, with their tables of Unicode. The index is in the
-- order in which the hash map hands it out.
pub mod Ranking
use agentme.Prelude.{
  ℕ, zero, suc, Bool, true, false, not, ◌&&◌, ◌||◌, Option, none, some, List, [], ◌∷◌, ◌++◌, map,
  take, if◌then◌else◌, length, count, Result, ok, err, ok_or, ◌>>=◌, Text, codes, starts_with,
  text_key, sort, join,
}
use agentme.Prelude.Map.{Map, get, insert, remove, is_some}
use agentme.Discovery.Card.{CapabilityCard, AgoraMeshExtension, Skill}
use agentme.Search.Vectors.{F32}
use agentme.Search.Embedding.{SearchError, missing_did, cosine_similarity, card_to_text}

pub record HybridSearchConfig (R : Type 0) : Type 0 where
  pub vector_weight : R
  pub keyword_weight : R
  pub rrf_k : R
  pub max_results : ℕ
  pub min_score : R

pub record SearchResult (F R : Type 0) : Type 0 where
  pub did : Text
  pub score : R
  pub vector_score : R
  pub keyword_score : R
  pub card : CapabilityCard F

abbrev pub Index : Type 0 → Type 0 → Type 0
Index F R = Map Text (CapabilityCard F × List R)

pub record HybridSearch (F R : Type 0) : Type 0 where
  pub index : Index F R
  pub config : HybridSearchConfig R

-- `contains` of texts.
abbrev pub occurs : Text → Text → Bool
occurs needle [] = starts_with [] needle
occurs needle (c ∷ s) = starts_with (c ∷ s) needle || occurs needle s

abbrev pub text_or_empty : Option Text → Text
text_or_empty none = []
text_or_empty (some t) = t

abbrev pub skill_text : Skill → Text
skill_text c = c.name ++ b' ' ∷ text_or_empty c.description

abbrev pub did_of : {F : Type 0} → CapabilityCard F → Option Text
did_of card = elim (card.agoramesh) [ none ↦ none | some ext ↦ some ext.did ]

module _ {F R : Type 0} where
  unfoldable pub remove_card : HybridSearch F R → Text → HybridSearch F R × Bool
  remove_card s did = (record s { index = remove did s.index }, is_some (get did s.index))

  unfoldable pub index_size : HybridSearch F R → ℕ
  index_size s = length s.index

  unfoldable pub is_indexed : HybridSearch F R → Text → Bool
  is_indexed s did = is_some (get did s.index)

  unfoldable pub clear : HybridSearch F R → HybridSearch F R
  clear s = record s { index = [] }

  -- `a.partial_cmp(b)` is `Less`, on the scores; `sort_by` puts the greater first.
  abbrev pub less_score : F32 R → SearchResult F R → SearchResult F R → Bool
  less_score f a b = f.less a.score b.score

module _ {F R : Type 0} (embed : Text → Result SearchError (List R)) where
  unfoldable pub index_card :
      HybridSearch F R → CapabilityCard F → Result SearchError (HybridSearch F R)
  index_card s card = do
    did ← ok_or (did_of card) missing_did
    embedding ← embed (card_to_text card.name card.description (map (λ c. c.name) card.skills))
    ok (record s { index = insert did (card, embedding) s.index })

module _ {F R : Type 0} (f : F32 R) (to_lowercase : Text → Text) where
  abbrev pub card_text : CapabilityCard F → Text
  card_text card =
      to_lowercase
        (card.name ++ b' ' ∷ card.description ++ b' ' ∷ join b' ' (map skill_text card.skills))

  abbrev pub ratio : CapabilityCard F → List Text → R
  ratio card terms =
      f.quotient (f.of_count (count (λ term. occurs term (card_text card)) terms))
        (f.of_count (length terms))

  unfoldable pub compute_keyword_score : CapabilityCard F → List Text → R
  compute_keyword_score card [] = f.zero
  compute_keyword_score card (term ∷ terms) = ratio card (term ∷ terms)

  abbrev pub result_of :
      HybridSearchConfig R
      → List R
      → List Text
      → Text
      → CapabilityCard F
      → List R
      → SearchResult F R
  result_of config query terms did card embedding =
      let vector_score = f.quotient (f.sum (cosine_similarity f query embedding) f.one) f.two in
      let keyword_score = compute_keyword_score card terms in
      record {
        did = did;
        score =
            f.sum (f.product config.vector_weight vector_score)
              (f.product config.keyword_weight keyword_score);
        vector_score = vector_score;
        keyword_score = keyword_score;
        card = card;
      }

  -- Whether the loop pushes the result.
  abbrev pub is_pushed : HybridSearchConfig R → SearchResult F R → Bool
  is_pushed config r =
      not (f.less r.vector_score f.three_tenths && f.less r.keyword_score f.tenth)
      && f.at_least r.score config.min_score

  -- The loop over the index.
  unfoldable pub score_all :
      HybridSearchConfig R → List R → List Text → Index F R → List (SearchResult F R)
  score_all config query terms [] = []
  score_all config query terms ((did, (card, embedding)) ∷ index) =
      let r = result_of config query terms did card embedding in
      let rest = score_all config query terms index in if is_pushed config r then r ∷ rest else rest

  module _ (embed : Text → Result SearchError (List R)) (split_whitespace : Text → List Text) where
    unfoldable pub search_index :
        HybridSearchConfig R → Index F R → Text → Result SearchError (List (SearchResult F R))
    search_index config [] query = ok []
    search_index config (entry ∷ index) query = do
      query_embedding ← embed query
      ok (
          take config.max_results (
            sort (less_score f) (
              score_all config query_embedding (split_whitespace (to_lowercase query))
                (entry ∷ index))))

    unfoldable pub search : HybridSearch F R → Text → Result SearchError (List (SearchResult F R))
    search s query = search_index s.config s.index query
