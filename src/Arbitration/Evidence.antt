-- ===== src/Arbitration/Evidence.antt =====
-- Evidence and its score (node/src/arbitration.rs). The weights are multiples of 0.5, whose sums an
-- `f64` holds exactly, so a score counts halves; a confidence counts thousandths, without the
-- rounding of the `f64`. Of a ruling the texts of `reasoning` and `key_factors` are left out.
use Prim.Native.String.{len}
use agentme.Prelude.{
  ℕ, ◌+◌, ◌-◌, ◌*◌, ◌≤◌, ◌≡◌, min, Bool, Option, none, some, List, [], ◌∷◌, ◌++◌, map, ltb, leb,
  if◌then◌else◌, arith, String, ◌≢◌,
}
use agentme.Arbitration.Tiers.{Ruling, undecided, favor_client, favor_provider, split}

pub data EvidenceType : Type 0 where
  text image log contract communication : EvidenceType
  other : String → EvidenceType

pub record Evidence : Type 0 where
  pub id : String
  pub submitter_did : String
  pub evidence_type : EvidenceType
  pub title : String
  pub description : String
  pub data_uri : Option String
  pub submitted_at : ℕ

pub record AiRuling : Type 0 where
  pub decision : Ruling
  pub confidence : ℕ
  pub relevant_evidence : List String
  pub ruled_at : ℕ
  pub appeal_deadline : ℕ

unfoldable pub type_weight : EvidenceType → ℕ
type_weight contract = 6
type_weight log = 5
type_weight communication = 4
type_weight image = 3
type_weight text = 2
type_weight (other s) = 1

abbrev pub uri_bonus : Option String → ℕ
uri_bonus none = 0
uri_bonus (some uri) = 1

abbrev pub detail_bonus : ℕ → ℕ
detail_bonus n = if ltb 200 n then 1 else 0

unfoldable pub score_from : ℕ → List Evidence → ℕ
unfolding type_weight
score_from score [] = score
score_from score (e ∷ evidence) =
    score_from
      (score
        + (type_weight e.evidence_type + detail_bonus (len e.description) + uri_bonus e.data_uri))
      evidence

unfoldable pub score_evidence : List Evidence → ℕ
unfolding score_from
score_evidence evidence = score_from 0 evidence

-- The comparison and the confidence of `analyze_dispute`, on the two scores.
unfoldable pub decide_scores : ℕ → ℕ → Ruling × ℕ
decide_scores client_score provider_score =
    if ltb (provider_score * 3) (client_score * 2)
    then (favor_client, min (750 + (client_score - provider_score) * 25) 950)
    else if ltb (client_score * 3) (provider_score * 2)
    then (favor_provider, min (750 + (provider_score - client_score) * 25) 950)
    else (split, min (600 + min client_score provider_score * 10) 950)

abbrev pub appeal_secs : ℕ
appeal_secs = 72 * 3600

unfoldable pub new_ruling : Ruling → ℕ → List String → ℕ → AiRuling
new_ruling decision confidence relevant_evidence now = record {
  decision = decision;
  confidence = confidence;
  relevant_evidence = relevant_evidence;
  ruled_at = now;
  appeal_deadline = now + appeal_secs;
}

unfoldable pub can_appeal : AiRuling → ℕ → Bool
can_appeal r now = ltb now r.appeal_deadline

unfoldable pub is_confident : AiRuling → Bool
is_confident r = leb 700 r.confidence

unfoldable pub analyze_evidence : List Evidence → List Evidence → ℕ → AiRuling
unfolding score_evidence decide_scores new_ruling
analyze_evidence client provider now =
    let (decision, confidence) = decide_scores (score_evidence client) (score_evidence provider) in
    new_ruling decision confidence (map (λ e. e.id) client ++ map (λ e. e.id) provider) now

-- The ruling seen from the other side of the table.
abbrev pub mirror : Ruling → Ruling
mirror undecided = undecided
mirror favor_client = favor_provider
mirror favor_provider = favor_client
mirror split = split

-- Exchanging the parties' scores exchanges the ruling and keeps the confidence; a higher client
-- score never turns a ruling for the client into another; and a confidence lies between 60% and 95%,
-- at 75% or above for a ruling that is not split.
decide_scores_lem :
    (c d p : ℕ)
    → c ≤ d
    → ((decide_scores p c).0 ≡ mirror (decide_scores c p).0)
      × ((decide_scores p c).1 ≡ (decide_scores c p).1)
      × ((decide_scores c p).0 ≡ favor_client → (decide_scores d p).0 ≡ favor_client)
      × (600 ≤ (decide_scores c p).1)
      × ((decide_scores c p).1 ≤ 950)
      × ((decide_scores c p).0 ≢ split → 750 ≤ (decide_scores c p).1)
unfolding decide_scores
decide_scores_lem c d p h = ground arith
