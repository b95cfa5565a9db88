-- ===== src/Trust/Score.antt =====
-- The scores of `TrustService` (node/src/trust.rs).
pub mod Endorsements
use agentme.Prelude.{
  ℕ, zero, suc, ◌+◌, ◌-◌, ◌%◌, ◌^◌, Bool, true, false, Option, none, some, List, [], ◌∷◌, ltb, leb,
  ◌==◌, if◌then◌else◌, Result, ok, err, ◌>>=◌, ◌>>◌, guard, Text, text_key,
}
use agentme.Prelude.Map.{Map, get}
use agentme.Float.{F64, F64Math}
use agentme.Trust.{
  TrustService, TrustInfo, TrustWeights, TrustData, EndorsementData, TrustError, invalid_did,
  is_did, entry, reference_stake, max_endorsement_hops, max_endorsements_counted,
}

module _ {F : Type 0} (m : F64Math F) where
  -- DECAY_RATE, for 14 days, ENDORSEMENT_DECAY_PER_HOP and ENDORSEMENT_NORMALIZATION.
  abbrev pub decay_rate : F
  decay_rate = m.literal 5 100

  abbrev pub endorsement_decay_per_hop : F
  endorsement_decay_per_hop = m.literal 9 10

  abbrev pub endorsement_normalization : F
  endorsement_normalization = m.literal 3 1

  unfoldable pub calculate_decay_factor : ℕ → ℕ → F
  calculate_decay_factor last_activity now =
      if last_activity == 0
      then m.base.one
      else if leb now last_activity
      then m.base.one
      else (let days =
            m.base.quotient (m.base.from_u64 (now - last_activity)) (m.literal 86400 1) in
          m.base.clamp
            (m.difference m.base.one
              (m.base.quotient (m.base.product days decay_rate) (m.literal 14 1)))
            m.base.zero m.base.one)

  abbrev pub rated : ℕ → ℕ → ℕ → ℕ → F
  rated successful total last_activity now =
      let success_rate = m.base.quotient (m.base.from_u64 successful) (m.base.from_u64 total) in
      let volume_factor =
        m.lesser (m.base.quotient (m.base.from_u64 total) (m.literal 100 1)) m.base.one in
      let base_reputation =
        m.base.product success_rate
          (m.base.sum (m.literal 5 10) (m.base.product (m.literal 5 10) volume_factor)) in
      m.base.clamp (m.base.product base_reputation (calculate_decay_factor last_activity now))
        m.base.zero m.base.one

  unfoldable pub calculate_reputation : TrustData → ℕ → F
  calculate_reputation d now =
      let total = (d.successful_transactions + d.failed_transactions) % 2 ^ 64 in
      if total == 0
      then m.base.zero
      else rated d.successful_transactions total d.last_activity_timestamp now

  unfoldable pub calculate_stake_score : ℕ → F
  calculate_stake_score stake_amount =
      if stake_amount == 0
      then m.base.zero
      else m.lesser
          (m.root
            (m.base.quotient (m.base.from_u64 stake_amount) (m.base.from_u64 reference_stake)))
          m.base.one

  abbrev pub reputation_of : ℕ → Option TrustData → F
  reputation_of now none = m.base.zero
  reputation_of now (some d) = calculate_reputation d now

  abbrev pub contribution : Map Text TrustData → ℕ → EndorsementData → F
  contribution cache now e =
      m.base.product (reputation_of now (get e.endorser_did cache))
        (m.power endorsement_decay_per_hop e.hop_distance)

  -- The loop of `calculate_endorsement_score`, with its sum and its count so far.
  unfoldable pub contribute : Map Text TrustData → ℕ → F → ℕ → List EndorsementData → F
  contribute cache now total counted [] = total
  contribute cache now total counted (e ∷ endorsements) =
      let skipped = contribute cache now total counted endorsements in
      let added =
        contribute cache now (m.base.sum total (contribution cache now e)) (counted + 1)
          endorsements in
      if ltb max_endorsement_hops e.hop_distance
      then skipped
      else if leb max_endorsements_counted counted
      then total
      else added

  abbrev pub normalized : F → F
  normalized total = m.lesser (m.base.quotient total endorsement_normalization) m.base.one

  unfoldable pub calculate_endorsement_score : Map Text TrustData → List EndorsementData → ℕ → F
  calculate_endorsement_score cache [] now = m.base.zero
  calculate_endorsement_score cache (e ∷ endorsements) now =
      normalized (contribute cache now m.base.zero 0 (e ∷ endorsements))

  -- The trust of an agent, from its data.
  abbrev pub info_of : TrustService F → Text → TrustData → ℕ → TrustInfo F
  info_of s did d now =
      let reputation = calculate_reputation d now in
      let stake_score = calculate_stake_score d.stake_amount in
      let endorsement_score = calculate_endorsement_score s.cache d.endorsements now in
      record {
        did = did;
        score =
            m.base.sum
              (m.base.sum (m.base.product s.weights.reputation reputation)
                (m.base.product s.weights.stake stake_score))
              (m.base.product s.weights.endorsements endorsement_score);
        reputation = reputation;
        stake_score = stake_score;
        endorsement_score = endorsement_score;
        stake_amount = d.stake_amount;
        successful_transactions = d.successful_transactions;
        failed_transactions = d.failed_transactions;
        endorsement_count = d.endorsement_count;
      }

  unfoldable pub get_trust : TrustService F → Text → ℕ → Result TrustError (TrustInfo F)
  get_trust s did now = do guard (is_did did) invalid_did; ok (info_of s did (entry s did) now)

  unfoldable pub verify : TrustService F → Text → F → ℕ → Result TrustError Bool
  verify s did min_score now = do
    info ← get_trust s did now
    ok (m.base.at_least info.score min_score)
