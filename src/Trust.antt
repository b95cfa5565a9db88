-- ===== src/Trust.antt =====
-- `TrustService` (node/src/trust.rs). The clock is the argument `now`, in seconds. The locks are
-- not poisoned. The client of the contract is left out, and with it get_onchain_trust_score.
pub mod Score
pub mod Ledger
pub mod Cache
mod Tests
use agentme.Prelude.{
  ℕ, suc, ◌+◌, ◌-◌, ◌*◌, ◌%◌, ◌^◌, Bool, true, false, not, ◌&&◌, Option, none, some, List, [], ◌∷◌,
  ◌++◌, ltb, leb, ◌==◌, if◌then◌else◌, Result, ok, err, ◌>>=◌, ◌>>◌, guard, Text, codes,
  starts_with, decimal, text_key,
}
use agentme.Prelude.Map.{Map, get, insert}
use agentme.Float.{F64, F64Math}

pub record TrustInfo (F : Type 0) : Type 0 where
  pub did : Text
  pub score : F
  pub reputation : F
  pub stake_score : F
  pub endorsement_score : F
  pub stake_amount : ℕ
  pub successful_transactions : ℕ
  pub failed_transactions : ℕ
  pub endorsement_count : ℕ

pub record TrustWeights (F : Type 0) : Type 0 where
  pub reputation : F
  pub stake : F
  pub endorsements : F

abbrev pub reference_stake : ℕ
reference_stake = 10000000000

abbrev pub max_endorsement_hops : ℕ
max_endorsement_hops = 3

abbrev pub max_endorsements_counted : ℕ
max_endorsements_counted = 10

pub record EndorsementData : Type 0 where
  pub endorser_did : Text
  pub hop_distance : ℕ

pub record TrustData : Type 0 where
  pub stake_amount : ℕ
  pub successful_transactions : ℕ
  pub failed_transactions : ℕ
  pub endorsement_count : ℕ
  pub last_activity_timestamp : ℕ
  pub endorsements : List EndorsementData

-- `TrustData::default`.
abbrev pub no_data : TrustData
no_data = record {
  stake_amount = 0;
  successful_transactions = 0;
  failed_transactions = 0;
  endorsement_count = 0;
  last_activity_timestamp = 0;
  endorsements = [];
}

pub record TrustService (F : Type 0) : Type 0 where
  pub weights : TrustWeights F
  pub cache : Map Text TrustData

-- `Error::Trust` with its message.
pub data TrustError : Type 0 where
  invalid_did invalid_weight : TrustError

abbrev pub is_did : Text → Bool
is_did did = starts_with did (codes "did:")

-- `+= 1` on a `u64`.
abbrev pub add_one : ℕ → ℕ
add_one n = (n + 1) % 2 ^ 64

abbrev pub or_default : Option TrustData → TrustData
or_default none = no_data
or_default (some data_of) = data_of

abbrev pub succeeded : TrustData → ℕ → TrustData
succeeded d now = record d {
  successful_transactions = add_one d.successful_transactions;
  last_activity_timestamp = now;
}

abbrev pub failed : TrustData → ℕ → TrustData
failed d now = record d {
  failed_transactions = add_one d.failed_transactions;
  last_activity_timestamp = now;
}

abbrev pub endorsed : TrustData → Text → ℕ → TrustData
endorsed d endorser hop_distance = record d {
  endorsement_count = add_one d.endorsement_count;
  endorsements =
      d.endorsements ++ record { endorser_did = endorser; hop_distance = hop_distance } ∷ [];
}

abbrev pub anonymous : ℕ → Text
anonymous n = codes "did:agoramesh:base:anonymous-endorser-" ++ decimal n

module _ {F : Type 0} where
  -- `cache.entry(did).or_default()` and `unwrap_or_default()`.
  abbrev pub entry : TrustService F → Text → TrustData
  entry s did = or_default (get did s.cache)

  abbrev pub put : TrustService F → Text → TrustData → TrustService F
  put s did d = record s { cache = insert did d s.cache }

  unfoldable pub seed_trust_data_with_timestamp :
      TrustService F → Text → ℕ → ℕ → ℕ → ℕ → ℕ → TrustService F
  seed_trust_data_with_timestamp s did stake successful_txs failed_txs endorsement_count timestamp =
      put s did (record {
        stake_amount = stake;
        successful_transactions = successful_txs;
        failed_transactions = failed_txs;
        endorsement_count = endorsement_count;
        last_activity_timestamp = timestamp;
        endorsements = [];
      })

  unfoldable pub seed_trust_data : TrustService F → Text → ℕ → ℕ → ℕ → ℕ → ℕ → TrustService F
  seed_trust_data s did stake successful_txs failed_txs endorsement_count now =
      seed_trust_data_with_timestamp s did stake successful_txs failed_txs endorsement_count now

  unfoldable pub record_success : TrustService F → Text → ℕ → Result TrustError (TrustService F)
  record_success s did now = do
    guard (is_did did) invalid_did
    ok (put s did (succeeded (entry s did) now))

  unfoldable pub record_failure : TrustService F → Text → ℕ → Result TrustError (TrustService F)
  record_failure s did now = do
    guard (is_did did) invalid_did
    ok (put s did (failed (entry s did) now))

  unfoldable pub add_endorsement_with_hop :
      TrustService F → Text → Text → ℕ → Result TrustError (TrustService F)
  add_endorsement_with_hop s endorser_did target_did hop_distance = do
    guard (is_did endorser_did) invalid_did
    guard (is_did target_did) invalid_did
    ok (put s target_did (endorsed (entry s target_did) endorser_did hop_distance))

module _ {F : Type 0} (m : F64Math F) where
  abbrev pub in_unit : F → Bool
  in_unit x = m.base.at_least x m.base.zero && m.base.at_least m.base.one x

  -- The endorser is one that does not exist, so that it adds nothing to the score.
  unfoldable pub endorse : TrustService F → Text → F → Result TrustError (TrustService F)
  endorse s target_did weight = do
    guard (is_did target_did) invalid_did
    guard (in_unit weight) invalid_weight
    let d = entry s target_did
    ok (put s target_did (endorsed d (anonymous (add_one d.endorsement_count)) 1))
