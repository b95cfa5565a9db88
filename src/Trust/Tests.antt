-- ===== src/Trust/Tests.antt =====
-- Runs of node/src/trust.rs on small inputs.
use agentme.Prelude.{
  ℕ, ◌≡◌, refl, true, false, none, List, [], ◌∷◌, Result, ok, err, Text, codes, text_key,
  Text-discrete, arith,
}
use agentme.Thousandths.{thousandths_math}
use agentme.Trust.{TrustService, EndorsementData, entry}
use agentme.Trust.Score.{calculate_endorsement_score}
use agentme.Trust.Score.Endorsements.{score_of, calculate_endorsement_score_lem}
use agentme.Trust.Ledger.{Call, success, failure, hop_endorsement, run}
use agentme.Trust.Ledger.Totals.{IsU64, totals, entry-run}

abbrev start : TrustService ℕ
start = record {
  weights = record { reputation = 500; stake = 300; endorsements = 200 };
  cache = [];
}

abbrev calls : List (Call ℕ)
calls =
    success (codes "did:a") 10
    ∷ failure (codes "did:b") 20
    ∷ success (codes "a") 25
    ∷ hop_endorsement (codes "did:b") (codes "did:a") 2
    ∷ []

fresh_counters : IsU64 (entry start (codes "did:a"))
fresh_counters = record {
  successes_fit = omega arith;
  failures_fit = omega arith;
  endorsements_fit = omega arith;
}

entry-run_example :
    entry (run thousandths_math start calls) (codes "did:a")
    ≡ totals thousandths_math (codes "did:a") (entry start (codes "did:a")) calls
entry-run_example = entry-run thousandths_math start calls (codes "did:a") fresh_counters

counted_once :
    totals thousandths_math (codes "did:a") (entry start (codes "did:a")) calls ≡ record {
      stake_amount = 0;
      successful_transactions = 1;
      failed_transactions = 0;
      endorsement_count = 1;
      last_activity_timestamp = 10;
      endorsements = record { endorser_did = codes "did:b"; hop_distance = 2 } ∷ [];
    }
unfolding Text-discrete agentme.Prelude.ℕ_discrete
counted_once = refl

abbrev endorsements : List EndorsementData
endorsements =
    record { endorser_did = codes "did:b"; hop_distance = 4 }
    ∷ record { endorser_did = codes "did:b"; hop_distance = 1 }
    ∷ []

calculate_endorsement_score_lem_example :
    calculate_endorsement_score thousandths_math [] endorsements 30
    ≡ score_of thousandths_math [] 30 endorsements
calculate_endorsement_score_lem_example =
    calculate_endorsement_score_lem thousandths_math [] 30 endorsements
