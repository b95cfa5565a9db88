-- ===== src/Arbitration/Tests.antt =====
-- Runs of node/src/arbitration.rs on small inputs.
use agentme.Prelude.{List, [], ◌∷◌, ◌+◌, ◌*◌, ◌≡◌, refl, none, some, [], ◌∷◌, string_key}
use agentme.Prelude.Tests.{String-discrete}
use agentme.Prelude.Map.{get}
use agentme.Thousandths.{thousandths}
use agentme.Arbitration.Tiers.{favor_client}
use agentme.Arbitration.Evidence.{AiRuling, Evidence, contract}
use agentme.Arbitration.Ai.{
  AiArbitrator, AiArbitrationConfig, AiDispute, create_dispute, awaiting_evidence,
}
use agentme.Arbitration.Ai.Ops
use agentme.Arbitration.Ai.Ops.{Op, creates, submits, closes, rules, resolves}
use agentme.Arbitration.Ai.Lifecycle.{Effect, apply-Effect}
use agentme.Arbitration.Ai.Interleaved
use agentme.Arbitration.Ai.Interleaved.{interleave, Holds, interleave-Holds}
use agentme.Arbitration.Ai.Invariant
use agentme.Arbitration.Ai.Invariant.{FreshIds, Keeps, disputes-IsValid, run-Keeps}

abbrev config : AiArbitrationConfig
config = record { evidence_period_hours = 48; appeal_period_hours = 72; max_evidence_per_party = 2 }

abbrev empty : AiArbitrator
empty = record {
  config = config;
  disputes = [];
  kleros_client = none;
  stats = record {
    disputes_created = 0;
    disputes_ruled = 0;
    disputes_appealed = 0;
    evidence_submitted = 0;
    rulings_favor_client = 0;
    rulings_favor_provider = 0;
    rulings_split = 0;
  };
}

abbrev receipt : Evidence
receipt = record {
  id = "e1";
  submitter_did = "alice";
  evidence_type = contract;
  title = "receipt";
  description = "";
  data_uri = none;
  submitted_at = 5;
}

abbrev opening : Op
opening = creates "d1" "x1" "alice" "bob" 20_000_000 1

abbrev dispute : AiDispute
dispute = record {
  id = "d1";
  escrow_id = "x1";
  client_did = "alice";
  provider_did = "bob";
  amount_usdc = 20_000_000;
  state = awaiting_evidence;
  client_evidence = [];
  provider_evidence = [];
  ruling = none;
  kleros_dispute_id = none;
  created_at = 1;
  evidence_deadline = 1 + 48 * 3600;
}

abbrev opened : AiArbitrator
opened = record empty { disputes = ("d1", dispute) ∷ [] }

apply-Effect_example :
    Effect opened (submits "d1" receipt 5) (Ops.apply opened (submits "d1" receipt 5))
apply-Effect_example = apply-Effect opened (submits "d1" receipt 5)

created : get "d1" (Ops.run empty (opening ∷ [])).disputes ≡ some dispute
unfolding Ops.run Ops.apply create_dispute String-discrete
created = refl

disputes-IsValid_example : Invariant.IsValid 2 dispute
disputes-IsValid_example = disputes-IsValid empty (opening ∷ []) "d1" dispute refl created

stored : get "d1" opened.disputes ≡ some dispute
unfolding String-discrete
stored = refl

run-Keeps_example :
    (r : AiDispute) × (get "d1"
        (Ops.run opened (submits "d1" receipt 5 ∷ rules "d1" 9 ∷ [])).disputes
      ≡ some r)
    × Keeps dispute r
run-Keeps_example =
    run-Keeps opened (submits "d1" receipt 5 ∷ rules "d1" 9 ∷ []) "d1" dispute (tt, (tt, tt)) stored

-- The dispute is ruled on, resolved, and then a slower second ruling is stored: it is open again.
abbrev late : AiRuling
late = record {
  decision = favor_client;
  confidence = 800;
  relevant_evidence = [];
  ruled_at = 8;
  appeal_deadline = 8 + 72 * 3600;
}

abbrev race : List Interleaved.Step
race =
    Interleaved.calls (rules "d1" 9)
    ∷ Interleaved.calls (resolves "d1")
    ∷ Interleaved.writes_ruling "d1" late
    ∷ []

interleave-Holds_example :
    (r : AiDispute) × (get "d1" (interleave opened race).disputes ≡ some r) × Holds dispute r
interleave-Holds_example = interleave-Holds opened race "d1" dispute (tt, (tt, (tt, tt))) stored
