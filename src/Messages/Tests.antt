-- ===== src/Messages/Tests.antt =====
-- Runs of node/src/network/message_handler.rs on small inputs.
use agentme.Prelude.{
  ℕ, ◌+◌, ◌*◌, ◌≡◌, refl, Bool, true, false, Option, none, some, List, [], ◌∷◌, Result, ok, err,
  Text, codes, text_key, string_key, arith,
}
use agentme.Prelude.Map.{get}
use agentme.Thousandths.{thousandths_math}
use agentme.Discovery.{open_channel, from_parts, default_config}
use agentme.Trust.{TrustService, TrustData, entry}
use agentme.Trust.Ledger.Totals.{IsU64, totals}
use agentme.Arbitration.Ai.{AiArbitrator, AiDispute, awaiting_evidence}
use agentme.Arbitration.Ai.Invariant.{IsValid}
use agentme.Search.Embedding.{SearchError, embedding_failed}
use agentme.Messages.{
  DiscoveryMessage, TrustMessage, reputation_event, DisputeMessage, create, MessageHandler,
  NetworkEvent, message, no_message, with_services, topic_trust, topic_disputes,
}
use agentme.Messages.Handling.{Parsers, handle_all}
use agentme.Messages.Histories.{
  calls_of, ops_of, handle_all-services, handle_all-IsValid, handle_all-entry,
}
use agentme.Messages.Services.{services, served}
use agentme.Messages.Counters.{IsConsistent, handle_all-IsConsistent}

-- Data that already is one of the messages, or does not parse.
data Payload : Type 0 where
  of_trust : TrustMessage ℕ → Payload
  of_dispute : DisputeMessage → Payload
  noise : Payload

abbrev as_trust : Payload → Option (TrustMessage ℕ)
as_trust (of_trust msg) = some msg
as_trust _ = none

abbrev as_dispute : Payload → Option DisputeMessage
as_dispute (of_dispute msg) = some msg
as_dispute _ = none

abbrev parse : Parsers Payload ℕ
parse = record {
  discovery_message = λ d. none;
  capability_card = λ d. none;
  trust_message = as_trust;
  dispute_message = as_dispute;
}

abbrev no_embedding : Text → Result SearchError (List ℕ)
no_embedding text = err embedding_failed

abbrev trust_service : TrustService ℕ
trust_service = record {
  weights = record { reputation = 500; stake = 300; endorsements = 200 };
  cache = [];
}

abbrev arbitrator : AiArbitrator
arbitrator = record {
  config = record {
    evidence_period_hours = 48;
    appeal_period_hours = 72;
    max_evidence_per_party = 2;
  };
  disputes = [];
  kleros_client = none;
  stats = record {
    disputes_created = 0;
    disputes_ruled = 0;
    disputes_appealed = 0;
    evidence_submitted = 0;
    rulings_favor_client = 0;
    rulings_favor_provider = 0;
    rulings_split = 0;
  };
}

abbrev start : MessageHandler ℕ ℕ
start =
    with_services (from_parts open_channel none default_config) (some trust_service)
      (some arbitrator)

abbrev events : List (NetworkEvent Payload)
events =
    message topic_trust (of_trust (reputation_event (codes "did:a") true 7 90)) 100 "u1"
    ∷ no_message
    ∷ message topic_trust noise 110 "u2"
    ∷ message topic_disputes (of_dispute (create "x1" "did:a" "did:b" 20_000_000 115)) 120 "d1"
    ∷ message "/other" noise 130 "u3"
    ∷ message topic_disputes (of_dispute (create "x2" "alice" "did:b" 20_000_000 140)) 140 "d2"
    ∷ []

handle_all-services_example :
    services (handle_all parse no_embedding thousandths_math start events)
    ≡ served thousandths_math
        (services start)
        (calls_of parse no_embedding thousandths_math events)
        (ops_of parse no_embedding thousandths_math events)
handle_all-services_example = handle_all-services parse no_embedding thousandths_math start events

abbrev dispute : AiDispute
dispute = record {
  id = "d1";
  escrow_id = "x1";
  client_did = "did:a";
  provider_did = "did:b";
  amount_usdc = 20_000_000;
  state = awaiting_evidence;
  client_evidence = [];
  provider_evidence = [];
  ruling = none;
  kleros_dispute_id = none;
  created_at = 120;
  evidence_deadline = 120 + 48 * 3600;
}

abbrev opened : AiArbitrator
opened = record {
  config = arbitrator.config;
  disputes = ("d1", dispute) ∷ [];
  kleros_client = none;
  stats = record arbitrator.stats { disputes_created = 1 };
}

started : start.arbitrator ≡ some arbitrator
unfolding with_services
started = refl

one_dispute : (handle_all parse no_embedding thousandths_math start events).arbitrator ≡ some opened
unfolding handle_all agentme.Messages.Handling.handle_event agentme.Messages.Handling.route_message
    agentme.Prelude.Tests.String-discrete agentme.Messages.Handling.handle_dispute_message
    agentme.Messages.process_create_dispute agentme.Messages.Handling.handle_trust_message
    agentme.Messages.Handling.process_trust_message with_services agentme.Trust.record_success
    agentme.Arbitration.Ai.create_dispute
one_dispute = refl

stored : get "d1" opened.disputes ≡ some dispute
unfolding agentme.Prelude.Tests.String-discrete
stored = refl

handle_all-IsValid_example : IsValid 2 dispute
handle_all-IsValid_example =
    handle_all-IsValid parse no_embedding thousandths_math start events arbitrator opened "d1"
      dispute started refl one_dispute stored

trusting : start.trust_service ≡ some trust_service
unfolding with_services
trusting = refl

few : IsU64 (entry trust_service (codes "did:a"))
few = record {
  successes_fit = omega arith;
  failures_fit = omega arith;
  endorsements_fit = omega arith;
}

handle_all-entry_example :
    (t : TrustService ℕ) × ((handle_all parse no_embedding thousandths_math start
        events).trust_service
      ≡ some t)
    × (entry t (codes "did:a")
        ≡ totals thousandths_math
            (codes "did:a")
            (entry trust_service (codes "did:a"))
            (calls_of parse no_embedding thousandths_math events))
handle_all-entry_example =
    handle_all-entry parse no_embedding thousandths_math start events trust_service (codes "did:a")
      trusting few

fresh_counters : IsConsistent 0 start.stats
unfolding with_services
fresh_counters = record {
  received_is = refl;
  bounded = omega arith;
  finished_le = omega arith;
  topics_le = omega arith;
}

handle_all-IsConsistent_example :
    IsConsistent 5 (handle_all parse no_embedding thousandths_math start events).stats
handle_all-IsConsistent_example =
    handle_all-IsConsistent parse no_embedding thousandths_math start events 0 fresh_counters
      (omega arith)
