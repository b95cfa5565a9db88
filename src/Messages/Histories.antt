-- ===== src/Messages/Histories.antt =====
-- The services behind the handler after any events of the network.
use agentme.Prelude.{
  string_key, ℕ, ◌≡◌, refl, sym, ap, ◌∙◌, Option, none, some, List, [], ◌∷◌, ◌++◌, String, Result,
  ok, Text,
}
use agentme.Prelude.Map.{get}
use agentme.Float.{F64Math}
use agentme.Discovery.Card.{CapabilityCard}
use agentme.Discovery.{register}
use agentme.Trust.{TrustService, entry}
use agentme.Trust.Ledger as Ledger
use agentme.Trust.Ledger.{Call}
use agentme.Trust.Ledger.Totals.{IsU64, totals, entry-run}
use agentme.Arbitration.Ai.{AiArbitrator, AiDispute}
use agentme.Arbitration.Ai.Ops as Ops
use agentme.Arbitration.Ai.Ops.{Op}
use agentme.Arbitration.Ai.Invariant.{IsValid, disputes-IsValid}
use agentme.Search.Embedding.{SearchError}
use agentme.Messages.{
  DiscoveryMessage, card_announcement, discovery_request, TrustMessage, DisputeMessage,
  MessageHandler, NetworkEvent, message, no_message, process_dispute, topic_discovery,
  topic_capability, topic_trust, topic_disputes, record_received, record_discovery, record_dispute,
  record_trust, record_unknown_topic,
}
use agentme.Messages.Handling.{
  Parsers, Handled, count, discovered, trusted, process_card_announcement,
  process_discovery_message, process_trust_message, capability_or_error, discovery_or_card,
  trust_or_error, dispute_or_error, handle_discovery_message, handle_capability_message,
  handle_trust_message, handle_dispute_message, route_message, handle_event, handle_all, is_topic,
}
use agentme.Messages.Effects.{
  on_some, run_none, ops_none, process_trust_message-kept, process_dispute-settled,
}
use agentme.Messages.Accepted.{
  Kind, discovery, capability, trust, disputes, unknown, kind_of, accepted_calls, accepted_ops,
  passing_calls-accepted, passing_ops-accepted,
}
use agentme.Messages.Services.{
  services-processed, services-discovered, services-trusted, services-disputed, pair_eq,
  same_arbitrator, unserved, served-append, services, if_kind, served,
}

module _ {D F R : Type 0} (parse : Parsers D F) (embed : Text → Result SearchError (List R))
    (m : F64Math F) where
  -- The handlers by the kind of the topic.
  abbrev pub handled : MessageHandler F R → D → ℕ → String → Kind → Handled F R
  handled h data_of now id discovery = handle_discovery_message parse embed m h data_of now
  handled h data_of now id capability = handle_capability_message parse embed m h data_of now
  handled h data_of now id trust = handle_trust_message parse embed m h data_of now
  handled h data_of now id disputes = handle_dispute_message parse embed m h data_of now id
  handled h data_of now id unknown = (count record_unknown_topic h, ok tt)

  -- What a message asks of the trust service and of the arbitrator.
  abbrev calls_by : Kind → D → ℕ → List (Call F)
  calls_by trust data_of now = accepted_calls (parse.trust_message data_of) now
  calls_by _ data_of now = []

  abbrev ops_by : Kind → D → ℕ → String → List Op
  ops_by disputes data_of now id = accepted_ops (parse.dispute_message data_of) now id
  ops_by _ data_of now id = []

  abbrev calls_in : NetworkEvent D → List (Call F)
  calls_in (message topic data_of now id) = calls_by (kind_of topic) data_of now
  calls_in no_message = []

  abbrev ops_in : NetworkEvent D → List Op
  ops_in (message topic data_of now id) = ops_by (kind_of topic) data_of now id
  ops_in no_message = []

  abbrev pub calls_of : List (NetworkEvent D) → List (Call F)
  calls_of [] = []
  calls_of (e ∷ events) = calls_in e ++ calls_of events

  abbrev pub ops_of : List (NetworkEvent D) → List Op
  ops_of [] = []
  ops_of (e ∷ events) = ops_in e ++ ops_of events

  announced :
      (h : MessageHandler F R) (card : Option (CapabilityCard F)) (now : ℕ)
      → services (capability_or_error parse embed m h card now).0 ≡ services h
  unfolding process_card_announcement
  announced h none now = refl
  announced h (some card) now =
      services-processed (discovered h (register embed h.discovery_service card now))
      ∙ services-discovered h (register embed h.discovery_service card now)

  looked_up :
      (h : MessageHandler F R) (msg : Option (DiscoveryMessage F)) (data_of : D) (now : ℕ)
      → services (discovery_or_card parse embed m h msg data_of now).0 ≡ services h
  unfolding process_discovery_message
  looked_up h none data_of now = announced h (parse.capability_card data_of) now
  looked_up h (some (card_announcement card)) data_of now = announced h (some card) now
  looked_up h (some (discovery_request timestamp)) data_of now = refl

  trust_step :
      (h : MessageHandler F R) (msg : Option (TrustMessage F)) (now : ℕ)
      → services (trust_or_error parse embed m h msg now).0
        ≡ served m (services h) (accepted_calls msg now) []
  trust_step h none now = unserved m (services h)
  trust_step h (some msg) now =
      services-processed (trusted h (process_trust_message m h.trust_service msg now))
      ∙ services-trusted h (process_trust_message m h.trust_service msg now)
      ∙ pair_eq
          (process_trust_message-kept m h.trust_service msg now
            ∙ ap (λ calls. on_some (λ t. Ledger.run m t calls) h.trust_service)
                (passing_calls-accepted (some msg) now))
          (ops_none h.arbitrator)

  dispute_step :
      (h : MessageHandler F R) (msg : Option DisputeMessage) (now : ℕ) (id : String)
      → services (dispute_or_error parse embed m h msg now id).0
        ≡ served m (services h) [] (accepted_ops msg now id)
  dispute_step h none now id = unserved m (services h)
  dispute_step h (some msg) now id =
      services-disputed h (process_dispute h.arbitrator msg now id)
      ∙ pair_eq (run_none m h.trust_service) (
          process_dispute-settled h.arbitrator msg now id
          ∙ ap (λ ops. on_some (λ t. Ops.run t ops) h.arbitrator)
              (passing_ops-accepted (some msg) now id))

  handled-services :
      (h : MessageHandler F R) (data_of : D) (now : ℕ) (id : String) (k : Kind)
      → services (handled h data_of now id k).0
        ≡ served m (services h) (calls_by k data_of now) (ops_by k data_of now id)
  unfolding handle_discovery_message handle_capability_message handle_trust_message
      handle_dispute_message
  handled-services h data_of now id discovery =
      looked_up (count record_discovery h) (parse.discovery_message data_of) data_of now
      ∙ unserved m (services h)
  handled-services h data_of now id capability =
      announced h (parse.capability_card data_of) now ∙ unserved m (services h)
  handled-services h data_of now id trust =
      trust_step (count record_trust h) (parse.trust_message data_of) now
  handled-services h data_of now id disputes =
      dispute_step (count record_dispute h) (parse.dispute_message data_of) now id
  handled-services h data_of now id unknown = unserved m (services h)

  handle_event-services :
      (h : MessageHandler F R) (e : NetworkEvent D)
      → services (handle_event parse embed m h e).0 ≡ served m (services h) (calls_in e) (ops_in e)
  unfolding handle_event route_message
  handle_event-services h no_message = unserved m (services h)
  handle_event-services h (message topic data_of now id) =
      ap (λ x. services x.0)
        (if_kind (handled (count record_received h) data_of now id) (is_topic topic topic_discovery)
          (is_topic topic topic_capability) (is_topic topic topic_trust)
          (is_topic topic topic_disputes))
      ∙ handled-services (count record_received h) data_of now id (kind_of topic)

  -- After any events of the network, the trust service and the arbitrator behind the handler are
  -- those that went in, after the calls of the accepted messages, in the order of the events: on the
  -- topic of trust, a reputation event of an agent; on the topic of disputes, a new dispute, or
  -- evidence with a title of 1 to 256 and a description of 1 to 10240 bytes. Their agents must have
  -- identifiers that start with "did:", and their time may be at most 300 seconds ahead. All other
  -- messages, and those that do not parse, change neither, and a service that is absent stays so.
  pub handle_all-services :
      (h : MessageHandler F R) (events : List (NetworkEvent D))
      → services (handle_all parse embed m h events)
        ≡ served m (services h) (calls_of events) (ops_of events)
  unfolding handle_all
  handle_all-services h [] = unserved m (services h)
  handle_all-services h (e ∷ events) =
      handle_all-services (handle_event parse embed m h e).0 events
      ∙ ap (λ x. served m x (calls_of events) (ops_of events)) (handle_event-services h e)
      ∙ served-append m (services h) (calls_in e) (calls_of events) (ops_in e) (ops_of events)

  last_arbitrator :
      (h : MessageHandler F R) (events : List (NetworkEvent D)) (a b : AiArbitrator)
      → h.arbitrator ≡ some a
      → (handle_all parse embed m h events).arbitrator ≡ some b
      → b ≡ Ops.run a (ops_of events)
  last_arbitrator h events a b start last = same_arbitrator _ _ (
      sym last
      ∙ ap (λ x. x.1) (handle_all-services h events)
      ∙ ap (on_some (λ x. Ops.run x (ops_of events))) start)

  -- When the handler starts with an arbitrator without disputes, then after any events of the
  -- network every dispute of its arbitrator is valid for the limit of evidence of the first one.
  pub handle_all-IsValid :
      (h : MessageHandler F R) (events : List (NetworkEvent D)) (a b : AiArbitrator) (id : String)
      (d : AiDispute)
      → h.arbitrator ≡ some a
      → a.disputes ≡ []
      → (handle_all parse embed m h events).arbitrator ≡ some b
      → get id b.disputes ≡ some d
      → IsValid a.config.max_evidence_per_party d
  handle_all-IsValid h events a b id d start empty last e =
      let reached = last_arbitrator h events a b start last in
      disputes-IsValid a (ops_of events) id d empty (ap (λ x. get id x.disputes) (sym reached) ∙ e)

  -- When the handler starts with a trust service, then after any events of the network it still has
  -- one, and its record of an agent adds up what the accepted reputation events say of this agent:
  -- the successes and failures are those at the start and the reported ones, modulo 2^64, the last
  -- activity is the time at which the last of them was handled, or stays without any, and its
  -- endorsements and its stake stay. The counters at the start must fit in 64 bits.
  pub handle_all-entry :
      (h : MessageHandler F R) (events : List (NetworkEvent D)) (s : TrustService F) (did : Text)
      → h.trust_service ≡ some s
      → IsU64 (entry s did)
      → (t : TrustService F) × ((handle_all parse embed m h events).trust_service ≡ some t)
        × (entry t did ≡ totals m did (entry s did) (calls_of events))
  handle_all-entry h events s did start u = (
    Ledger.run m s (calls_of events),
    ap (λ x. x.0) (handle_all-services h events)
        ∙ ap (on_some (λ t. Ledger.run m t (calls_of events))) start,
    entry-run m s (calls_of events) did u,
  )
