-- ===== src/Messages/Handling.antt =====
-- The handling of one event (node/src/network/message_handler.rs, from `handle_event` down).
use agentme.Prelude.{
  ℕ, Bool, true, false, not, ◌&&◌, ◌||◌, Option, none, some, List, [], ◌∷◌, ltb, if◌then◌else◌,
  String, Result, ok, err, ◌>>=◌, ◌>>◌, guard, ite, string_key, Text,
}
use agentme.Float.{F64Math}
use agentme.Discovery.Card.{CapabilityCard}
use agentme.Discovery.{register, Outcome}
use agentme.Trust.{TrustService, TrustInfo, is_did, in_unit, record_success, record_failure}
use agentme.Trust.Score.{get_trust}
use agentme.Arbitration.Ai.{AiArbitrator}
use agentme.Search.Embedding.{SearchError}
use agentme.Messages.{
  DiscoveryMessage, card_announcement, discovery_request, TrustMessage, trust_update,
  reputation_event, DisputeMessage, MessageHandler, MessageHandlerStats, NetworkEvent, message,
  no_message, Error, parse_failed, invalid_did, future_timestamp, score_out_of_range,
  score_deviates, discovery_failed, trust_result, in_time, process_dispute, topic_discovery,
  topic_capability, topic_trust, topic_disputes, record_received, record_processed,
  record_parse_error, record_discovery, record_dispute, record_trust, record_unknown_topic,
}

-- `serde_json::from_slice`, at the types of the messages.
pub record Parsers (D F : Type 0) : Type 0 where
  pub discovery_message : D → Option (DiscoveryMessage F)
  pub capability_card : D → Option (CapabilityCard F)
  pub trust_message : D → Option (TrustMessage F)
  pub dispute_message : D → Option DisputeMessage

abbrev pub is_topic : String → String → Bool
is_topic t topic = ite (string_key.equal t topic) true false

-- What handling an event leaves, and its result.
abbrev pub Handled : Type 0 → Type 0 → Type 0
Handled F R = MessageHandler F R × Result Error (Unit {0})

module _ {F R : Type 0} where
  abbrev pub count :
      (MessageHandlerStats → MessageHandlerStats) → MessageHandler F R → MessageHandler F R
  count g h = record h { stats = g h.stats }

  -- `record_processed` after a success.
  abbrev pub processed : Handled F R → Handled F R
  processed (h, ok u) = (count record_processed h, ok u)
  processed (h, err e) = (h, err e)

  abbrev pub unparsed : MessageHandler F R → Handled F R
  unparsed h = (count record_parse_error h, err parse_failed)

  abbrev pub discovered : MessageHandler F R → Outcome F R (Unit {0}) → Handled F R
  discovered h (s, sent, ok u) = (record h { discovery_service = s }, ok tt)
  discovered h (s, sent, err e) = (record h { discovery_service = s }, err (discovery_failed e))

  abbrev pub trusted : MessageHandler F R → Result Error (Option (TrustService F)) → Handled F R
  trusted h (ok s) = (record h { trust_service = s }, ok tt)
  trusted h (err e) = (h, err e)

  abbrev pub disputed : MessageHandler F R → Result Error AiArbitrator → Handled F R
  disputed h (ok a) = (record h { arbitrator = some a }, ok tt)
  disputed h (err e) = (h, err e)

module _ {F R : Type 0} (embed : Text → Result SearchError (List R)) where
  unfoldable pub process_card_announcement : MessageHandler F R → CapabilityCard F → ℕ → Handled F R
  process_card_announcement h card now = discovered h (register embed h.discovery_service card now)

  unfoldable pub process_discovery_message :
      MessageHandler F R → DiscoveryMessage F → ℕ → Handled F R
  process_discovery_message h (card_announcement card) now = process_card_announcement h card now
  process_discovery_message h (discovery_request timestamp) now = (h, ok tt)

module _ {F : Type 0} (m : F64Math F) where
  -- A score too far from the one that is known of an agent with transactions.
  abbrev pub deviates : F → Result Error (TrustInfo F) → Bool
  deviates trust_score (err e) = false
  deviates trust_score (ok existing) =
      (ltb 0 existing.successful_transactions || ltb 0 existing.failed_transactions)
      && m.less (m.literal 20 100) (m.magnitude (m.difference trust_score existing.score))

  abbrev pub known : Option (TrustService F) → F → Text → ℕ → Bool
  known none trust_score did now = false
  known (some s) trust_score did now = deviates trust_score (trust_result (get_trust m s did now))

  abbrev pub recorded :
      Option (TrustService F) → Text → Bool → ℕ → Result Error (Option (TrustService F))
  recorded none did success now = ok none
  recorded (some s) did success now = do
    s' ← trust_result (if success then record_success s did now else record_failure s did now)
    ok (some s')

  -- The trust service after the message.
  unfoldable pub process_trust_message :
      Option (TrustService F) → TrustMessage F → ℕ → Result Error (Option (TrustService F))
  process_trust_message service (trust_update did trust_score timestamp) now = do
    guard (in_unit m trust_score) score_out_of_range
    guard (is_did did) invalid_did
    guard (in_time timestamp now) future_timestamp
    guard (not (known service trust_score did now)) score_deviates
    ok service
  process_trust_message service (reputation_event did success amount timestamp) now = do
    guard (is_did did) invalid_did
    guard (in_time timestamp now) future_timestamp
    recorded service did success now

module _ {D F R : Type 0} (parse : Parsers D F) (embed : Text → Result SearchError (List R))
    (m : F64Math F) where
  abbrev pub capability_or_error : MessageHandler F R → Option (CapabilityCard F) → ℕ → Handled F R
  capability_or_error h none now = unparsed h
  capability_or_error h (some card) now = processed (process_card_announcement embed h card now)

  abbrev pub discovery_or_card :
      MessageHandler F R → Option (DiscoveryMessage F) → D → ℕ → Handled F R
  discovery_or_card h (some msg) data_of now = processed (process_discovery_message embed h msg now)
  discovery_or_card h none data_of now = capability_or_error h (parse.capability_card data_of) now

  abbrev pub trust_or_error : MessageHandler F R → Option (TrustMessage F) → ℕ → Handled F R
  trust_or_error h none now = unparsed h
  trust_or_error h (some msg) now =
      processed (trusted h (process_trust_message m h.trust_service msg now))

  -- A message that does not parse is always counted here; the source counts it by `try_write`,
  -- which does nothing while another task holds the lock of the counters.
  abbrev pub dispute_or_error :
      MessageHandler F R → Option DisputeMessage → ℕ → String → Handled F R
  dispute_or_error h none now id = unparsed h
  dispute_or_error h (some msg) now id = disputed h (process_dispute h.arbitrator msg now id)

  unfoldable pub handle_discovery_message : MessageHandler F R → D → ℕ → Handled F R
  handle_discovery_message h data_of now =
      discovery_or_card (count record_discovery h) (parse.discovery_message data_of) data_of now

  unfoldable pub handle_capability_message : MessageHandler F R → D → ℕ → Handled F R
  handle_capability_message h data_of now =
      capability_or_error h (parse.capability_card data_of) now

  unfoldable pub handle_trust_message : MessageHandler F R → D → ℕ → Handled F R
  handle_trust_message h data_of now =
      trust_or_error (count record_trust h) (parse.trust_message data_of) now

  unfoldable pub handle_dispute_message : MessageHandler F R → D → ℕ → String → Handled F R
  handle_dispute_message h data_of now id =
      dispute_or_error (count record_dispute h) (parse.dispute_message data_of) now id

  unfoldable pub route_message : MessageHandler F R → String → D → ℕ → String → Handled F R
  route_message h topic data_of now id =
      if is_topic topic topic_discovery
      then handle_discovery_message h data_of now
      else if is_topic topic topic_capability
      then handle_capability_message h data_of now
      else if is_topic topic topic_trust
      then handle_trust_message h data_of now
      else if is_topic topic topic_disputes
      then handle_dispute_message h data_of now id
      else (count record_unknown_topic h, ok tt)

  unfoldable pub handle_event : MessageHandler F R → NetworkEvent D → Handled F R
  handle_event h (message topic data_of now id) =
      route_message (count record_received h) topic data_of now id
  handle_event h no_message = (h, ok tt)

  unfoldable pub handle_all : MessageHandler F R → List (NetworkEvent D) → MessageHandler F R
  handle_all h [] = h
  handle_all h (e ∷ events) = handle_all (handle_event h e).0 events
