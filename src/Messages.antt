-- ===== src/Messages.antt =====
-- `MessageHandler` (node/src/network/message_handler.rs): the gossip messages, routed by topic to
-- the discovery service, the trust service and the arbitrator. The parsing of JSON is a parameter,
-- and an event carries the time of its handling and the UUID of what it creates. The commands that
-- the discovery service sends are left out; the sender of a message is only logged.
pub mod Handling
pub mod Effects
pub mod Accepted
pub mod Services
pub mod Histories
pub mod Counters
mod Tests
use agentme.Prelude.{
  ℕ, ◌+◌, ◌%◌, ◌^◌, Bool, true, false, not, ◌&&◌, ◌||◌, Option, none, some, List, [], ◌∷◌, ltb, leb,
  ◌==◌, if◌then◌else◌, String, Result, ok, err, ◌>>=◌, ◌>>◌, guard, ok_or, Text, codes, starts_with,
  ite, string_key,
}
use agentme.Float.{F64, F64Math}
use agentme.Discovery.Card.{CapabilityCard}
use agentme.Discovery as Discovery
use agentme.Discovery.{DiscoveryService, DiscoveryError, Outcome}
use agentme.Trust.{
  TrustService, TrustError, TrustInfo, is_did, in_unit, record_success, record_failure,
}
use agentme.Trust.Score.{get_trust}
use agentme.Arbitration.Evidence.{Evidence, text}
use agentme.Arbitration.Ai as Ai
use agentme.Arbitration.Ai.{AiArbitrator, create_dispute, submit_evidence, get_dispute}
use agentme.Search.Embedding.{SearchError}

abbrev pub max_evidence_title_len : ℕ
max_evidence_title_len = 256

abbrev pub max_evidence_desc_len : ℕ
max_evidence_desc_len = 10240

abbrev pub grace_period : ℕ
grace_period = 300

pub data DiscoveryMessage (F : Type 0) : Type 0 where
  card_announcement : CapabilityCard F → DiscoveryMessage F
  discovery_request : ℕ → DiscoveryMessage F

-- did, trust_score and timestamp; did, success, amount and timestamp.
pub data TrustMessage (F : Type 0) : Type 0 where
  trust_update : Text → F → ℕ → TrustMessage F
  reputation_event : Text → Bool → ℕ → ℕ → TrustMessage F

-- escrow_id, client_did, provider_did, amount_usdc and timestamp; dispute_id, submitter_did, title,
-- description and timestamp; dispute_id and timestamp.
pub data DisputeMessage : Type 0 where
  create : String → String → String → ℕ → ℕ → DisputeMessage
  submit : String → String → String → String → ℕ → DisputeMessage
  status : String → ℕ → DisputeMessage

pub record MessageHandlerStats : Type 0 where
  pub messages_received : ℕ
  pub messages_processed : ℕ
  pub parse_errors : ℕ
  pub discovery_messages : ℕ
  pub trust_messages : ℕ
  pub dispute_messages : ℕ
  pub unknown_topic_messages : ℕ

-- `+= 1` on a `u64`.
abbrev pub add_one : ℕ → ℕ
add_one n = (n + 1) % 2 ^ 64

unfoldable pub record_received : MessageHandlerStats → MessageHandlerStats
record_received s = record s { messages_received = add_one s.messages_received }

unfoldable pub record_processed : MessageHandlerStats → MessageHandlerStats
record_processed s = record s { messages_processed = add_one s.messages_processed }

unfoldable pub record_parse_error : MessageHandlerStats → MessageHandlerStats
record_parse_error s = record s { parse_errors = add_one s.parse_errors }

unfoldable pub record_discovery : MessageHandlerStats → MessageHandlerStats
record_discovery s = record s { discovery_messages = add_one s.discovery_messages }

unfoldable pub record_dispute : MessageHandlerStats → MessageHandlerStats
record_dispute s = record s { dispute_messages = add_one s.dispute_messages }

unfoldable pub record_trust : MessageHandlerStats → MessageHandlerStats
record_trust s = record s { trust_messages = add_one s.trust_messages }

unfoldable pub record_unknown_topic : MessageHandlerStats → MessageHandlerStats
record_unknown_topic s = record s { unknown_topic_messages = add_one s.unknown_topic_messages }

pub data Error : Type 0 where
  parse_failed invalid_did future_timestamp score_out_of_range score_deviates : Error
  empty_title long_title empty_description long_description no_arbitrator : Error
  discovery_failed : DiscoveryError → Error
  trust_failed : TrustError → Error
  arbitration_failed : Ai.Error → Error

pub record MessageHandler (F R : Type 0) : Type 0 where
  pub discovery_service : DiscoveryService F R
  pub trust_service : Option (TrustService F)
  pub arbitrator : Option AiArbitrator
  pub stats : MessageHandlerStats

abbrev pub no_stats : MessageHandlerStats
no_stats = record {
  messages_received = 0;
  messages_processed = 0;
  parse_errors = 0;
  discovery_messages = 0;
  trust_messages = 0;
  dispute_messages = 0;
  unknown_topic_messages = 0;
}

unfoldable pub with_services :
    {F R : Type 0}
    → DiscoveryService F R
    → Option (TrustService F)
    → Option AiArbitrator
    → MessageHandler F R
with_services discovery trust arbitrator = record {
  discovery_service = discovery;
  trust_service = trust;
  arbitrator = arbitrator;
  stats = no_stats;
}

-- The topics of node/src/network/behaviour.rs.
abbrev pub topic_discovery : String
topic_discovery = "/agoramesh/discovery/1.0.0"

abbrev pub topic_capability : String
topic_capability = "/agoramesh/capability/1.0.0"

abbrev pub topic_trust : String
topic_trust = "/agoramesh/trust/1.0.0"

abbrev pub topic_disputes : String
topic_disputes = "/agoramesh/disputes/1.0.0"

-- An event of the network: a message with its topic and data, the time and a new UUID, or another.
pub data NetworkEvent (D : Type 0) : Type 0 where
  message : String → D → ℕ → String → NetworkEvent D
  no_message : NetworkEvent D

-- The bytes of a code point in UTF-8, and of a text: `str::len`.
abbrev pub utf8_bytes : ℕ → ℕ
utf8_bytes c = if ltb c 128 then 1 else if ltb c 2048 then 2 else if ltb c 65536 then 3 else 4

abbrev pub byte_length : Text → ℕ
byte_length [] = 0
byte_length (c ∷ s) = utf8_bytes c + byte_length s

abbrev pub names_did : String → Bool
names_did s = is_did (codes s)

abbrev pub in_time : ℕ → ℕ → Bool
in_time timestamp now = leb timestamp (now + grace_period)

-- The tests of `process_submit_evidence` on the texts.
abbrev pub check_evidence : String → String → Result Error (Unit {0})
check_evidence title description = do
  guard (not (byte_length (codes title) == 0)) empty_title
  guard (leb (byte_length (codes title)) max_evidence_title_len) long_title
  guard (not (byte_length (codes description) == 0)) empty_description
  guard (leb (byte_length (codes description)) max_evidence_desc_len) long_description

-- `Evidence::new` with the type `Text`.
abbrev pub text_evidence : String → String → String → String → ℕ → Evidence
text_evidence id submitter title description now = record {
  id = id;
  submitter_did = submitter;
  evidence_type = text;
  title = title;
  description = description;
  data_uri = none;
  submitted_at = now;
}

abbrev pub arbitration {ℓ} : {A : Type ℓ} → Result Ai.Error A → Result Error A
arbitration (ok x) = ok x
arbitration (err e) = err (arbitration_failed e)

-- The arbitrator after the creation, the submission or the query.
unfoldable pub process_create_dispute :
    Option AiArbitrator → String → String → String → ℕ → ℕ → ℕ → String → Result Error AiArbitrator
process_create_dispute arbitrator escrow_id client_did provider_did amount_usdc timestamp now id =
    do
      guard (names_did client_did) invalid_did
      guard (names_did provider_did) invalid_did
      guard (in_time timestamp now) future_timestamp
      a ← ok_or arbitrator no_arbitrator
      (a', dispute_id) ←
          arbitration (create_dispute a id escrow_id client_did provider_did amount_usdc now)
      ok a'

unfoldable pub process_submit_evidence :
    Option AiArbitrator
    → String
    → String
    → String
    → String
    → ℕ
    → ℕ
    → String
    → Result Error AiArbitrator
process_submit_evidence arbitrator dispute_id submitter_did title description timestamp now id = do
  guard (names_did submitter_did) invalid_did
  guard (in_time timestamp now) future_timestamp
  check_evidence title description
  a ← ok_or arbitrator no_arbitrator
  arbitration
      (submit_evidence a dispute_id (text_evidence id submitter_did title description now) now)

unfoldable pub process_dispute_status :
    Option AiArbitrator → String → ℕ → ℕ → Result Error AiArbitrator
process_dispute_status arbitrator dispute_id timestamp now = do
  guard (in_time timestamp now) future_timestamp
  a ← ok_or arbitrator no_arbitrator
  d ← arbitration (get_dispute a dispute_id)
  ok a

abbrev pub process_dispute :
    Option AiArbitrator → DisputeMessage → ℕ → String → Result Error AiArbitrator
process_dispute arbitrator (create escrow client provider amount timestamp) now id =
    process_create_dispute arbitrator escrow client provider amount timestamp now id
process_dispute arbitrator (submit dispute submitter title description timestamp) now id =
    process_submit_evidence arbitrator dispute submitter title description timestamp now id
process_dispute arbitrator (status dispute timestamp) now id =
    process_dispute_status arbitrator dispute timestamp now

abbrev pub trust_result {ℓ} : {A : Type ℓ} → Result TrustError A → Result Error A
trust_result (ok x) = ok x
trust_result (err e) = err (trust_failed e)
