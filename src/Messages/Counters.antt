-- ===== src/Messages/Counters.antt =====
-- The counters of `MessageHandlerStats` (node/src/network/message_handler.rs) after any events.
use agentme.Prelude.{
  ℕ, suc, ◌+◌, ◌^◌, ◌≤◌, ◌<◌, ◌≡◌, refl, sym, subst, Option, none, some, List, [], ◌∷◌, String,
  Result, ok, err, Text, arith,
}
use agentme.Float.{F64Math}
use agentme.Discovery.Card.{CapabilityCard}
use agentme.Discovery.{register, Outcome}
use agentme.Trust.{TrustService}
use agentme.Arbitration.Ai.{AiArbitrator}
use agentme.Search.Embedding.{SearchError}
use agentme.Messages.{
  add_one, DiscoveryMessage, card_announcement, discovery_request, TrustMessage, DisputeMessage,
  MessageHandler, MessageHandlerStats, NetworkEvent, message, no_message, Error, process_dispute,
  topic_discovery, topic_capability, topic_trust, topic_disputes, record_received, record_processed,
  record_parse_error, record_discovery, record_dispute, record_trust, record_unknown_topic,
}
use agentme.Messages.Handling.{
  Parsers, Handled, count, processed, discovered, trusted, disputed, process_card_announcement,
  process_discovery_message, process_trust_message, capability_or_error, discovery_or_card,
  trust_or_error, dispute_or_error, handle_discovery_message, handle_capability_message,
  handle_trust_message, handle_dispute_message, route_message, handle_event, handle_all, is_topic,
}
use agentme.Messages.Accepted.{Kind, discovery, capability, trust, disputes, unknown, kind_of}
use agentme.Messages.Histories.{handled}
use agentme.Messages.Services.{if_kind}

abbrev pub topics_counted : MessageHandlerStats → ℕ
topics_counted s =
    s.discovery_messages + s.trust_messages + s.dispute_messages + s.unknown_topic_messages

-- `n` messages were received, and `p` of the received messages are neither processed nor unparsed,
-- and `q` not counted by topic.
pub record HasRoom (n p q : ℕ) (s : MessageHandlerStats) : Type 0 where
  pub received_is : s.messages_received ≡ n
  pub bounded : s.messages_received < 2 ^ 64
  pub finished_le : s.messages_processed + s.parse_errors + p ≤ s.messages_received
  pub topics_le : topics_counted s + q ≤ s.messages_received

-- No counter has wrapped, and the messages that are processed or do not parse, and those that are
-- counted by their topic, are among the received ones.
abbrev pub IsConsistent : ℕ → MessageHandlerStats → Type 0
IsConsistent n s = HasRoom n 0 0 s

add_one_lem : (n : ℕ) → n + 1 < 2 ^ 64 → add_one n ≡ n + 1
add_one_lem n h = omega arith

received-room :
    {n : ℕ} {s : MessageHandlerStats}
    → s.messages_received + 1 < 2 ^ 64
    → IsConsistent n s
    → HasRoom (n + 1) 1 1 (record_received s)
unfolding record_received
received-room {s} h r = ground (arith, add_one_lem s.messages_received h, r)

room_unused : {n p q : ℕ} {s : MessageHandlerStats} → HasRoom n p q s → IsConsistent n s
room_unused r = ground (arith, r)

discovery-room :
    {n p : ℕ} {s : MessageHandlerStats} → HasRoom n p 1 s → HasRoom n p 0 (record_discovery s)
unfolding record_discovery
discovery-room {s = s} r = ground (arith, add_one_lem s.discovery_messages (ground (arith, r)), r)

trust-room : {n p : ℕ} {s : MessageHandlerStats} → HasRoom n p 1 s → HasRoom n p 0 (record_trust s)
unfolding record_trust
trust-room {s = s} r = ground (arith, add_one_lem s.trust_messages (ground (arith, r)), r)

dispute-room :
    {n p : ℕ} {s : MessageHandlerStats} → HasRoom n p 1 s → HasRoom n p 0 (record_dispute s)
unfolding record_dispute
dispute-room {s = s} r = ground (arith, add_one_lem s.dispute_messages (ground (arith, r)), r)

unknown_topic-room :
    {n p : ℕ} {s : MessageHandlerStats} → HasRoom n p 1 s → HasRoom n p 0 (record_unknown_topic s)
unfolding record_unknown_topic
unknown_topic-room {s = s} r =
    ground (arith, add_one_lem s.unknown_topic_messages (ground (arith, r)), r)

processed-room :
    {n q : ℕ} {s : MessageHandlerStats} → HasRoom n 1 q s → HasRoom n 0 q (record_processed s)
unfolding record_processed
processed-room {s = s} r = ground (arith, add_one_lem s.messages_processed (ground (arith, r)), r)

parse_error-room :
    {n q : ℕ} {s : MessageHandlerStats} → HasRoom n 1 q s → HasRoom n 0 q (record_parse_error s)
unfolding record_parse_error
parse_error-room {s = s} r = ground (arith, add_one_lem s.parse_errors (ground (arith, r)), r)

spared : {n q : ℕ} {s : MessageHandlerStats} → HasRoom n 1 q s → HasRoom n 0 q s
spared r = ground (arith, r)

module _ {F R : Type 0} where
  -- A step that leaves the counters alone and is counted when it succeeds.
  processed_step :
      (x : Handled F R) (s : MessageHandlerStats) {n q : ℕ}
      → x.0.stats ≡ s
      → HasRoom n 1 q s
      → HasRoom n 0 q (processed x).0.stats
  processed_step (h, ok u) s {n} {q} e r = processed-room (subst (HasRoom n 1 q) (sym e) r)
  processed_step (h, err f) s {n} {q} e r = spared (subst (HasRoom n 1 q) (sym e) r)

  stats-discovered :
      (h : MessageHandler F R) (o : Outcome F R (Unit {0})) → (discovered h o).0.stats ≡ h.stats
  stats-discovered h (s, sent, ok u) = refl
  stats-discovered h (s, sent, err e) = refl

  stats-trusted :
      (h : MessageHandler F R) (r : Result Error (Option (TrustService F)))
      → (trusted h r).0.stats ≡ h.stats
  stats-trusted h (ok s) = refl
  stats-trusted h (err e) = refl

  stats-disputed :
      (h : MessageHandler F R) (r : Result Error AiArbitrator) → (disputed h r).0.stats ≡ h.stats
  stats-disputed h (ok s) = refl
  stats-disputed h (err e) = refl

module _ {D F R : Type 0} (parse : Parsers D F) (embed : Text → Result SearchError (List R))
    (m : F64Math F) where
  card_step :
      (h : MessageHandler F R) (card : Option (CapabilityCard F)) (now : ℕ) {n q : ℕ}
      → HasRoom n 1 q h.stats
      → HasRoom n 0 q (capability_or_error parse embed m h card now).0.stats
  unfolding process_card_announcement
  card_step h none now r = parse_error-room r
  card_step h (some card) now r =
      processed_step (discovered h (register embed h.discovery_service card now)) h.stats
        (stats-discovered h (register embed h.discovery_service card now)) r

  discovery_step :
      (h : MessageHandler F R) (msg : Option (DiscoveryMessage F)) (data_of : D) (now : ℕ) {n q : ℕ}
      → HasRoom n 1 q h.stats
      → HasRoom n 0 q (discovery_or_card parse embed m h msg data_of now).0.stats
  unfolding process_discovery_message
  discovery_step h none data_of now r = card_step h (parse.capability_card data_of) now r
  discovery_step h (some (card_announcement card)) data_of now r = card_step h (some card) now r
  discovery_step h (some (discovery_request timestamp)) data_of now r = processed-room r

  trust_step :
      (h : MessageHandler F R) (msg : Option (TrustMessage F)) (now : ℕ) {n q : ℕ}
      → HasRoom n 1 q h.stats
      → HasRoom n 0 q (trust_or_error parse embed m h msg now).0.stats
  trust_step h none now r = parse_error-room r
  trust_step h (some msg) now r =
      processed_step (trusted h (process_trust_message m h.trust_service msg now)) h.stats
        (stats-trusted h (process_trust_message m h.trust_service msg now)) r

  dispute_step :
      (h : MessageHandler F R) (msg : Option DisputeMessage) (now : ℕ) (id : String) {n q : ℕ}
      → HasRoom n 1 q h.stats
      → HasRoom n 0 q (dispute_or_error parse embed m h msg now id).0.stats
  dispute_step h none now id r = parse_error-room r
  dispute_step h (some msg) now id {n} {q} r =
      subst (HasRoom n 0 q) (sym (stats-disputed h (process_dispute h.arbitrator msg now id)))
        (spared r)

  handled-IsConsistent :
      (h : MessageHandler F R) (data_of : D) (now : ℕ) (id : String) (k : Kind) {n : ℕ}
      → HasRoom n 1 1 h.stats
      → IsConsistent n (handled parse embed m h data_of now id k).0.stats
  unfolding handle_discovery_message handle_capability_message handle_trust_message
      handle_dispute_message
  handled-IsConsistent h data_of now id discovery r =
      discovery_step (count record_discovery h) (parse.discovery_message data_of) data_of now
        (discovery-room r)
  handled-IsConsistent h data_of now id capability r =
      room_unused (card_step h (parse.capability_card data_of) now r)
  handled-IsConsistent h data_of now id trust r =
      trust_step (count record_trust h) (parse.trust_message data_of) now (trust-room r)
  handled-IsConsistent h data_of now id disputes r =
      dispute_step (count record_dispute h) (parse.dispute_message data_of) now id (dispute-room r)
  handled-IsConsistent h data_of now id unknown r = spared (unknown_topic-room r)

  -- The number of messages among the events.
  abbrev pub messages_in : List (NetworkEvent D) → ℕ
  messages_in [] = 0
  messages_in (message topic data_of now id ∷ events) = suc (messages_in events)
  messages_in (no_message ∷ events) = messages_in events

  -- While the received messages stay below 2^64, any events of the network leave the counters
  -- consistent: the received messages are those at the start and those of the events, those that
  -- are processed or do not parse are no more than the received, and so are those counted by topic.
  pub handle_all-IsConsistent :
      (h : MessageHandler F R) (events : List (NetworkEvent D)) (n : ℕ)
      → IsConsistent n h.stats
      → n + messages_in events < 2 ^ 64
      → IsConsistent (n + messages_in events) (handle_all parse embed m h events).stats
  unfolding handle_all handle_event route_message
  handle_all-IsConsistent h [] n c room = subst (λ k. IsConsistent k h.stats) (omega arith) c
  handle_all-IsConsistent h (no_message ∷ events) n c room =
      handle_all-IsConsistent h events n c room
  handle_all-IsConsistent h (message topic data_of now id ∷ events) n c room =
      let counted =
        handled-IsConsistent (count record_received h) data_of now id (kind_of topic)
          (received-room (ground (arith, c)) c) in
      let same_handler =
        if_kind (handled parse embed m (count record_received h) data_of now id)
          (is_topic topic topic_discovery) (is_topic topic topic_capability)
          (is_topic topic topic_trust) (is_topic topic topic_disputes) in
      subst
        (λ k.
          IsConsistent k (handle_all parse embed m h (message topic data_of now id ∷ events)).stats)
        (omega arith)
        (handle_all-IsConsistent (handle_event parse embed m h (message topic data_of now id)).0
          events (n + 1) (subst (λ x. IsConsistent (n + 1) x.0.stats) (sym same_handler) counted)
          (omega arith))
