-- ===== src/Lib.antt =====
-- AgoraMesh node: network guards, messages, discovery, trust, identities, disputes and plugins.
--
-- The node (node/src) connects agents over libp2p. This library models the parts of it that
-- decide: who may connect (node/src/network/security.rs), what a gossip message does
-- (node/src/network/message_handler.rs), which agent is found (node/src/discovery.rs and
-- node/src/search), how far an agent is trusted (node/src/trust.rs), what a valid identity
-- document is (node/src/did.rs), how many requests a client may send (node/src/rate_limit.rs),
-- when a failing service is called (node/src/circuit_breaker.rs), how a dispute over a payment is
-- ruled on in three tiers (node/src/arbitration.rs), and which plugin serves a request
-- (node/src/plugin/registry.rs).
--
-- How they interact. The message handler (Messages) calls the discovery service, the trust service
-- and the arbitrator of the second tier; its model calls theirs. The discovery service keeps its
-- cache and the index of the hybrid search together (Discovery over Search.Hybrid, which embeds
-- texts by Search.Embedding). In the arbitration, an appeal of a ruling of the second tier opens a
-- Kleros case. The guards of the network, the rate limit, the circuit breaker, the documents and
-- the plugins stand on their own.
--
-- Prelude      Booleans, results, lists, association lists, sorting and texts; a Rust `HashMap` is an
--              association list whose keys are distinct, a text a list of code points.
-- Float        `f64` as a parameter; Thousandths is one instance, for runs.
-- Security     node/src/network/security.rs. Ip: addresses and prefixes. Tracker, Subnet24 and
--              Subnet16: SubnetTracker and Subnet16Tracker, whose methods are written once over the
--              prefix; Tracker/Bag is the specification, Tracker/Refinement and Sybil the proofs.
--              Backoff: ConnectionRateLimiter. Window: GlobalConnectionRateLimiter. Capacity:
--              ConnectionTracker. Bootstrap: validate_bootstrap_peers and validate_network_config.
-- Circuit      node/src/circuit_breaker.rs. CircuitBreaker with one function per method; Calls:
--              call_sync, and call, which differs by its await alone; Resilient:
--              ResilientCircuitBreaker. Invariant, Moves and Recovery hold the proofs.
-- Arbitration  node/src/arbitration.rs. Tiers: determine_tier and the codes. Kleros: KlerosClient.
--              Evidence: score_evidence and analyze_dispute. Ai: AIArbitrator, with its methods as
--              events in Ai/Ops; in Ai/Interleaved the blocks of a method that takes the lock
--              more than once are steps of their own. Session: VotingSession and JurorVote. Pool:
--              Juror and JurorPool, its draw in Pool/Draw and Pool/Selection, its sessions in
--              Pool/Service.
-- Plugins      node/src/plugin/registry.rs. PluginRegistry; Index is one of its indices, Histories its
--              methods as events.
-- Did          node/src/did.rs. DIDDocumentBuilder, DIDDocument with parse_did and validate, and
--              DIDResolutionResult (Resolution); Date: unix_to_rfc3339, against the Gregorian
--              calendar in Date/Civil.
-- Discovery    node/src/discovery.rs. Card: the capability cards. Cache: DiscoveryCacheState, with
--              its specification as a list by recency in Cache/Recency. The service itself: register,
--              get (get_card), search and the rest; Index and Histories hold its invariant.
-- Search       node/src/search/hybrid.rs and embedding.rs. Hybrid: HybridSearch; Embedding:
--              EmbeddingService; Vectors: `f32` as a parameter.
-- Trust        node/src/trust.rs. TrustService, its calls as events in Ledger, and their totals in
--              Ledger/Totals; Score: get_trust and the parts of a score. Cache: TrustCache of
--              node/src/trust_cache.rs.
-- RateLimit    node/src/rate_limit.rs. RateLimitService and the middleware, with its histories in
--              Admission and the address of a client in Clients.
-- Messages     node/src/network/message_handler.rs. The messages, the counters and the handlers of
--              disputes; Handling: the rest, down from handle_event. Accepted says which messages
--              count; Effects, Services, Histories and Counters hold the proofs.
--
-- Conventions. A method that takes a lock is one step: a function from the state and the arguments
-- to the new state and the result; histories are lists of such steps in any order. Locks are not
-- poisoned. The clock is an argument: nanoseconds for `Instant` and `Duration`, seconds for Unix
-- times, and a difference of times stops at 0 as `elapsed` and `saturating_sub` do. Numbers are
-- natural; `u64` counters and sums wrap at 2 ^ 64, the `i64` amounts of a vote at 2 ^ 63, and
-- saturating operations stop at their bound.
-- An error is a constructor for the place that returns it, without its message. The order in which
-- a hash map hands out its entries is an argument (IterationOrder), any permutation by key. What
-- is not defined here is a parameter, and the theorems hold for whatever stands for it: parse_ip
-- and parse_address for the parsing of addresses, F64, F64Math and F32 for floats, embed for the
-- embedding model, LruCache and MokaCache, each with its laws, for the caches of two crates,
-- Governor for the limiter of a crate, Parsers for JSON, the answer of the DHT, the clock and the
-- UUIDs. Loops run over a list or a count and need no fuel; the one exception is the printing of a
-- number in decimal (Prelude.Texts.decimal), with one more than the number as fuel, which is
-- enough since every step divides by ten (numbers-decimal_from in Did/Date/Printed).
--
-- Not modelled: persistence, chains, events of contracts, configuration and the HTTP interface of
-- the node, which are other components; plugin actions, providers and services; the reading of
-- scores from the registry contract; the smart contracts and the TypeScript programs; logging,
-- serialization and the texts of messages; the order of jurors by stake (get_top_jurors).
pub mod Prelude
pub mod Security
pub mod Float
pub mod Thousandths
pub mod Circuit
pub mod Arbitration
pub mod Plugins
pub mod Did
pub mod Discovery
pub mod Search
pub mod Trust
pub mod Messages
pub mod RateLimit
