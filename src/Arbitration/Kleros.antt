-- ===== src/Arbitration/Kleros.antt =====
-- `KlerosClient` (node/src/arbitration.rs). The code does not call the contract yet: its answers
-- are placeholders, and so are they here. An address is a number, 0 for the zero address;
-- `parse_address` stands for `str::parse::<Address>` of the alloy crate. A text is its bytes.
use agentme.Prelude.{
  ℕ, ◌+◌, ◌%◌, ◌^◌, Bool, true, false, not, Option, none, some, List, [], ◌∷◌, ◌==◌, if◌then◌else◌,
  Result, ok, err, guard, ◌>>◌, String,
}

pub data KlerosError : Type 0 where
  invalid_address not_configured zero_choices empty_evidence_uri : KlerosError

pub record KlerosConfig : Type 0 where
  pub rpc_url : String
  pub arbitrator_address : String
  pub court_id : ℕ
  pub initial_jurors : ℕ

pub record KlerosStats : Type 0 where
  pub disputes_created : ℕ
  pub appeals_filed : ℕ
  pub rulings_received : ℕ
  pub rpc_errors : ℕ

abbrev pub no_stats : KlerosStats
no_stats = record { disputes_created = 0; appeals_filed = 0; rulings_received = 0; rpc_errors = 0 }

pub record KlerosClient : Type 0 where
  pub config : KlerosConfig
  pub arbitrator_address : ℕ
  pub stats : KlerosStats

-- `fetch_add(1)` on a 64-bit counter.
abbrev pub bump : ℕ → ℕ
bump n = (n + 1) % 2 ^ 64

unfoldable pub new : (String → Option ℕ) → KlerosConfig → Result KlerosError KlerosClient
new parse_address config = elim (parse_address config.arbitrator_address) [
  | none ↦ err invalid_address
  | some a ↦ ok (record { config = config; arbitrator_address = a; stats = no_stats })
]

unfoldable pub is_configured : KlerosClient → Bool
is_configured c = not (c.arbitrator_address == 0)

unfoldable pub get_arbitration_cost : KlerosClient → ℕ → Result KlerosError ℕ
unfolding is_configured
get_arbitration_cost c choices =
    if is_configured c then ok 10_000_000_000_000_000 else err not_configured

-- The sum of the bytes, and of the time, in 64 bits.
unfoldable pub byte_sum : ℕ → List ℕ → ℕ
byte_sum acc [] = acc
byte_sum acc (b ∷ bytes) = byte_sum ((acc + b) % 2 ^ 64) bytes

abbrev pub is_empty : List ℕ → Bool
is_empty [] = true
is_empty (b ∷ bytes) = false

unfoldable pub create_dispute :
    KlerosClient → List ℕ → ℕ → ℕ → ℕ → Result KlerosError (KlerosClient × ℕ)
unfolding is_configured byte_sum
create_dispute c evidence_uri choices arbitration_cost now = do
  guard (is_configured c) not_configured
  guard (not (choices == 0)) zero_choices
  guard (not (is_empty evidence_uri)) empty_evidence_uri
  ok (
    record c { stats = record (c.stats) { disputes_created = bump c.stats.disputes_created } },
    (now + byte_sum 0 evidence_uri) % 2 ^ 64,
  )
