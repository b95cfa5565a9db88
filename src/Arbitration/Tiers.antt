-- ===== src/Arbitration/Tiers.antt =====
-- The tiers of a dispute and the codes of the arbitrator contract (node/src/arbitration.rs). An
-- amount is USDC with 6 decimals.
use agentme.Prelude.{ℕ, ◌/◌, max, Bool, ltb, leb, ◌==◌, if◌then◌else◌, Result, ok, err}

abbrev pub tier_1_max_usdc : ℕ
tier_1_max_usdc = 10_000_000

abbrev pub tier_2_max_usdc : ℕ
tier_2_max_usdc = 1_000_000_000

pub data DisputeTier : Type 0 where
  automatic ai_assisted community : DisputeTier

unfoldable pub determine_tier : ℕ → DisputeTier
determine_tier amount_usdc =
    if ltb amount_usdc tier_1_max_usdc
    then automatic
    else if ltb amount_usdc tier_2_max_usdc
    then ai_assisted
    else community

unfoldable pub number : DisputeTier → ℕ
number automatic = 1
number ai_assisted = 2
number community = 3

pub data DisputeStatus : Type 0 where
  waiting appealable solved : DisputeStatus

pub data Ruling : Type 0 where
  undecided favor_client favor_provider split : Ruling

-- `Error::Contract` with its message.
pub data CodeError : Type 0 where
  invalid_status invalid_ruling : ℕ → CodeError

unfoldable pub status_try_from : ℕ → Result CodeError DisputeStatus
status_try_from value =
    if value == 0
    then ok waiting
    else if value == 1
    then ok appealable
    else if value == 2
    then ok solved
    else err (invalid_status value)

unfoldable pub ruling_try_from : ℕ → Result CodeError Ruling
ruling_try_from value =
    if value == 0
    then ok undecided
    else if value == 1
    then ok favor_client
    else if value == 2
    then ok favor_provider
    else if value == 3
    then ok split
    else err (invalid_ruling value)

-- The discriminants that the enums declare.
unfoldable pub status_code : DisputeStatus → ℕ
status_code waiting = 0
status_code appealable = 1
status_code solved = 2

unfoldable pub ruling_code : Ruling → ℕ
ruling_code undecided = 0
ruling_code favor_client = 1
ruling_code favor_provider = 2
ruling_code split = 3

-- `is_tier_3_eligible` and `calculate_min_stake` of the Kleros client, on 256-bit amounts.
unfoldable pub is_tier_3_eligible : ℕ → Bool
is_tier_3_eligible amount = leb 1_000_000_000 amount

unfoldable pub calculate_min_stake : ℕ → ℕ
calculate_min_stake disputed_amount =
    let tier_3_min : ℕ = 1_000_000_000 in
    let min_stake : ℕ = 100_000_000 in max (max (disputed_amount / 10) min_stake) (tier_3_min / 10)
