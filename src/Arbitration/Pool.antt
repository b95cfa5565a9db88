-- ===== src/Arbitration/Pool.antt =====
-- `Juror` and `JurorPool` (node/src/arbitration.rs): who votes in the third tier. The locks are not
-- poisoned. Where a method returns an error it has changed nothing, except `create_session`, which
-- gives the pool beside its result. `F` is the type of `f64` values; sums of stakes wrap at 64 bits.
pub mod Draw
pub mod Selection
pub mod Service
mod Tests
use agentme.Prelude.{
  ℕ, zero, suc, ◌+◌, ◌*◌, ◌-◌, ◌%◌, ◌^◌, min, Bool, true, false, not, ◌&&◌, Option, none, some,
  List, [], ◌∷◌, ◌++◌, map, ltb, leb, ◌==◌, if◌then◌else◌, length, take, count, retain, contains,
  String, string_key, nat_key, Key, Result, ok, err, ◌>>=◌, ◌>>◌, guard, ok_or, ite,
}
use agentme.Prelude.Map.{Map, get, insert}
use agentme.Float.{F64}
use agentme.Arbitration.Tiers.{Ruling}
use agentme.Arbitration.Session
use agentme.Arbitration.Session.{
  ℤ, ruling_key, coherent, JurorVote, VotingState, VotingSession, IterationOrder, is_completed,
  calculate_coherence,
}

abbrev pub u64_mod : ℕ
u64_mod = 2 ^ 64

pub data JurorStatus : Type 0 where
  active serving inactive slashed : JurorStatus

unfoldable pub is_selectable : JurorStatus → Bool
is_selectable active = true
is_selectable _ = false

pub record Juror (F : Type 0) : Type 0 where
  pub did : String
  pub stake_usdc : ℕ
  pub status : JurorStatus
  pub courts : List ℕ
  pub reputation : F
  pub cases_total : ℕ
  pub cases_coherent : ℕ
  pub registered_at : ℕ
  pub last_active_at : ℕ

pub record JurorPoolConfig : Type 0 where
  pub min_stake_usdc : ℕ
  pub max_effective_stake_usdc : ℕ
  pub initial_jurors : ℕ
  pub stake_at_risk_bps : ℕ
  pub default_court_id : ℕ

pub record JurorPoolStats : Type 0 where
  pub jurors_registered : ℕ
  pub jurors_active : ℕ
  pub sessions_created : ℕ
  pub votes_cast : ℕ
  pub votes_coherent : ℕ

pub record JurorPool (F : Type 0) : Type 0 where
  pub config : JurorPoolConfig
  pub jurors : Map String (Juror F)
  pub sessions : Map String VotingSession
  pub stats : JurorPoolStats

pub data Error : Type 0 where
  stake_too_low already_registered juror_not_found not_enough_eligible zero_stake
        session_not_found :
      Error
  not_completed : VotingState → Error
  in_session : Session.Error → Error

-- `fetch_add(1)` and `fetch_sub(1)`.
abbrev pub bump : ℕ → ℕ
bump n = (n + 1) % u64_mod

abbrev pub drop : ℕ → ℕ
drop n = (n + (u64_mod - 1)) % u64_mod

unfoldable pub record_registration : JurorPoolStats → JurorPoolStats
record_registration s = record s {
  jurors_registered = bump s.jurors_registered;
  jurors_active = bump s.jurors_active;
}

unfoldable pub record_vote : JurorPoolStats → Bool → JurorPoolStats
record_vote s was_coherent = record s {
  votes_cast = bump s.votes_cast;
  votes_coherent = if was_coherent then bump s.votes_coherent else s.votes_coherent;
}

abbrev pub is_empty : List ℕ → Bool
is_empty [] = true
is_empty (c ∷ cs) = false

-- What a change of status does to the number of active jurors.
abbrev pub recount : Bool → Bool → JurorPoolStats → JurorPoolStats
recount true false s = record s { jurors_active = drop s.jurors_active }
recount false true s = record s { jurors_active = bump s.jurors_active }
recount _ _ s = s

module _ {F : Type 0} where
  unfoldable pub new : JurorPoolConfig → JurorPool F
  new config = record {
    config = config;
    jurors = [];
    sessions = [];
    stats = record {
      jurors_registered = 0;
      jurors_active = 0;
      sessions_created = 0;
      votes_cast = 0;
      votes_coherent = 0;
    };
  }

  unfoldable pub is_eligible_for_court : Juror F → ℕ → Bool
  is_eligible_for_court j court_id = contains court_id j.courts

  abbrev pub has : Option (Juror F) → Bool
  has none = false
  has (some j) = true

  unfoldable pub get_juror : JurorPool F → String → Result Error (Juror F)
  get_juror p did = ok_or (get did p.jurors) juror_not_found

  unfoldable pub update_stake : JurorPool F → String → ℕ → Result Error (JurorPool F)
  update_stake p did new_stake = do
    guard (leb p.config.min_stake_usdc new_stake) stake_too_low
    j ← ok_or (get did p.jurors) juror_not_found
    ok (record p { jurors = insert did (record j { stake_usdc = new_stake }) p.jurors })

  unfoldable pub set_juror_status : JurorPool F → String → JurorStatus → Result Error (JurorPool F)
  unfolding is_selectable
  set_juror_status p did status = do
    j ← ok_or (get did p.jurors) juror_not_found
    ok (record p {
      jurors = insert did (record j { status = status }) p.jurors;
      stats = recount (is_selectable j.status) (is_selectable status) p.stats;
    })

  unfoldable pub selectable_count : JurorPool F → ℕ
  selectable_count p = count (λ e. is_selectable e.1.status) p.jurors

  unfoldable pub get_session : JurorPool F → String → Result Error VotingSession
  get_session p dispute_id = ok_or (get dispute_id p.sessions) session_not_found

module _ {F : Type 0} ⦃fl : F64 F⦄ where
  unfoldable pub new_juror : String → ℕ → List ℕ → ℕ → Juror F
  new_juror did stake_usdc courts now = record {
    did = did;
    stake_usdc = stake_usdc;
    status = active;
    courts = courts;
    reputation = fl.one;
    cases_total = 0;
    cases_coherent = 0;
    registered_at = now;
    last_active_at = now;
  }

  unfoldable pub effective_stake : Juror F → ℕ
  effective_stake j = fl.to_u64 (fl.product (fl.from_u64 j.stake_usdc) j.reputation)

  unfoldable pub coherence_ratio : Juror F → F
  coherence_ratio j =
      if j.cases_total == 0
      then fl.one
      else fl.quotient (fl.from_u64 j.cases_coherent) (fl.from_u64 j.cases_total)

  unfoldable pub update_reputation : Juror F → Juror F
  unfolding coherence_ratio
  update_reputation j = record j {
    reputation =
        fl.clamp (fl.sum (fl.product fl.nine_tenths (coherence_ratio j)) fl.tenth) fl.tenth fl.one;
  }

  unfoldable pub record_case : Juror F → Bool → ℕ → Juror F
  unfolding update_reputation
  record_case j was_coherent now =
      record (update_reputation (record j {
        cases_total = bump j.cases_total;
        cases_coherent = if was_coherent then bump j.cases_coherent else j.cases_coherent;
      })) { last_active_at = now }

  unfoldable pub register_juror : JurorPool F → String → ℕ → List ℕ → ℕ → Result Error (JurorPool F)
  unfolding new_juror record_registration
  register_juror p did stake_usdc courts now =
      let courts = if is_empty courts then p.config.default_court_id ∷ [] else courts in
      do
        guard (leb p.config.min_stake_usdc stake_usdc) stake_too_low
        guard (not (has (get did p.jurors))) already_registered
        ok (record p {
          jurors = insert did (new_juror did stake_usdc courts now) p.jurors;
          stats = record_registration p.stats;
        })
