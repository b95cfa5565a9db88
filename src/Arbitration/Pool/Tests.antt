-- ===== src/Arbitration/Pool/Tests.antt =====
-- A pool of three jurors (node/src/arbitration.rs), with reputations in thousandths for `f64`.
use agentme.Prelude.{
  retain, ℕ, ◌<◌, ◌≡◌, refl, ◌⊎◌, true, some, List, [], ◌∷◌, arith, length, contains, Distinct, ok,
  err, String, string_key,
}
use agentme.Prelude.Tests.{String-discrete}
use agentme.Prelude.Map.{get, DistinctKeys}
use agentme.Thousandths.{thousandths}
use agentme.Arbitration.Tiers.{Ruling, favor_client}
use agentme.Arbitration.Session.{
  ruling_key, Ruling-discrete, pay, reward_share, pos, voted_in, determine_majority,
  calculate_coherence, completed, VotingSession, IterationOrder,
}
use agentme.Arbitration.Pool.Service.{finalize_session}
use agentme.Arbitration.Pool.Service.Release.{finalize_session_lem}
use agentme.Arbitration.Pool.{
  record_case, record_vote, serving, Juror, JurorPool, JurorPoolConfig, active, not_enough_eligible,
  zero_stake, new,
}
use agentme.Arbitration.Pool.Draw.{select_jurors, may_serve, eligible_jurors, total_weight}
use agentme.Arbitration.Pool.Selection.{Keyed, select_jurors_lem}
use agentme.Arbitration.Pool.Service.{create_session}
use agentme.Arbitration.Pool.Service.Opening.{Opened, create_session-Opened}
use agentme.Arbitration.Pool.Service.Histories
use agentme.Arbitration.Pool.Service.Histories.{
  Op, registers, opens, advances, finalizes, pool-IsValid,
}
use agentme.Arbitration.Pool.Service.Invariant

abbrev in_order : IterationOrder Ruling ℕ
in_order = record { entries = λ m. m; entries_keys = λ m d. d; entries_get = λ m r d. refl }

abbrev jurors_in_order : IterationOrder String (Juror ℕ)
jurors_in_order = record { entries = λ m. m; entries_keys = λ m d. d; entries_get = λ m r d. refl }

abbrev config : JurorPoolConfig
config = record {
  min_stake_usdc = 100;
  max_effective_stake_usdc = 10_000;
  initial_jurors = 2;
  stake_at_risk_bps = 1000;
  default_court_id = 0;
}

abbrev juror : String → Juror ℕ
juror did = record {
  did = did;
  stake_usdc = 500;
  status = active;
  courts = 0 ∷ [];
  reputation = 1000;
  cases_total = 0;
  cases_coherent = 0;
  registered_at = 1;
  last_active_at = 1;
}

abbrev pool : JurorPool ℕ
pool = record {
  config = config;
  jurors = ("ann", juror "ann") ∷ ("ben", juror "ben") ∷ ("cam", juror "cam") ∷ [];
  sessions = [];
  stats = record {
    jurors_registered = 3;
    jurors_active = 3;
    sessions_created = 0;
    votes_cast = 0;
    votes_coherent = 0;
  };
}

keys : DistinctKeys pool.jurors
unfolding String-discrete
keys = (refl, (refl, (refl, tt)))

keyed : Keyed pool.jurors
keyed did j h = ground arith

select_jurors_lem_example :
    ((length (eligible_jurors jurors_in_order pool 0) < 2)
      × (select_jurors jurors_in_order pool 0 2 77 ≡ err not_enough_eligible))
    ⊎ ((total_weight config (eligible_jurors jurors_in_order pool 0) ≡ 0)
        × (select_jurors jurors_in_order pool 0 2 77 ≡ err zero_stake))
    ⊎ ((selected : List String) × (select_jurors jurors_in_order pool 0 2 77 ≡ ok selected)
        × (length selected ≡ 2)
        × Distinct selected
        × ((did : String)
            → contains did selected ≡ true
            → (j : Juror ℕ) × (get did pool.jurors ≡ some j) × (may_serve 0 j ≡ true)))
select_jurors_lem_example = select_jurors_lem jurors_in_order pool 0 2 77 keys keyed

create_session-Opened_example :
    Opened jurors_in_order pool "k1" 0 9 (create_session jurors_in_order pool "k1" 0 77 9)
create_session-Opened_example = create_session-Opened jurors_in_order pool "k1" 0 77 9 keys keyed

abbrev history : List (Op ℕ)
history =
    registers "ann" 500 [] 1
    ∷ registers "ben" 700 [] 2
    ∷ registers "dot" 5 [] 3
    ∷ opens jurors_in_order "k1" 0 77 9
    ∷ advances in_order "k1"
    ∷ advances in_order "k1"
    ∷ advances in_order "k1"
    ∷ finalizes in_order "k1" 99
    ∷ []

pool-IsValid_example : Invariant.IsValid config (Histories.run (new config) history)
pool-IsValid_example = pool-IsValid config history

-- Of two jurors one revealed a vote.
abbrev decided : VotingSession
decided = record {
  dispute_id = "k1";
  jurors = "ann" ∷ "ben" ∷ [];
  votes =
      record {
        juror_did = "ann";
        choice = favor_client;
        justification = "";
        voted_at = 7;
        revealed = true;
        commitment = some "c";
      }
      ∷ [];
  state = completed;
  required_votes = 2;
  evidence_deadline = 10;
  commit_deadline = 20;
  reveal_deadline = 30;
  final_ruling = some favor_client;
  coherence_results = [];
}

abbrev serving_pool : JurorPool ℕ
serving_pool = record pool {
  jurors =
      ("ann", record (juror "ann") { status = serving })
      ∷ ("ben", record (juror "ben") { status = serving })
      ∷ [];
  sessions = ("k1", decided) ∷ [];
}

abbrev settled_pool : JurorPool ℕ
settled_pool = record serving_pool {
  jurors =
      ("ann", record (juror "ann") { cases_total = 1; cases_coherent = 1; last_active_at = 99 })
      ∷ ("ben", record (juror "ben") { status = serving })
      ∷ [];
  sessions = ("k1", record decided { coherence_results = ("ann", pos 0) ∷ [] }) ∷ [];
  stats = record (pool.stats) { votes_cast = 1; votes_coherent = 1 };
}

open_session : get "k1" serving_pool.sessions ≡ some decided
unfolding String-discrete
open_session = refl

settles : finalize_session in_order serving_pool "k1" 99 ≡ ok (settled_pool, ("ann", pos 0) ∷ [])
unfolding finalize_session String-discrete Ruling-discrete record_case calculate_coherence
    record_vote determine_majority pay reward_share
settles = refl

finalize_session_lem_example :
    (settled_pool.stats.jurors_active ≡ serving_pool.stats.jurors_active)
    × ((did : String) (j : Juror ℕ)
        → get did serving_pool.jurors ≡ some j
        → voted_in did (retain (λ v. v.revealed) decided.votes) ≡ true
        → (k : Juror ℕ) × (get did settled_pool.jurors ≡ some k) × (k.status ≡ active))
finalize_session_lem_example =
    finalize_session_lem in_order serving_pool settled_pool "k1" 99 (("ann", pos 0) ∷ []) decided
      open_session settles
