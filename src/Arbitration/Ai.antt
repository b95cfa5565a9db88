-- ===== src/Arbitration/Ai.antt =====
-- `AIArbitrator` (node/src/arbitration.rs): the second tier. The locks are not poisoned; a method
-- returns the arbitrator after it, and where it returns an error it has changed nothing. The clock
-- is the argument `now`, and the UUID of a new dispute is the argument `id`.
pub mod Ops
pub mod Invariant
pub mod Lifecycle
pub mod Interleaved
use agentme.Prelude.{
  ℕ, ◌+◌, ◌-◌, ◌*◌, ◌%◌, ◌^◌, Bool, true, false, not, ◌&&◌, ◌||◌, Option, none, some, List, [], ◌∷◌,
  ◌++◌, map, ltb, leb, ◌==◌, if◌then◌else◌, length, String, Result, ok, err, ◌>>=◌, ◌>>◌, guard,
  ok_or, retain, ite, string_key, Text, codes,
}
use agentme.Prelude.Map.{Map, get, insert}
use agentme.Arbitration.Tiers.{
  Ruling, undecided, favor_client, favor_provider, split, tier_1_max_usdc, tier_2_max_usdc,
}
use agentme.Arbitration.Evidence.{Evidence, AiRuling, can_appeal, analyze_evidence}
use agentme.Arbitration.Kleros
use agentme.Arbitration.Kleros.{KlerosClient, KlerosError, bump}

pub data AiDisputeState : Type 0 where
  awaiting_evidence analyzing ruled appealed resolved : AiDisputeState

pub record AiDispute : Type 0 where
  pub id : String
  pub escrow_id : String
  pub client_did : String
  pub provider_did : String
  pub amount_usdc : ℕ
  pub state : AiDisputeState
  pub client_evidence : List Evidence
  pub provider_evidence : List Evidence
  pub ruling : Option AiRuling
  pub kleros_dispute_id : Option ℕ
  pub created_at : ℕ
  pub evidence_deadline : ℕ

pub record AiArbitrationConfig : Type 0 where
  pub evidence_period_hours : ℕ
  pub appeal_period_hours : ℕ
  pub max_evidence_per_party : ℕ

pub record AiArbitrationStats : Type 0 where
  pub disputes_created : ℕ
  pub disputes_ruled : ℕ
  pub disputes_appealed : ℕ
  pub evidence_submitted : ℕ
  pub rulings_favor_client : ℕ
  pub rulings_favor_provider : ℕ
  pub rulings_split : ℕ

pub record AiArbitrator : Type 0 where
  pub config : AiArbitrationConfig
  pub disputes : Map String AiDispute
  pub kleros_client : Option KlerosClient
  pub stats : AiArbitrationStats

pub data Error : Type 0 where
  below_tier_2 above_tier_2 dispute_not_found evidence_closed not_a_party evidence_limit : Error
  not_awaiting_evidence escalation_missing not_ruled deadline_passed no_ruling : Error
  cannot_rule cannot_resolve : AiDisputeState → Error
  kleros_failed : KlerosError → Error

-- `==` on states and on texts.
abbrev pub is_awaiting : AiDisputeState → Bool
is_awaiting awaiting_evidence = true
is_awaiting _ = false

abbrev pub same : String → String → Bool
same a b = ite (string_key.equal a b) true false

unfoldable pub new_dispute : String → String → String → String → ℕ → ℕ → AiDispute
new_dispute id escrow_id client_did provider_did amount_usdc now = record {
  id = id;
  escrow_id = escrow_id;
  client_did = client_did;
  provider_did = provider_did;
  amount_usdc = amount_usdc;
  state = awaiting_evidence;
  client_evidence = [];
  provider_evidence = [];
  ruling = none;
  kleros_dispute_id = none;
  created_at = now;
  evidence_deadline = now + 48 * 3600;
}

unfoldable pub can_submit_evidence : AiDispute → ℕ → Bool
can_submit_evidence d now = is_awaiting d.state && ltb now d.evidence_deadline

abbrev pub put : AiArbitrator → String → AiDispute → AiArbitrator
put a dispute_id d = record a { disputes = insert dispute_id d a.disputes }

abbrev pub count_created : AiArbitrationStats → AiArbitrationStats
count_created s = record s { disputes_created = bump s.disputes_created }

abbrev pub count_evidence : AiArbitrationStats → AiArbitrationStats
count_evidence s = record s { evidence_submitted = bump s.evidence_submitted }

abbrev pub count_appeal : AiArbitrationStats → AiArbitrationStats
count_appeal s = record s { disputes_appealed = bump s.disputes_appealed }

abbrev pub count_decision : Ruling → AiArbitrationStats → AiArbitrationStats
count_decision favor_client s = record s { rulings_favor_client = bump s.rulings_favor_client }
count_decision favor_provider s = record s {
  rulings_favor_provider = bump s.rulings_favor_provider;
}
count_decision split s = record s { rulings_split = bump s.rulings_split }
count_decision undecided s = s

unfoldable pub count_ruling : Ruling → AiArbitrationStats → AiArbitrationStats
count_ruling r s = count_decision r (record s { disputes_ruled = bump s.disputes_ruled })

unfoldable pub create_dispute :
    AiArbitrator → String → String → String → String → ℕ → ℕ → Result Error (AiArbitrator × String)
unfolding new_dispute
create_dispute a id escrow_id client_did provider_did amount_usdc now = do
  guard (not (ltb amount_usdc tier_1_max_usdc)) below_tier_2
  guard (not (leb tier_2_max_usdc amount_usdc)) above_tier_2
  ok (
    record a {
      disputes =
          insert id (new_dispute id escrow_id client_did provider_did amount_usdc now) a.disputes;
      stats = count_created a.stats;
    },
    id,
  )

unfoldable pub get_dispute : AiArbitrator → String → Result Error AiDispute
get_dispute a dispute_id = ok_or (get dispute_id a.disputes) dispute_not_found

-- The dispute with the evidence, which the client's side takes where one party is both.
unfoldable pub submitted : ℕ → AiDispute → Evidence → ℕ → Result Error AiDispute
unfolding can_submit_evidence
submitted max_evidence d evidence now =
    let is_client = same evidence.submitter_did d.client_did in
    let is_provider = same evidence.submitter_did d.provider_did in
    let current_count =
      if is_client then length d.client_evidence else length d.provider_evidence in
    do
      guard (can_submit_evidence d now) evidence_closed
      guard (is_client || is_provider) not_a_party
      guard (not (leb max_evidence current_count)) evidence_limit
      ok (
          if is_client
          then record d { client_evidence = d.client_evidence ++ (evidence ∷ []) }
          else record d { provider_evidence = d.provider_evidence ++ (evidence ∷ []) })

unfoldable pub submit_evidence : AiArbitrator → String → Evidence → ℕ → Result Error AiArbitrator
unfolding get_dispute
submit_evidence a dispute_id evidence now = do
  d ← get_dispute a dispute_id
  d' ← submitted a.config.max_evidence_per_party d evidence now
  ok (record a { disputes = insert dispute_id d' a.disputes; stats = count_evidence a.stats })

unfoldable pub close_evidence_period : AiArbitrator → String → Result Error AiArbitrator
unfolding get_dispute
close_evidence_period a dispute_id = do
  d ← get_dispute a dispute_id
  guard (is_awaiting d.state) not_awaiting_evidence
  ok (put a dispute_id (record d { state = analyzing }))

-- The first block of `request_ruling`.
unfoldable pub open_analysis : AiDisputeState → AiArbitrator → String → Result Error AiArbitrator
unfolding close_evidence_period
open_analysis analyzing a dispute_id = ok a
open_analysis awaiting_evidence a dispute_id = close_evidence_period a dispute_id
open_analysis s a dispute_id = err (cannot_rule s)

unfoldable pub analyze_dispute : AiDispute → ℕ → AiRuling
analyze_dispute d now = analyze_evidence d.client_evidence d.provider_evidence now

-- The last block of `request_ruling`: it writes whatever the state is by then.
unfoldable pub store_ruling : AiArbitrator → String → AiRuling → Result Error AiArbitrator
unfolding get_dispute count_ruling
store_ruling a dispute_id ruling = do
  d ← get_dispute a dispute_id
  ok (record a {
    disputes = insert dispute_id (record d { ruling = some ruling; state = ruled }) a.disputes;
    stats = count_ruling ruling.decision a.stats;
  })

unfoldable pub request_ruling : AiArbitrator → String → ℕ → Result Error (AiArbitrator × AiRuling)
unfolding get_dispute open_analysis analyze_dispute store_ruling
request_ruling a dispute_id now = do
  d ← get_dispute a dispute_id
  opened ← open_analysis d.state a dispute_id
  d' ← get_dispute opened dispute_id
  let ruling = analyze_dispute d' now
  stored ← store_ruling opened dispute_id ruling
  ok (stored, ruling)

unfoldable pub can_escalate_to_kleros : AiArbitrator → Bool
can_escalate_to_kleros a = elim (a.kleros_client) [ none ↦ false | some c ↦ Kleros.is_configured c ]

-- `format!("ipfs://Qm{}", id.replace('-', ""))`.
unfoldable pub evidence_uri : String → Text
evidence_uri id = codes "ipfs://Qm" ++ retain (λ c. not (c == b'-')) (codes id)

abbrev pub kleros {ℓ} : {A : Type ℓ} → Result KlerosError A → Result Error A
kleros (ok x) = ok x
kleros (err e) = err (kleros_failed e)

abbrev pub is_ruled : AiDisputeState → Bool
is_ruled ruled = true
is_ruled _ = false

-- A ruling whose appeal deadline is ahead.
abbrev pub appealable_ruling : Option AiRuling → ℕ → Result Error (Unit {0})
appealable_ruling none now = err no_ruling
appealable_ruling (some r) now = guard (ltb now r.appeal_deadline) deadline_passed

-- The last block of `appeal_to_kleros`, which also writes whatever the state is by then.
unfoldable pub store_appeal : AiArbitrator → String → ℕ → Result Error AiArbitrator
unfolding get_dispute
store_appeal a dispute_id case = do
  d ← get_dispute a dispute_id
  ok (record a {
    disputes =
        insert dispute_id (record d { state = appealed; kleros_dispute_id = some case }) a.disputes;
    stats = count_appeal a.stats;
  })

unfoldable pub appeal_to_kleros : AiArbitrator → String → ℕ → Result Error (AiArbitrator × ℕ)
unfolding get_dispute store_appeal Kleros.is_configured Kleros.get_arbitration_cost
    Kleros.create_dispute
appeal_to_kleros a dispute_id now = do
  client ← ok_or a.kleros_client escalation_missing
  guard (Kleros.is_configured client) (kleros_failed KlerosError.not_configured)
  d ← get_dispute a dispute_id
  guard (is_ruled d.state) not_ruled
  appealable_ruling d.ruling now
  cost ← kleros (Kleros.get_arbitration_cost client 3)
  filed ← kleros (Kleros.create_dispute client (evidence_uri d.id) 3 cost now)
  stored ← store_appeal (record a { kleros_client = some filed.0 }) dispute_id filed.1
  ok (stored, filed.1)

abbrev pub may_resolve : AiDisputeState → Bool
may_resolve ruled = true
may_resolve appealed = true
may_resolve _ = false

unfoldable pub resolve_dispute : AiArbitrator → String → Result Error AiArbitrator
unfolding get_dispute
resolve_dispute a dispute_id = do
  d ← get_dispute a dispute_id
  guard (may_resolve d.state) (cannot_resolve d.state)
  ok (put a dispute_id (record d { state = resolved }))

unfoldable pub is_active : AiDisputeState → Bool
is_active awaiting_evidence = true
is_active analyzing = true
is_active _ = false

unfoldable pub get_active_disputes : AiArbitrator → List AiDispute
unfolding is_active
get_active_disputes a = retain (λ d. is_active d.state) (map (λ e. e.1) a.disputes)

unfoldable pub get_disputes_by_party : AiArbitrator → String → List AiDispute
get_disputes_by_party a did =
    retain (λ d. same d.client_did did || same d.provider_did did) (map (λ e. e.1) a.disputes)
