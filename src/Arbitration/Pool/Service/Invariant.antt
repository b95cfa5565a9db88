-- ===== src/Arbitration/Pool/Service/Invariant.antt =====
-- What holds of a pool of jurors between any two method calls, and how single writes keep it.
use agentme.Prelude.{
  ℕ, ◌≤◌, ◌≡◌, inl, inr, some, arith, length, Distinct, Option-cases, Result-cases, ◌∙◌, sym, ap,
  subst, String, string_key, Result, ok,
}
use agentme.Prelude.Map.{Map, get, insert, DistinctKeys, get-insert_cases, insert-DistinctKeys}
use agentme.Arbitration.Tiers.{Ruling}
use agentme.Arbitration.Session
use agentme.Arbitration.Session.{
  ruling_key, JurorVote, VotingSession, IterationOrder, calculate_coherence,
}
use agentme.Arbitration.Session.Votes
use agentme.Arbitration.Session.Votes.{new-IsValid, advance-IsValid, commit_vote-IsValid}
use agentme.Arbitration.Session.Reveal.{reveal_vote-IsValid}
use agentme.Arbitration.Pool.{
  Juror, JurorPool, JurorPoolConfig, JurorStatus, update_stake, set_juror_status,
}
use agentme.Arbitration.Pool.Selection.{Keyed}
use agentme.Arbitration.Pool.Service.{on_session}

-- A session of the pool: valid by itself, with as many distinct jurors as configured.
pub record Seated (c : JurorPoolConfig) (s : VotingSession) : Type 0 where
  pub votes_valid : Votes.IsValid s
  pub enough : length s.jurors ≡ c.initial_jurors
  pub distinct : Distinct s.jurors

pub write-Seated :
    (c : JurorPoolConfig) (m : Map String VotingSession) (id : String) (t : VotingSession)
    → ((i : String) (s : VotingSession) → get i m ≡ some s → Seated c s)
    → Seated c t
    → (i : String) (s : VotingSession) → get i (insert id t m) ≡ some s
    → Seated c s
write-Seated c m id t all seated i s h = elim (get-insert_cases id i t s m h) [
  | inl (same, e) ↦ subst (Seated c) e seated
  | inr (other, old) ↦ all i s old
]

module _ {F : Type 0} where
  -- Every juror stands once, under the own DID, with at least the minimum stake.
  pub record Staked (c : JurorPoolConfig) (m : Map String (Juror F)) : Type 0 where
    pub keys : DistinctKeys m
    pub keyed : Keyed m
    pub staked : (did : String) (j : Juror F) → get did m ≡ some j → c.min_stake_usdc ≤ j.stake_usdc

  pub record IsValid (c : JurorPoolConfig) (p : JurorPool F) : Type 0 where
    pub configured : p.config ≡ c
    pub jurors_valid : Staked c p.jurors
    pub sessions_valid : (id : String) (s : VotingSession) → get id p.sessions ≡ some s → Seated c s

  pub write-Staked :
      (c : JurorPoolConfig) (m : Map String (Juror F)) (did : String) (j : Juror F)
      → Staked c m
      → j.did ≡ did
      → c.min_stake_usdc ≤ j.stake_usdc
      → Staked c (insert did j m)
  write-Staked c m did j v own enough = record {
    keys = insert-DistinctKeys did j m v.keys;
    keyed = λ d k h. elim (get-insert_cases did d j k m h) [
      | inl (same, e) ↦ ap (λ x. x.did) (sym e) ∙ (own ∙ same)
      | inr (other, old) ↦ v.keyed d k old
    ];
    staked = λ d k h. elim (get-insert_cases did d j k m h) [
      | inl (same, e) ↦ subst (λ x. c.min_stake_usdc ≤ x.stake_usdc) e enough
      | inr (other, old) ↦ v.staked d k old
    ];
  }

  pub on_session-IsValid :
      (c : JurorPoolConfig) (p q : JurorPool F) (id : String)
      (f : VotingSession → Result Session.Error VotingSession)
      → ((s t : VotingSession) → f s ≡ ok t → Seated c s → Seated c t)
      → on_session p id f ≡ ok q
      → IsValid c p
      → IsValid c q
  on_session-IsValid c p q id f keeps h v = elim (Option-cases (get id p.sessions)) [
    | inl missing ↦ absurd (ground arith)
    | inr (s, found) ↦ elim (Result-cases (f s)) [
      | inr (e, failed) ↦ absurd (ground arith)
      | inl (t, done) ↦
          subst (IsValid c) {x = record p { sessions = insert id t p.sessions }} (ground arith)
            (record {
              configured = v.configured;
              jurors_valid = v.jurors_valid;
              sessions_valid =
                  write-Seated c p.sessions id t v.sessions_valid
                    (keeps s t done (v.sessions_valid id s found));
            })
    ]
  ]

  pub update_stake-IsValid :
      (c : JurorPoolConfig) (p q : JurorPool F) (did : String) (stake : ℕ)
      → update_stake p did stake ≡ ok q
      → IsValid c p
      → IsValid c q
  unfolding update_stake
  update_stake-IsValid c p q did stake h v = elim (Option-cases (get did p.jurors)) [
    | inl missing ↦ absurd (ground arith)
    | inr (j, found) ↦
        subst (IsValid c)
          {x = record p { jurors = insert did (record j { stake_usdc = stake }) p.jurors }}
          (ground arith)
          (record {
            configured = v.configured;
            jurors_valid =
                write-Staked c p.jurors did (record j { stake_usdc = stake }) v.jurors_valid
                  (v.jurors_valid.keyed did j found) (ground (arith, v.configured));
            sessions_valid = v.sessions_valid;
          })
  ]

  pub set_juror_status-IsValid :
      (c : JurorPoolConfig) (p q : JurorPool F) (did : String) (status : JurorStatus)
      → set_juror_status p did status ≡ ok q
      → IsValid c p
      → IsValid c q
  unfolding set_juror_status
  set_juror_status-IsValid c p q did status h v = elim (Option-cases (get did p.jurors)) [
    | inl missing ↦ absurd (ground arith)
    | inr (j, found) ↦
        subst (IsValid c)
          {x = record p {
            jurors = insert did (record j { status = status }) p.jurors;
            stats = q.stats;
          }}
          (ground arith)
          (record {
            configured = v.configured;
            jurors_valid =
                write-Staked c p.jurors did (record j { status = status }) v.jurors_valid
                  (v.jurors_valid.keyed did j found) (v.jurors_valid.staked did j found);
            sessions_valid = v.sessions_valid;
          })
  ]

-- The votes of a session move, its jurors stay.
pub advance-Seated :
    (c : JurorPoolConfig) (o : IterationOrder Ruling ℕ) (s t : VotingSession)
    → Session.advance o s ≡ ok t
    → Seated c s
    → Seated c t
advance-Seated c o s t h v = record {
  votes_valid = advance-IsValid o s t h v.votes_valid;
  enough = ap length same ∙ v.enough;
  distinct = subst Distinct (sym same) v.distinct;
}
  where
    same : t.jurors ≡ s.jurors
    same = unfold Session.advance in ground arith

pub commit_vote-Seated :
    (c : JurorPoolConfig) (s t : VotingSession) (did commitment : String) (now : ℕ)
    → Session.commit_vote s did commitment now ≡ ok t
    → Seated c s
    → Seated c t
commit_vote-Seated c s t did commitment now h v = record {
  votes_valid = commit_vote-IsValid s t did commitment now h v.votes_valid;
  enough = ap length same ∙ v.enough;
  distinct = subst Distinct (sym same) v.distinct;
}
  where
    same : t.jurors ≡ s.jurors
    same = unfold Session.commit_vote in ground arith

pub reveal_vote-Seated :
    (c : JurorPoolConfig) (s t : VotingSession) (did : String) (choice : Ruling) (why : String)
    → Session.reveal_vote s did choice why ≡ ok t
    → Seated c s
    → Seated c t
reveal_vote-Seated c s t did choice why h v = record {
  votes_valid = reveal_vote-IsValid s t did choice why h v.votes_valid;
  enough = ap length same ∙ v.enough;
  distinct = subst Distinct (sym same) v.distinct;
}
  where
    same : t.jurors ≡ s.jurors
    same = unfold Session.reveal_vote in ground arith
