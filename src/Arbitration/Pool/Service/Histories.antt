-- ===== src/Arbitration/Pool/Service/Histories.antt =====
-- Histories of calls on a pool of jurors.
use agentme.Prelude.{
  ℕ, ◌≡◌, refl, inl, inr, List, [], ◌∷◌, arith, if◌then◌else◌, length, Distinct, Bool-cases,
  Option-cases, Result-cases, ◌∙◌, ap, subst, String, string_key, Result, ok, err, retain,
}
use agentme.Prelude.Map.{get, insert}
use agentme.Float.{F64}
use agentme.Arbitration.Tiers.{Ruling}
use agentme.Arbitration.Session
use agentme.Arbitration.Session.{
  ruling_key, JurorVote, VotingSession, IterationOrder, calculate_coherence, determine_majority,
  is_completed,
}
use agentme.Arbitration.Session.Votes.{new-IsValid}
use agentme.Arbitration.Pool.{
  Juror, JurorPool, JurorPoolConfig, JurorStatus, serving, Error, new, new_juror, register_juror,
  update_stake, set_juror_status, is_empty,
}
use agentme.Arbitration.Pool.Selection.{select_jurors_lem}
use agentme.Arbitration.Pool.Service.{
  mark_serving, open_if_marked, advance_session_state, commit_vote, reveal_vote, create_session,
  finalize_session,
}
use agentme.Arbitration.Pool.Service.Invariant.{
  IsValid, write-Seated, write-Staked, on_session-IsValid, update_stake-IsValid,
  set_juror_status-IsValid, advance-Seated, commit_vote-Seated, reveal_vote-Seated,
}
use agentme.Arbitration.Pool.Service.Settling.{release_jurors-IsValid, settled-Seated}

-- The methods that change a pool.
pub data Op (F : Type 0) : Type 0 where
  registers : String → ℕ → List ℕ → ℕ → Op F
  stakes : String → ℕ → Op F
  becomes : String → JurorStatus → Op F
  opens : IterationOrder String (Juror F) → String → ℕ → ℕ → ℕ → Op F
  advances : IterationOrder Ruling ℕ → String → Op F
  commits : String → String → String → ℕ → Op F
  reveals : String → String → Ruling → String → Op F
  finalizes : IterationOrder Ruling ℕ → String → ℕ → Op F

module _ {F : Type 0} where
  abbrev pub after : JurorPool F → Result Error (JurorPool F) → JurorPool F
  after p (ok q) = q
  after p (err e) = p

  abbrev pub after_pair : {A : Type 0} → JurorPool F → Result Error (JurorPool F × A) → JurorPool F
  after_pair p (ok q) = q.0
  after_pair p (err e) = p

  after-IsValid :
      (c : JurorPoolConfig) (p : JurorPool F) (r : Result Error (JurorPool F))
      → ((q : JurorPool F) → r ≡ ok q → IsValid c q)
      → IsValid c p
      → IsValid c (after p r)
  after-IsValid c p (ok q) h v = h q refl
  after-IsValid c p (err e) h v = v

module _ {F : Type 0} ⦃fl : F64 F⦄ where
  unfoldable pub apply : JurorPool F → Op F → JurorPool F
  apply p (registers did stake courts now) = after p (register_juror p did stake courts now)
  apply p (stakes did stake) = after p (update_stake p did stake)
  apply p (becomes did status) = after p (set_juror_status p did status)
  apply p (opens o id court seed now) = (create_session o p id court seed now).0
  apply p (advances o id) = after p (advance_session_state o p id)
  apply p (commits id did commitment now) = after p (commit_vote p id did commitment now)
  apply p (reveals id did choice why) = after p (reveal_vote p id did choice why)
  apply p (finalizes o id now) = after_pair p (finalize_session o p id now)

  unfoldable pub run : JurorPool F → List (Op F) → JurorPool F
  run p [] = p
  run p (op ∷ ops) = run (apply p op) ops

  register_juror-IsValid :
      (c : JurorPoolConfig) (p q : JurorPool F) (did : String) (stake : ℕ) (courts : List ℕ)
      (now : ℕ)
      → register_juror p did stake courts now ≡ ok q
      → IsValid c p
      → IsValid c q
  unfolding register_juror new_juror
  register_juror-IsValid c p q did stake courts now h v =
      subst (IsValid c)
        {x = record p {
          jurors =
              insert did
                (new_juror did stake
                  (if is_empty courts then p.config.default_court_id ∷ [] else courts) now)
                p.jurors;
          stats = q.stats;
        }}
        (ground arith)
        (record {
          configured = v.configured;
          jurors_valid =
              write-Staked c p.jurors did
                (new_juror did stake
                  (if is_empty courts then p.config.default_court_id ∷ [] else courts) now)
                v.jurors_valid refl (ground (arith, v.configured));
          sessions_valid = v.sessions_valid;
        })

  mark_serving-IsValid :
      (c : JurorPoolConfig) (p : JurorPool F) (dids : List String)
      → IsValid c p
      → IsValid c (mark_serving p dids).0
  unfolding mark_serving
  mark_serving-IsValid c p [] v = v
  mark_serving-IsValid c p (did ∷ dids) v = elim (Result-cases (set_juror_status p did serving)) [
    | inl (q, set) ↦
        rw (set, mark_serving)
          (mark_serving-IsValid c q dids (set_juror_status-IsValid c p q did serving set v))
    | inr (e, failed) ↦ rw (failed, mark_serving) v
  ]

  create_session-IsValid :
      (c : JurorPoolConfig) (o : IterationOrder String (Juror F)) (p : JurorPool F) (id : String)
      (court seed now : ℕ)
      → IsValid c p
      → IsValid c (create_session o p id court seed now).0
  unfolding create_session
  create_session-IsValid c o p id court seed now v =
      elim (select_jurors_lem o p court p.config.initial_jurors seed v.jurors_valid.keys
        v.jurors_valid.keyed) [
          | inl (few, e) ↦ rw (e, create_session) v
          | inr (inl (nothing, e)) ↦ rw (e, create_session) v
          | inr (inr (jurors, e, many, distinct, members)) ↦
              rw (e, create_session)
                (seated jurors many distinct (mark_serving p jurors)
                  (mark_serving-IsValid c p jurors v))
        ]
    where
      seated :
          (jurors : List String)
          → length jurors ≡ p.config.initial_jurors
          → Distinct jurors
          → (r : JurorPool F × Result Error (Unit {0})) → IsValid c r.0
          → IsValid c (open_if_marked r id (Session.new id jurors p.config.initial_jurors now)).0
      seated jurors many distinct (q, err e) w = w
      seated jurors many distinct (q, ok u) w = record {
        configured = w.configured;
        jurors_valid = w.jurors_valid;
        sessions_valid =
            write-Seated c q.sessions id (Session.new id jurors p.config.initial_jurors now)
              w.sessions_valid
              (record {
                votes_valid = new-IsValid id jurors p.config.initial_jurors now;
                enough = unfold Session.new in many ∙ ap (λ x. x.initial_jurors) v.configured;
                distinct = unfold Session.new in distinct;
              });
      }

  finalize_session-IsValid :
      (c : JurorPoolConfig) (o : IterationOrder Ruling ℕ) (p : JurorPool F) (id : String) (now : ℕ)
      → IsValid c p
      → IsValid c (after_pair p (finalize_session o p id now))
  unfolding finalize_session
  finalize_session-IsValid c o p id now v = elim (Option-cases (get id p.sessions)) [
    | inl missing ↦ rw missing v
    | inr (s, found) ↦ elim (Bool-cases (is_completed s.state)) [
      | inr early ↦ rw (found, early) v
      | inl over ↦
          rw (found, over)
            (release_jurors-IsValid c s.final_ruling now
              (record p {
                sessions =
                    insert id (calculate_coherence o s p.config.stake_at_risk_bps).0 p.sessions;
              })
              (retain (λ v. v.revealed) s.votes)
              (record {
                configured = v.configured;
                jurors_valid = v.jurors_valid;
                sessions_valid =
                    write-Seated c p.sessions id
                      (calculate_coherence o s p.config.stake_at_risk_bps).0 v.sessions_valid
                      (settled-Seated c o s p.config.stake_at_risk_bps
                        (v.sessions_valid id s found));
              }))
    ]
  ]

  apply-IsValid :
      (c : JurorPoolConfig) (p : JurorPool F) (op : Op F) → IsValid c p → IsValid c (apply p op)
  unfolding apply advance_session_state commit_vote reveal_vote
  apply-IsValid c p (registers did stake courts now) v =
      after-IsValid c p (register_juror p did stake courts now)
        (λ q h. register_juror-IsValid c p q did stake courts now h v) v
  apply-IsValid c p (stakes did stake) v =
      after-IsValid c p (update_stake p did stake) (λ q h. update_stake-IsValid c p q did stake h v)
        v
  apply-IsValid c p (becomes did status) v =
      after-IsValid c p (set_juror_status p did status)
        (λ q h. set_juror_status-IsValid c p q did status h v) v
  apply-IsValid c p (opens o id court seed now) v = create_session-IsValid c o p id court seed now v
  apply-IsValid c p (advances o id) v =
      after-IsValid c p (advance_session_state o p id)
        (λ q h. on_session-IsValid c p q id (Session.advance o) (advance-Seated c o) h v) v
  apply-IsValid c p (commits id did commitment now) v =
      after-IsValid c p (commit_vote p id did commitment now)
        (λ q h.
          on_session-IsValid c p q id (λ s. Session.commit_vote s did commitment now)
            (λ s t. commit_vote-Seated c s t did commitment now) h v)
        v
  apply-IsValid c p (reveals id did choice why) v =
      after-IsValid c p (reveal_vote p id did choice why)
        (λ q h.
          on_session-IsValid c p q id (λ s. Session.reveal_vote s did choice why)
            (λ s t. reveal_vote-Seated c s t did choice why) h v)
        v
  apply-IsValid c p (finalizes o id now) v = finalize_session-IsValid c o p id now v

  run-IsValid :
      (c : JurorPoolConfig) (p : JurorPool F) (ops : List (Op F))
      → IsValid c p
      → IsValid c (run p ops)
  unfolding run
  run-IsValid c p [] v = v
  run-IsValid c p (op ∷ ops) v = run-IsValid c (apply p op) ops (apply-IsValid c p op v)

  -- After any history of method calls on a new pool, with whatever outcomes, every juror stands once
  -- under the own DID with at least the minimum stake, and every session has as many distinct jurors
  -- as configured and is a valid vote.
  pub pool-IsValid : (c : JurorPoolConfig) (ops : List (Op F)) → IsValid c (run (new c) ops)
  pool-IsValid c ops = run-IsValid c (new c) ops fresh
    where
      fresh : IsValid c (new {F = F} c)
      fresh =
          unfold new in
          record {
            configured = refl;
            jurors_valid = record { keys = tt; keyed = λ d j h. cc; staked = λ d j h. cc };
            sessions_valid = λ i s h. cc;
          }
