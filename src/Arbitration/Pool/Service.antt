-- ===== src/Arbitration/Pool/Service.antt =====
-- The methods of `JurorPool` (node/src/arbitration.rs) that open, move and settle voting sessions.
-- The clock is the argument `now`, in seconds; the seed of the draw, which the code takes from the
-- clock in nanoseconds, is the argument `seed`.
pub mod Opening
pub mod Invariant
pub mod Settling
pub mod Histories
pub mod Activity
pub mod Release
use agentme.Prelude.{
  ℕ, Bool, true, false, not, Option, none, some, List, [], ◌∷◌, map, if◌then◌else◌, contains,
  String, string_key, ite, retain, Result, ok, err, ◌>>=◌, ◌>>◌, guard, ok_or,
}
use agentme.Prelude.Map.{Map, get, insert}
use agentme.Float.{F64}
use agentme.Arbitration.Tiers.{Ruling}
use agentme.Arbitration.Session
use agentme.Arbitration.Session.{
  ℤ, ruling_key, coherent, JurorVote, VotingState, VotingSession, IterationOrder, is_completed,
  calculate_coherence,
}
use agentme.Arbitration.Pool.{
  Juror, JurorPool, JurorPoolStats, Error, session_not_found, not_completed, in_session, active,
  serving, bump, record_vote, record_case, set_juror_status,
}
use agentme.Arbitration.Pool.Draw.{select_jurors}

abbrev pub lift_session : {A : Type 0} → Result Session.Error A → Result Error A
lift_session (ok x) = ok x
lift_session (err e) = err (in_session e)

module _ {F : Type 0} where
  -- The loop of `create_session` over the selected jurors, which the `?` of its body may leave.
  unfoldable pub mark_serving : JurorPool F → List String → JurorPool F × Result Error (Unit {0})
  mark_serving p [] = (p, ok tt)
  mark_serving p (did ∷ dids) = elim (set_juror_status p did serving) [
    | ok q ↦ mark_serving q dids
    | err e ↦ (p, err e)
  ]

  abbrev pub add_session : JurorPool F → String → VotingSession → JurorPool F
  add_session p dispute_id s = record p {
    sessions = insert dispute_id s p.sessions;
    stats = record (p.stats) { sessions_created = bump p.stats.sessions_created };
  }

  abbrev pub open_if_marked :
      JurorPool F × Result Error (Unit {0})
      → String
      → VotingSession
      → JurorPool F × Result Error String
  open_if_marked (p, ok _) dispute_id s = (add_session p dispute_id s, ok dispute_id)
  open_if_marked (p, err e) dispute_id s = (p, err e)

  -- A method on one session under the lock of all.
  abbrev pub on_session :
      JurorPool F
      → String
      → (VotingSession → Result Session.Error VotingSession)
      → Result Error (JurorPool F)
  on_session p dispute_id f = do
    s ← ok_or (get dispute_id p.sessions) session_not_found
    t ← lift_session (f s)
    ok (record p { sessions = insert dispute_id t p.sessions })

  unfoldable pub advance_session_state :
      IterationOrder Ruling ℕ → JurorPool F → String → Result Error (JurorPool F)
  advance_session_state o p dispute_id = on_session p dispute_id (Session.advance o)

  unfoldable pub commit_vote :
      JurorPool F → String → String → String → ℕ → Result Error (JurorPool F)
  commit_vote p dispute_id juror_did commitment now =
      on_session p dispute_id (λ s. Session.commit_vote s juror_did commitment now)

  unfoldable pub reveal_vote :
      JurorPool F → String → String → Ruling → String → Result Error (JurorPool F)
  reveal_vote p dispute_id juror_did choice justification =
      on_session p dispute_id (λ s. Session.reveal_vote s juror_did choice justification)

-- `majority.map(|m| vote.choice == m).unwrap_or(false)`.
abbrev pub with_majority : Option Ruling → JurorVote → Bool
with_majority none v = false
with_majority (some m) v = coherent m v

module _ {F : Type 0} ⦃fl : F64 F⦄ where
  unfoldable pub create_session :
      IterationOrder String (Juror F)
      → JurorPool F
      → String
      → ℕ
      → ℕ
      → ℕ
      → JurorPool F × Result Error String
  unfolding mark_serving select_jurors
  create_session o p dispute_id court_id seed now =
      elim (select_jurors o p court_id p.config.initial_jurors seed) [
        | err e ↦ (p, err e)
        | ok jurors ↦
            open_if_marked (mark_serving p jurors) dispute_id
              (Session.new dispute_id jurors p.config.initial_jurors now)
      ]

  -- A revealed vote is written to its juror's record, and the juror is released.
  abbrev pub release : Option Ruling → JurorVote → ℕ → JurorPool F → Option (Juror F) → JurorPool F
  release majority v now p none = p
  release majority v now p (some j) =
      let was_coherent = with_majority majority v in
      record p {
        jurors =
            insert v.juror_did (record (record_case j was_coherent now) { status = active })
              p.jurors;
        stats = record_vote p.stats was_coherent;
      }

  unfoldable pub release_jurors : Option Ruling → ℕ → JurorPool F → List JurorVote → JurorPool F
  release_jurors majority now p [] = p
  release_jurors majority now p (v ∷ votes) =
      release_jurors majority now (release majority v now p (get v.juror_did p.jurors)) votes

  unfoldable pub finalize_session :
      IterationOrder Ruling ℕ → JurorPool F → String → ℕ → Result Error (JurorPool F × Map String ℤ)
  unfolding release_jurors
  finalize_session o p dispute_id now = do
    s ← ok_or (get dispute_id p.sessions) session_not_found
    guard (is_completed s.state) (not_completed s.state)
    let settled = calculate_coherence o s p.config.stake_at_risk_bps in
        ok (
          release_jurors s.final_ruling now
              (record p { sessions = insert dispute_id settled.0 p.sessions })
              (retain (λ v. v.revealed) s.votes),
          settled.1,
        )
