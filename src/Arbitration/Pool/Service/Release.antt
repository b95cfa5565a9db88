-- ===== src/Arbitration/Pool/Service/Release.antt =====
-- The jurors that a settled session frees.
use agentme.Prelude.{
  ℕ, ◌≡◌, refl, ◌⊎◌, inl, inr, true, Option, none, some, List, [], ◌∷◌, arith, Option-cases, ◌∙◌,
  ap, String, string_key, ok, retain,
}
use agentme.Prelude.Map.{Map, get, insert, get-insert}
use agentme.Float.{F64}
use agentme.Arbitration.Tiers.{Ruling}
use agentme.Arbitration.Session.{
  ruling_key, ℤ, JurorVote, VotingSession, IterationOrder, calculate_coherence, voted_in,
}
use agentme.Arbitration.Pool.{Juror, JurorPool, active, record_vote, record_case}
use agentme.Arbitration.Pool.Service.{release, release_jurors, finalize_session, with_majority}

module _ {F : Type 0} ⦃fl : F64 F⦄ where
  -- A juror of a list of votes, or an active one, is active after their release.
  release_jurors_lem :
      (majority : Option Ruling) (now : ℕ) (p : JurorPool F) (votes : List JurorVote) (did : String)
      (j : Juror F)
      → get did p.jurors ≡ some j
      → (voted_in did votes ≡ true) ⊎ (j.status ≡ active)
      → (k : Juror F) × (get did (release_jurors majority now p votes).jurors ≡ some k)
        × (k.status ≡ active)
  unfolding release_jurors
  release_jurors_lem majority now p [] did j found (inl h) = absurd (ground arith)
  release_jurors_lem majority now p [] did j found (inr h) = (j, found, h)
  release_jurors_lem majority now p (v ∷ votes) did j found h =
      elim (Option-cases (get v.juror_did p.jurors)) [
        | inl missing ↦
            release_jurors_lem majority now (release majority v now p (get v.juror_did p.jurors))
              votes did j (ground (arith, missing)) (ground arith)
        | inr (w, known) ↦ elim (string_key.equal v.juror_did did) [
          | yes e ↦
              release_jurors_lem majority now (release majority v now p (get v.juror_did p.jurors))
                votes did
                (record (record_case w (with_majority majority v) now) { status = active })
                (ground (
                  arith,
                  known,
                  get-insert v.juror_did did
                      (record (record_case w (with_majority majority v) now) { status = active })
                      p.jurors,
                ))
                (inr refl)
          | no n ↦
              release_jurors_lem majority now (release majority v now p (get v.juror_did p.jurors))
                votes did j
                (ground (
                  arith,
                  known,
                  get-insert v.juror_did did
                      (record (record_case w (with_majority majority v) now) { status = active })
                      p.jurors,
                ))
                (ground arith)
        ]
      ]

  release_jurors_stats :
      (majority : Option Ruling) (now : ℕ) (p : JurorPool F) (votes : List JurorVote)
      → (release_jurors majority now p votes).stats.jurors_active ≡ p.stats.jurors_active
  unfolding release_jurors
  release_jurors_stats majority now p [] = refl
  release_jurors_stats majority now p (v ∷ votes) =
      release_jurors_stats majority now (release majority v now p (get v.juror_did p.jurors)) votes
      ∙ kept (get v.juror_did p.jurors)
    where
      kept :
          (o : Option (Juror F))
          → (release majority v now p o).stats.jurors_active ≡ p.stats.jurors_active
      kept none = refl
      kept (some j) = unfold record_vote in refl

  -- Finalizing a session frees every registered juror whose vote was revealed, without counting
  -- those as active again: the number of active jurors in the statistics stays.
  pub finalize_session_lem :
      (o : IterationOrder Ruling ℕ) (p q : JurorPool F) (id : String) (now : ℕ)
      (results : Map String ℤ) (s : VotingSession)
      → get id p.sessions ≡ some s
      → finalize_session o p id now ≡ ok (q, results)
      → (q.stats.jurors_active ≡ p.stats.jurors_active)
        × ((did : String) (j : Juror F)
            → get did p.jurors ≡ some j
            → voted_in did (retain (λ v. v.revealed) s.votes) ≡ true
            → (k : Juror F) × (get did q.jurors ≡ some k) × (k.status ≡ active))
  unfolding finalize_session
  finalize_session_lem o p q id now results s found h = (
    ap (λ x. x.stats.jurors_active) settled ∙ release_jurors_stats s.final_ruling now before votes,
    λ did j known voted.
        let (k, at, free) =
          release_jurors_lem s.final_ruling now before votes did j known (inl voted) in
        (k, ap (λ x. get did x.jurors) settled ∙ at, free),
  )
    where
      before : JurorPool F
      before = record p {
        sessions = insert id (calculate_coherence o s p.config.stake_at_risk_bps).0 p.sessions;
      }

      votes : List JurorVote
      votes = retain (λ v. v.revealed) s.votes

      settled : q ≡ release_jurors s.final_ruling now before votes
      settled = ground arith
