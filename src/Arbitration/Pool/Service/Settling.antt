-- ===== src/Arbitration/Pool/Service/Settling.antt =====
-- What `finalize_session` writes: the results of a session and the records of its jurors.
use agentme.Prelude.{
  ℕ, ◌≡◌, refl, inl, inr, Bool, Option, List, [], ◌∷◌, arith, Option-cases, ◌∙◌, string_key,
}
use agentme.Prelude.Map.{get}
use agentme.Float.{F64}
use agentme.Arbitration.Tiers.{Ruling}
use agentme.Arbitration.Session.{
  ruling_key, JurorVote, VotingSession, IterationOrder, calculate_coherence, determine_majority,
}
use agentme.Arbitration.Pool.{
  Juror, JurorPool, JurorPoolConfig, active, update_reputation, record_case,
}
use agentme.Arbitration.Pool.Service.{with_majority, release, release_jurors}
use agentme.Arbitration.Pool.Service.Invariant.{Seated, IsValid, write-Staked}

pub settled-Seated :
    (c : JurorPoolConfig) (o : IterationOrder Ruling ℕ) (s : VotingSession) (risk : ℕ)
    → Seated c s
    → Seated c (calculate_coherence o s risk).0
unfolding calculate_coherence
settled-Seated c o s risk v = elim (Option-cases (determine_majority o s.votes)) [
  | inl no_vote ↦ rw (no_vote, calculate_coherence) v
  | inr (majority, e) ↦
      rw (e, calculate_coherence)
        (record {
          votes_valid = record {
            one_each = v.votes_valid.one_each;
            by_jurors = v.votes_valid.by_jurors;
            early_empty = v.votes_valid.early_empty;
            early_hidden = v.votes_valid.early_hidden;
            open_unruled = v.votes_valid.open_unruled;
            over_ruled = v.votes_valid.over_ruled;
          };
          enough = v.enough;
          distinct = v.distinct;
        })
]

module _ {F : Type 0} ⦃fl : F64 F⦄ where
  record_case_same :
      (j : Juror F) (was_coherent : Bool) (now : ℕ)
      → ((record_case j was_coherent now).did ≡ j.did)
        × ((record_case j was_coherent now).stake_usdc ≡ j.stake_usdc)
  unfolding record_case update_reputation
  record_case_same j was_coherent now = (refl, refl)

  release-IsValid :
      (c : JurorPoolConfig) (majority : Option Ruling) (v : JurorVote) (now : ℕ) (p : JurorPool F)
      → IsValid c p
      → IsValid c (release majority v now p (get v.juror_did p.jurors))
  release-IsValid c majority v now p w = elim (Option-cases (get v.juror_did p.jurors)) [
    | inl missing ↦ rw missing w
    | inr (j, found) ↦
        let was_coherent = with_majority majority v in
        let (own, stake) = record_case_same j was_coherent now in
        rw found (record {
          configured = w.configured;
          jurors_valid =
              write-Staked c p.jurors v.juror_did
                (record (record_case j was_coherent now) { status = active }) w.jurors_valid
                (own ∙ w.jurors_valid.keyed v.juror_did j found)
                (omega (arith, stake, w.jurors_valid.staked v.juror_did j found));
          sessions_valid = w.sessions_valid;
        })
  ]

  pub release_jurors-IsValid :
      (c : JurorPoolConfig) (majority : Option Ruling) (now : ℕ) (p : JurorPool F)
      (votes : List JurorVote)
      → IsValid c p
      → IsValid c (release_jurors majority now p votes)
  unfolding release_jurors
  release_jurors-IsValid c majority now p [] w = w
  release_jurors-IsValid c majority now p (v ∷ votes) w =
      release_jurors-IsValid c majority now (release majority v now p (get v.juror_did p.jurors))
        votes (release-IsValid c majority v now p w)
