-- ===== src/Arbitration/Session/Reveal.antt =====
-- What a reveal does to a session.
use agentme.Prelude.{
  ◌+◌, ◌≡◌, refl, inl, inr, true, false, not, List, [], ◌∷◌, arith, count, ◌∙◌, ap, subst, String,
  string_key, ok, Result-cases,
}
use agentme.Arbitration.Tiers.{Ruling}
use agentme.Arbitration.Session.{
  ruling_key, JurorVote, reveal, VotingSession, voted_in, has_voted, revealed_vote_count,
  committed_vote_count, reveal_in, reveal_vote,
}
use agentme.Arbitration.Session.Coherence.{OneEach}
use agentme.Arbitration.Session.Votes.{IsValid, ByJurors}

-- A reveal changes one hidden vote into a revealed one of the same juror.
record Revealed (votes votes' : List JurorVote) : Type 0 where
  same_voters : (did : String) → voted_in did votes' ≡ voted_in did votes
  still_one_each : OneEach votes → OneEach votes'
  still_by_jurors : (jurors : List String) → ByJurors jurors votes → ByJurors jurors votes'
  one_more : count (λ v. v.revealed) votes' ≡ count (λ v. v.revealed) votes + 1
  one_less : count (λ v. not v.revealed) votes' + 1 ≡ count (λ v. not v.revealed) votes

Revealed-here :
    (v : JurorVote) (votes : List JurorVote) (choice : Ruling) (why : String)
    → v.revealed ≡ false
    → Revealed
        (v ∷ votes)
        (record v { choice = choice; justification = why; revealed = true } ∷ votes)
Revealed-here v votes choice why h = record {
  same_voters = λ did. refl;
  still_one_each = λ o. o;
  still_by_jurors = λ jurors b. b;
  one_more = ground arith;
  one_less = ground arith;
}

Revealed-there :
    (v : JurorVote) (votes rest : List JurorVote)
    → Revealed votes rest
    → Revealed (v ∷ votes) (v ∷ rest)
Revealed-there v votes rest r = record {
  same_voters = λ did. ground (arith, r.same_voters did);
  still_one_each = λ o. (r.same_voters v.juror_did ∙ o.0, r.still_one_each o.1);
  still_by_jurors = λ jurors b. (b.0, r.still_by_jurors jurors b.1);
  one_more = ground (arith, r.one_more);
  one_less = ground (arith, r.one_less);
}

reveal_in-Revealed :
    (votes votes' : List JurorVote) (did : String) (choice : Ruling) (why : String)
    → reveal_in votes did choice why ≡ ok votes'
    → Revealed votes votes'
unfolding reveal_in
reveal_in-Revealed [] votes' did choice why h = absurd (ground arith)
reveal_in-Revealed (v ∷ votes) votes' did choice why h = elim (string_key.equal v.juror_did did) [
  | yes p ↦
      subst (Revealed (v ∷ votes)) (ground arith) (Revealed-here v votes choice why (ground arith))
  | no n ↦ elim (Result-cases (reveal_in votes did choice why)) [
    | inl (rest, e) ↦
        subst (Revealed (v ∷ votes)) {x = v ∷ rest} (ground arith)
          (Revealed-there v votes rest (reveal_in-Revealed votes rest did choice why e))
    | inr (x, e) ↦ absurd (ground arith)
  ]
]

-- A reveal is accepted only in the reveal period; it makes exactly one hidden vote a revealed one
-- and leaves the voters, the state and the ruling as they are.
reveal_vote_lem :
    (s t : VotingSession) (did : String) (choice : Ruling) (why : String)
    → reveal_vote s did choice why ≡ ok t
    → (s.state ≡ reveal)
      × (revealed_vote_count t ≡ revealed_vote_count s + 1)
      × (committed_vote_count t + 1 ≡ committed_vote_count s)
      × ((other : String) → has_voted t other ≡ has_voted s other)
      × (t.state ≡ s.state)
      × (t.final_ruling ≡ s.final_ruling)
unfolding reveal_vote revealed_vote_count committed_vote_count has_voted
reveal_vote_lem s t did choice why h = elim (Result-cases (reveal_in s.votes did choice why)) [
  | inl (votes, e) ↦
      let r = reveal_in-Revealed s.votes votes did choice why e in
      let result : t ≡ record s { votes = votes } = ground arith in
      (
        ground arith,
        rw result r.one_more,
        rw result r.one_less,
        λ other. rw result (r.same_voters other),
        ap (λ x. x.state) result,
        ap (λ x. x.final_ruling) result,
      )
  | inr (x, e) ↦ absurd (ground arith)
]

pub reveal_vote-IsValid :
    (s t : VotingSession) (did : String) (choice : Ruling) (why : String)
    → reveal_vote s did choice why ≡ ok t
    → IsValid s
    → IsValid t
unfolding reveal_vote
reveal_vote-IsValid s t did choice why h v =
    elim (Result-cases (reveal_in s.votes did choice why)) [
      | inl (votes, e) ↦
          let r = reveal_in-Revealed s.votes votes did choice why e in
          subst IsValid {x = record s { votes = votes }} (ground arith) (record {
            one_each = r.still_one_each v.one_each;
            by_jurors = r.still_by_jurors s.jurors v.by_jurors;
            early_empty = λ x. absurd (ground arith);
            early_hidden = λ x. absurd (ground arith);
            open_unruled = v.open_unruled;
            over_ruled = λ x. absurd (ground arith);
          })
      | inr (x, e) ↦ absurd (ground arith)
    ]
