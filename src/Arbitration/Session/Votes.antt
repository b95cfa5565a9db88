-- ===== src/Arbitration/Session/Votes.antt =====
-- What holds of a session between any two calls, and how `advance` and `commit_vote` keep it.
use agentme.Prelude.{
  ℕ, ◌≡◌, refl, Bool, true, false, none, List, [], ◌∷◌, ◌++◌, arith, contains, ite, count,
  count-append, subst, String, string_key, ok,
}
use agentme.Arbitration.Tiers.{Ruling}
use agentme.Arbitration.Session.{
  ruling_key, JurorVote, VotingState, evidence, commit, reveal, completed, appeal, VotingSession,
  commit_of, new, voted_in, revealed_choices, IterationOrder, determine_majority, advance,
  commit_vote,
}
use agentme.Arbitration.Session.Majority.{IsPlurality, determine_majority-IsPlurality}
use agentme.Arbitration.Session.Coherence.{OneEach}

-- Every vote is that of a juror of the session.
abbrev pub ByJurors : List String → List JurorVote → Type 0
ByJurors jurors [] = Unit
ByJurors jurors (v ∷ votes) = (contains v.juror_did jurors ≡ true) × ByJurors jurors votes

abbrev pub is_over : VotingState → Bool
is_over completed = true
is_over appeal = true
is_over _ = false

abbrev pub may_hold_votes : VotingState → Bool
may_hold_votes evidence = false
may_hold_votes _ = true

abbrev pub may_hold_revealed : VotingState → Bool
may_hold_revealed evidence = false
may_hold_revealed commit = false
may_hold_revealed _ = true

-- Only jurors vote, once each; votes come with the commit period and are shown with the reveal
-- period; there is no final ruling before the vote is over, and then it is a plurality of the
-- revealed votes, or none if none is revealed.
pub record IsValid (s : VotingSession) : Type 0 where
  pub one_each : OneEach s.votes
  pub by_jurors : ByJurors s.jurors s.votes
  pub early_empty : may_hold_votes s.state ≡ false → s.votes ≡ []
  pub early_hidden : may_hold_revealed s.state ≡ false → count (λ v. v.revealed) s.votes ≡ 0
  pub open_unruled : is_over s.state ≡ false → s.final_ruling ≡ none
  pub over_ruled : is_over s.state ≡ true → IsPlurality s.final_ruling (revealed_choices s.votes)

pub new-IsValid :
    (id : String) (jurors : List String) (required now : ℕ) → IsValid (new id jurors required now)
unfolding new
new-IsValid id jurors required now = record {
  one_each = tt;
  by_jurors = tt;
  early_empty = λ h. refl;
  early_hidden = λ h. refl;
  open_unruled = λ h. refl;
  over_ruled = λ h. cc;
}

pub advance-IsValid :
    (o : IterationOrder Ruling ℕ) (s t : VotingSession) → advance o s ≡ ok t → IsValid s → IsValid t
unfolding advance
advance-IsValid o s t h v = from s.state refl
  where
    from : (st : VotingState) → s.state ≡ st → IsValid t
    from evidence e = subst IsValid {x = record s { state = commit }} (ground arith) (record {
      one_each = v.one_each;
      by_jurors = v.by_jurors;
      early_empty = λ x. cc;
      early_hidden = λ x. v.early_hidden (ground arith);
      open_unruled = λ x. v.open_unruled (ground arith);
      over_ruled = λ x. cc;
    })
    from commit e = subst IsValid {x = record s { state = reveal }} (ground arith) (record {
      one_each = v.one_each;
      by_jurors = v.by_jurors;
      early_empty = λ x. cc;
      early_hidden = λ x. cc;
      open_unruled = λ x. v.open_unruled (ground arith);
      over_ruled = λ x. cc;
    })
    from reveal e =
        subst IsValid
          {x = record s { state = completed; final_ruling = determine_majority o s.votes }}
          (ground arith)
          (record {
            one_each = v.one_each;
            by_jurors = v.by_jurors;
            early_empty = λ x. cc;
            early_hidden = λ x. cc;
            open_unruled = λ x. cc;
            over_ruled = λ x. determine_majority-IsPlurality o s.votes;
          })
    from completed e = subst IsValid {x = record s { state = appeal }} (ground arith) (record {
      one_each = v.one_each;
      by_jurors = v.by_jurors;
      early_empty = λ x. cc;
      early_hidden = λ x. cc;
      open_unruled = λ x. cc;
      over_ruled = λ x. v.over_ruled (ground arith);
    })
    from appeal e = absurd (ground arith)

voted_in-append :
    (did : String) (xs : List JurorVote) (v : JurorVote)
    → voted_in did (xs ++ (v ∷ [])) ≡ ite (string_key.equal v.juror_did did) true (voted_in did xs)
voted_in-append did [] v = refl
voted_in-append did (x ∷ xs) v = ground (arith, voted_in-append did xs v)

OneEach-append :
    (xs : List JurorVote) (v : JurorVote)
    → OneEach xs
    → voted_in v.juror_did xs ≡ false
    → OneEach (xs ++ (v ∷ []))
OneEach-append [] v o h = (refl, tt)
OneEach-append (x ∷ xs) v o h =
    ground (arith, OneEach-append xs v o.1, voted_in-append x.juror_did xs v)

ByJurors-append :
    (jurors : List String) (xs : List JurorVote) (v : JurorVote)
    → ByJurors jurors xs
    → contains v.juror_did jurors ≡ true
    → ByJurors jurors (xs ++ (v ∷ []))
ByJurors-append jurors [] v b h = (h, tt)
ByJurors-append jurors (x ∷ xs) v b h = (b.0, ByJurors-append jurors xs v b.1 h)

pub commit_vote-IsValid :
    (s t : VotingSession) (did commitment : String) (now : ℕ)
    → commit_vote s did commitment now ≡ ok t
    → IsValid s
    → IsValid t
unfolding commit_vote commit_of
commit_vote-IsValid s t did commitment now h v =
    subst IsValid {x = record s { votes = s.votes ++ (commit_of did commitment now ∷ []) }}
      (ground arith)
      (record {
        one_each = OneEach-append s.votes (commit_of did commitment now) v.one_each (ground arith);
        by_jurors =
            ByJurors-append s.jurors s.votes (commit_of did commitment now) v.by_jurors
              (ground arith);
        early_empty = λ x. absurd (ground arith);
        early_hidden = λ x. ground (
          arith,
          v.early_hidden x,
          count-append (λ u. u.revealed) s.votes (commit_of did commitment now ∷ []),
        );
        open_unruled = v.open_unruled;
        over_ruled = λ x. absurd (ground arith);
      })
