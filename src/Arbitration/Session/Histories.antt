-- ===== src/Arbitration/Session/Histories.antt =====
-- A session from its evidence period to its appeal.
use agentme.Prelude.{ℕ, ◌≡◌, refl, List, [], ◌∷◌, String, string_key, Result, ok, err}
use agentme.Arbitration.Tiers.{Ruling}
use agentme.Arbitration.Session.{
  ruling_key, VotingSession, Error, new, IterationOrder, advance, commit_vote, reveal_vote,
}
use agentme.Arbitration.Session.Votes.{IsValid, new-IsValid, advance-IsValid, commit_vote-IsValid}
use agentme.Arbitration.Session.Reveal.{reveal_vote-IsValid}

-- What happens to a session; an event that is refused changes nothing.
pub data Event : Type 0 where
  advances : IterationOrder Ruling ℕ → Event
  commits : String → String → ℕ → Event
  reveals : String → Ruling → String → Event

abbrev pub after : VotingSession → Result Error VotingSession → VotingSession
after s (ok t) = t
after s (err e) = s

unfoldable pub apply : VotingSession → Event → VotingSession
apply s (advances o) = after s (advance o s)
apply s (commits did commitment now) = after s (commit_vote s did commitment now)
apply s (reveals did choice why) = after s (reveal_vote s did choice why)

unfoldable pub run : VotingSession → List Event → VotingSession
run s [] = s
run s (e ∷ es) = run (apply s e) es

after-IsValid :
    (s : VotingSession) (r : Result Error VotingSession)
    → ((t : VotingSession) → r ≡ ok t → IsValid t)
    → IsValid s
    → IsValid (after s r)
after-IsValid s (ok t) h v = h t refl
after-IsValid s (err e) h v = v

apply-IsValid : (s : VotingSession) (e : Event) → IsValid s → IsValid (apply s e)
unfolding apply
apply-IsValid s (advances o) v = after-IsValid s (advance o s) (λ t h. advance-IsValid o s t h v) v
apply-IsValid s (commits did commitment now) v =
    after-IsValid s (commit_vote s did commitment now)
      (λ t h. commit_vote-IsValid s t did commitment now h v) v
apply-IsValid s (reveals did choice why) v =
    after-IsValid s (reveal_vote s did choice why)
      (λ t h. reveal_vote-IsValid s t did choice why h v) v

run-IsValid : (s : VotingSession) (es : List Event) → IsValid s → IsValid (run s es)
unfolding run
run-IsValid s [] v = v
run-IsValid s (e ∷ es) v = run-IsValid (apply s e) es (apply-IsValid s e v)

-- After any events on a new session, accepted or refused and in any order, only jurors of the
-- session have votes, each at most one; nothing is committed before the commit period or shown
-- before the reveal period; there is no final ruling before the vote is over, and from then on the
-- final ruling is a plurality of the revealed votes, or none if no vote is revealed.
pub session-IsValid :
    (id : String) (jurors : List String) (required now : ℕ) (es : List Event)
    → IsValid (run (new id jurors required now) es)
session-IsValid id jurors required now es =
    run-IsValid (new id jurors required now) es (new-IsValid id jurors required now)
