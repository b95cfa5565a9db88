-- ===== src/Arbitration/Session.antt =====
-- `VotingSession` and `JurorVote` (node/src/arbitration.rs): the commit-reveal vote of the third
-- tier. The methods that the pool runs under its lock on one session are functions of the session
-- here. An amount is an `i64`, whose casts and operations wrap.
pub mod Majority
pub mod Votes
pub mod Reveal
pub mod Histories
pub mod Coherence
mod Tests
use agentme.Prelude.{
  ℕ, zero, suc, ◌+◌, ◌-◌, ◌*◌, ◌/◌, ◌%◌, ◌^◌, Bool, true, false, not, ◌&&◌, Option, none, some,
  List, [], ◌∷◌, ◌++◌, map, ◌≡◌, ltb, leb, ◌==◌, if◌then◌else◌, length, count, retain, contains,
  String, string_key, Key, Result, ok, err, ◌>>=◌, ◌>>◌, guard, ite,
}
use agentme.Prelude.Map.{Map, get, insert, or_zero, DistinctKeys}
use agentme.Arbitration.Tiers.{Ruling, undecided}

unfoldable pub Ruling-discrete : Discrete Ruling
Ruling-discrete = hlevel

instance abbrev pub ruling_key : Key Ruling
ruling_key = record { equal = Ruling-discrete }

pub record JurorVote : Type 0 where
  pub juror_did : String
  pub choice : Ruling
  pub justification : String
  pub voted_at : ℕ
  pub revealed : Bool
  pub commitment : Option String

pub data VotingState : Type 0 where
  evidence commit reveal completed appeal : VotingState

pub data ℤ : Type 0 where
  pos : ℕ → ℤ
  negsuc : ℕ → ℤ

abbrev pub neg : ℕ → ℤ
neg zero = pos 0
neg (suc n) = negsuc n

-- `as i64` of a `u64`, and the `i64` with these bits.
abbrev pub as_i64 : ℕ → ℤ
as_i64 n = let bits = n % 2 ^ 64 in if ltb bits (2 ^ 63) then pos bits else neg (2 ^ 64 - bits)

-- `count * x`, `x / count` and `-x` on `i64`; a product and the negation of the least number wrap.
abbrev pub times : ℕ → ℤ → ℤ
times count (pos x) = as_i64 (count * x)
times count (negsuc x) = as_i64 (2 ^ 64 - (count * (x + 1)) % 2 ^ 64)

abbrev pub divided : ℤ → ℕ → ℤ
divided (pos x) count = pos (x / count)
divided (negsuc x) count = neg ((x + 1) / count)

abbrev pub negated : ℤ → ℤ
negated (pos x) = neg x
negated (negsuc x) = as_i64 (x + 1)

pub record VotingSession : Type 0 where
  pub dispute_id : String
  pub jurors : List String
  pub votes : List JurorVote
  pub state : VotingState
  pub required_votes : ℕ
  pub evidence_deadline : ℕ
  pub commit_deadline : ℕ
  pub reveal_deadline : ℕ
  pub final_ruling : Option Ruling
  pub coherence_results : Map String ℤ

pub data Error : Type 0 where
  wrong_state : VotingState → Error
  not_a_juror already_voted no_commit already_revealed final_state : Error

unfoldable pub commit_of : String → String → ℕ → JurorVote
commit_of juror_did commitment now = record {
  juror_did = juror_did;
  choice = undecided;
  justification = "";
  voted_at = now;
  revealed = false;
  commitment = some commitment;
}

unfoldable pub new : String → List String → ℕ → ℕ → VotingSession
new dispute_id jurors required_votes now =
    let evidence_deadline = now + 24 * 3600 in
    let commit_deadline = evidence_deadline + 12 * 3600 in
    record {
      dispute_id = dispute_id;
      jurors = jurors;
      votes = [];
      state = evidence;
      required_votes = required_votes;
      evidence_deadline = evidence_deadline;
      commit_deadline = commit_deadline;
      reveal_deadline = commit_deadline + 12 * 3600;
      final_ruling = none;
      coherence_results = [];
    }

unfoldable pub has_juror : VotingSession → String → Bool
has_juror s juror_did = contains juror_did s.jurors

abbrev pub voted_in : String → List JurorVote → Bool
voted_in did [] = false
voted_in did (v ∷ votes) = ite (string_key.equal v.juror_did did) true (voted_in did votes)

unfoldable pub has_voted : VotingSession → String → Bool
has_voted s juror_did = voted_in juror_did s.votes

unfoldable pub revealed_vote_count : VotingSession → ℕ
revealed_vote_count s = count (λ v. v.revealed) s.votes

unfoldable pub committed_vote_count : VotingSession → ℕ
committed_vote_count s = count (λ v. not v.revealed) s.votes

abbrev pub revealed_choices : List JurorVote → List Ruling
revealed_choices votes = map (λ v. v.choice) (retain (λ v. v.revealed) votes)

-- `*counts.entry(choice).or_insert(0) += 1`, over the choices.
unfoldable pub count_choices : Map Ruling ℕ → List Ruling → Map Ruling ℕ
count_choices counts [] = counts
count_choices counts (r ∷ rs) = count_choices (insert r (or_zero (get r counts) + 1) counts) rs

-- `max_by_key`: of several largest the last one.
unfoldable pub last_max : Ruling × ℕ → Map Ruling ℕ → Ruling × ℕ
last_max best [] = best
last_max best (e ∷ counts) = last_max (if ltb e.1 best.1 then best else e) counts

abbrev pub max_ruling : Map Ruling ℕ → Option Ruling
max_ruling [] = none
max_ruling (e ∷ counts) = some ((last_max e counts).0)

-- The order in which a `HashMap` hands out its entries, once each: it is seeded at random.
pub record IterationOrder (K V : Type 0) ⦃k : Key K⦄ : Type 0 where
  pub entries : Map K V → Map K V
  pub entries_keys : (m : Map K V) → DistinctKeys m → DistinctKeys (entries m)
  pub entries_get : (m : Map K V) (a : K) → DistinctKeys m → get a (entries m) ≡ get a m

unfoldable pub determine_majority : IterationOrder Ruling ℕ → List JurorVote → Option Ruling
unfolding last_max count_choices
determine_majority o votes = max_ruling (o.entries (count_choices [] (revealed_choices votes)))

-- `advance_session_state`, on the session.
abbrev pub advance_from :
    VotingState → IterationOrder Ruling ℕ → VotingSession → Result Error VotingSession
advance_from evidence o s = ok (record s { state = commit })
advance_from commit o s = ok (record s { state = reveal })
advance_from reveal o s =
    ok (record s { state = completed; final_ruling = determine_majority o s.votes })
advance_from completed o s = ok (record s { state = appeal })
advance_from appeal o s = err final_state

unfoldable pub advance : IterationOrder Ruling ℕ → VotingSession → Result Error VotingSession
advance o s = advance_from s.state o s

abbrev pub is_commit : VotingState → Bool
is_commit commit = true
is_commit _ = false

abbrev pub is_reveal : VotingState → Bool
is_reveal reveal = true
is_reveal _ = false

abbrev pub is_completed : VotingState → Bool
is_completed completed = true
is_completed _ = false

-- `commit_vote`, on the session.
unfoldable pub commit_vote : VotingSession → String → String → ℕ → Result Error VotingSession
unfolding has_juror has_voted
commit_vote s juror_did commitment now = do
  guard (is_commit s.state) (wrong_state s.state)
  guard (has_juror s juror_did) not_a_juror
  guard (not (has_voted s juror_did)) already_voted
  ok (record s { votes = s.votes ++ (commit_of juror_did commitment now ∷ []) })

abbrev pub reveal_first : JurorVote → Ruling → String → Result Error JurorVote
reveal_first v choice justification =
    if v.revealed
    then err already_revealed
    else ok (record v { choice = choice; justification = justification; revealed = true })

abbrev pub first_changed : List JurorVote → Result Error JurorVote → Result Error (List JurorVote)
first_changed votes (ok v) = ok (v ∷ votes)
first_changed votes (err e) = err e

abbrev pub rest_changed : JurorVote → Result Error (List JurorVote) → Result Error (List JurorVote)
rest_changed v (ok votes) = ok (v ∷ votes)
rest_changed v (err e) = err e

-- The first vote of the juror, revealed in place.
unfoldable pub reveal_in : List JurorVote → String → Ruling → String → Result Error (List JurorVote)
reveal_in [] did choice justification = err no_commit
reveal_in (v ∷ votes) did choice justification =
    ite (string_key.equal v.juror_did did)
      (first_changed votes (reveal_first v choice justification))
      (rest_changed v (reveal_in votes did choice justification))

-- `reveal_vote`, on the session.
unfoldable pub reveal_vote : VotingSession → String → Ruling → String → Result Error VotingSession
unfolding reveal_in
reveal_vote s juror_did choice justification = do
  guard (is_reveal s.state) (wrong_state s.state)
  votes ← reveal_in s.votes juror_did choice justification
  ok (record s { votes = votes })

abbrev pub coherent : Ruling → JurorVote → Bool
coherent majority v = ite (ruling_key.equal v.choice majority) true false

-- The pool of the incoherent jurors, shared among the coherent.
unfoldable pub reward_share : ℤ → ℕ → ℕ → ℤ
reward_share risk coherent_count incoherent_count =
    if ltb 0 coherent_count && ltb 0 incoherent_count
    then divided (times incoherent_count risk) coherent_count
    else pos 0

unfoldable pub pay : Ruling → ℤ → ℤ → Map String ℤ → List JurorVote → Map String ℤ
pay majority reward loss results [] = results
pay majority reward loss results (v ∷ votes) =
    pay majority reward loss
      (insert v.juror_did (if coherent majority v then reward else loss) results) votes

abbrev pub settle_votes : Ruling → ℕ → List JurorVote → Map String ℤ
settle_votes majority stake_at_risk revealed =
    let coherent_count = count (coherent majority) revealed in
    let incoherent_count = length revealed - coherent_count in
    let risk = as_i64 stake_at_risk in
    pay majority (reward_share risk coherent_count incoherent_count) (negated risk) [] revealed

unfoldable pub calculate_coherence :
    IterationOrder Ruling ℕ → VotingSession → ℕ → VotingSession × Map String ℤ
calculate_coherence o s stake_at_risk = elim (determine_majority o s.votes) [
  | none ↦ (s, [])
  | some majority ↦ (
    record s {
      coherence_results = settle_votes majority stake_at_risk (retain (λ v. v.revealed) s.votes);
    },
    settle_votes majority stake_at_risk (retain (λ v. v.revealed) s.votes),
  )
]
