-- ===== src/Arbitration/Session/Tests.antt =====
-- A vote of three jurors (node/src/arbitration.rs), run from its opening to its results.
use agentme.Prelude.{suc, false, ◌<◌, ◌^◌}
use agentme.Prelude.{
  ℕ, ◌-◌, ◌*◌, ◌≤◌, ◌≡◌, refl, Bool, true, false, none, some, List, [], ◌∷◌, arith, if◌then◌else◌,
  length, count, retain, All, ok, String, string_key,
}
use agentme.Prelude.Tests.{String-discrete}
use agentme.Prelude.Map.{get}
use agentme.Arbitration.Tiers.{Ruling, undecided, favor_client, favor_provider}
use agentme.Arbitration.Session
use agentme.Arbitration.Session.{
  ruling_key, ℤ, pos, neg, JurorVote, VotingSession, VotingState, reveal, IterationOrder,
  determine_majority, coherent, reward_share, calculate_coherence, as_i64, voted_in,
  revealed_choices, reveal_vote, revealed_vote_count, committed_vote_count, has_voted,
}
use agentme.Arbitration.Session.Majority.{IsPlurality, determine_majority-IsPlurality}
use agentme.Arbitration.Session.Coherence.{OneEach, calculate_coherence_lem}
use agentme.Arbitration.Session.Votes
use agentme.Arbitration.Session.Histories
use agentme.Arbitration.Session.Histories.{Event, advances, commits, reveals, session-IsValid}

-- The hash map hands out its entries as they were put in.
abbrev in_order : IterationOrder Ruling ℕ
in_order = record { entries = λ m. m; entries_keys = λ m d. d; entries_get = λ m r d. refl }

abbrev vote : String → Ruling → Bool → JurorVote
vote did choice revealed = record {
  juror_did = did;
  choice = choice;
  justification = "";
  voted_at = 7;
  revealed = revealed;
  commitment = some "c";
}

abbrev votes : List JurorVote
votes =
    vote "ann" favor_client true
    ∷ vote "ben" favor_provider true
    ∷ vote "cam" favor_client true
    ∷ []

abbrev revealing : List JurorVote → VotingSession
revealing votes = record {
  dispute_id = "k1";
  jurors = "ann" ∷ "ben" ∷ "cam" ∷ [];
  votes = votes;
  state = reveal;
  required_votes = 3;
  evidence_deadline = 10;
  commit_deadline = 20;
  reveal_deadline = 30;
  final_ruling = none;
  coherence_results = [];
}

determine_majority-IsPlurality_example :
    IsPlurality (determine_majority in_order votes) (revealed_choices votes)
determine_majority-IsPlurality_example = determine_majority-IsPlurality in_order votes

each : OneEach votes
unfolding String-discrete
each = (refl, (refl, (refl, tt)))

majority : determine_majority in_order votes ≡ some favor_client
majority = unfold determine_majority in ground arith

few_votes : length (retain (λ v. v.revealed) votes) * 1000 < 2 ^ 63
few_votes = omega arith

calculate_coherence_lem_example :
    let revealed = retain (λ v. v.revealed) votes in
    let winners = count (coherent favor_client) revealed in
    let losers = length revealed - winners in
    let (s', results) = calculate_coherence in_order (revealing votes) 1000 in
    (reward : ℕ) × All
      (λ v.
        get v.juror_did results ≡ some (if coherent favor_client v then pos reward else neg 1000))
      revealed
    × ((did : String) → voted_in did revealed ≡ false → get did results ≡ none)
    × (winners * reward ≤ losers * 1000)
    × (losers * 1000 < winners * suc reward)
    × (s'.coherence_results ≡ results)
calculate_coherence_lem_example =
    calculate_coherence_lem in_order (revealing votes) 1000 favor_client each majority few_votes

-- A risk that the cast to `i64` takes below zero: the losers gain, and the winners pay.
cast_below_zero : reward_share (as_i64 (2 ^ 64 - 10)) 2 1 ≡ neg 5
unfolding reward_share
cast_below_zero = refl

abbrev events : List Event
events =
    advances in_order
    ∷ commits "ann" "c" 11
    ∷ commits "eve" "c" 12
    ∷ commits "ann" "d" 13
    ∷ advances in_order
    ∷ reveals "ann" favor_client "late"
    ∷ advances in_order
    ∷ []

session-IsValid_example :
    Votes.IsValid (Histories.run (Session.new "k1" ("ann" ∷ "ben" ∷ "cam" ∷ []) 3 9) events)
session-IsValid_example = session-IsValid "k1" ("ann" ∷ "ben" ∷ "cam" ∷ []) 3 9 events

abbrev before : VotingSession
before = revealing (vote "ann" undecided false ∷ [])

abbrev after : VotingSession
after = revealing (record (vote "ann" favor_client true) { justification = "late" } ∷ [])

accepted : reveal_vote before "ann" favor_client "late" ≡ ok after
unfolding reveal_vote String-discrete
accepted = refl
