-- ===== src/Arbitration/Session/Coherence.antt =====
-- What the jurors get and lose.
use agentme.Prelude.{
  ℕ, suc, ◌/◌, ◌^◌, ◌-◌, ◌*◌, ◌≤◌, ◌<◌, none, subst, ap, dec_lt, ◌≡◌, refl, Bool, true, false, some,
  List, [], ◌∷◌, arith, if◌then◌else◌, length, retain, count, ◌∙◌, sym, String, string_key, if_pos,
  if_neg, All,
}
use native.Mathlib.Nat.{mul-div-le, lt-mul-div-succ}
use agentme.Prelude.Map.{Map, get, insert, get-insert_self, get-insert_ne}
use agentme.Arbitration.Tiers.{Ruling}
use agentme.Arbitration.Session.{
  ruling_key, ℤ, pos, neg, JurorVote, voted_in, IterationOrder, VotingSession, determine_majority,
  coherent, reward_share, pay, calculate_coherence, as_i64, negated, revealed_choices,
}
use agentme.Arbitration.Session.Majority.{votes_for, IsPlurality, determine_majority-IsPlurality}

-- No juror has two votes.
abbrev pub OneEach : List JurorVote → Type 0
OneEach [] = Unit
OneEach (v ∷ votes) = (voted_in v.juror_did votes ≡ false) × OneEach votes

abbrev amount : Ruling → ℤ → ℤ → JurorVote → ℤ
amount majority reward loss v = if coherent majority v then reward else loss

pay_other :
    (majority : Ruling) (reward loss : ℤ) (results : Map String ℤ) (votes : List JurorVote)
    (did : String)
    → voted_in did votes ≡ false
    → get did (pay majority reward loss results votes) ≡ get did results
unfolding pay
pay_other majority reward loss results [] did h = refl
pay_other majority reward loss results (v ∷ votes) did h = elim (string_key.equal v.juror_did did) [
  | yes p ↦
      absurd (contradiction (if_pos (string_key.equal v.juror_did did) p true (voted_in did votes)))
  | no n ↦
      pay_other majority reward loss (insert v.juror_did (amount majority reward loss v) results)
        votes did (sym (if_neg (string_key.equal v.juror_did did) n true (voted_in did votes)) ∙ h)
      ∙ get-insert_ne v.juror_did did (amount majority reward loss v) results n
]
  where
    contradiction : voted_in did (v ∷ votes) ≡ true → ⊥
    contradiction e = cc

pay_each :
    (majority : Ruling) (reward loss : ℤ) (results : Map String ℤ) (votes : List JurorVote)
    → OneEach votes
    → All
        (λ v.
          get v.juror_did (pay majority reward loss results votes)
          ≡ some (amount majority reward loss v))
        votes
unfolding pay
pay_each majority reward loss results [] o = tt
pay_each majority reward loss results (v ∷ votes) o = (
  pay_other majority reward loss (insert v.juror_did (amount majority reward loss v) results) votes
        v.juror_did o.0
      ∙ get-insert_self v.juror_did (amount majority reward loss v) results,
  pay_each majority reward loss (insert v.juror_did (amount majority reward loss v) results) votes
      o.1,
)

voted_in-retain :
    (p : JurorVote → Bool) (did : String) (votes : List JurorVote)
    → voted_in did votes ≡ false
    → voted_in did (retain p votes) ≡ false
voted_in-retain p did [] h = refl
voted_in-retain p did (v ∷ votes) h = ground (arith, voted_in-retain p did votes)

retain-OneEach :
    (p : JurorVote → Bool) (votes : List JurorVote) → OneEach votes → OneEach (retain p votes)
retain-OneEach p [] o = tt
retain-OneEach p (v ∷ votes) o =
    ground (arith, retain-OneEach p votes o.1, voted_in-retain p v.juror_did votes)

as_i64_small : (n : ℕ) → n < 2 ^ 63 → as_i64 n ≡ pos n
as_i64_small n h = ground arith

-- The `i64` arithmetic is exact where nothing reaches its bound.
reward_share_exact :
    (risk c i : ℕ)
    → 0 < c
    → risk < 2 ^ 63
    → i * risk < 2 ^ 63
    → reward_share (as_i64 risk) c i ≡ pos (i * risk / c)
unfolding reward_share
reward_share_exact risk c i h small product =
    ap (λ r. reward_share r c i) (as_i64_small risk small) ∙ elim (dec_lt 0 i) [
      | yes some_lose ↦ ground (arith, as_i64_small (i * risk) product)
      | no none_lose ↦
          let zero_losers : i ≡ 0 = omega arith in
          let nothing_lost : 0 * risk / c ≡ 0 = grind arith in
          rw zero_losers (ground (arith, nothing_lost))
    ]

loss_exact : (risk : ℕ) → risk < 2 ^ 63 → negated (as_i64 risk) ≡ neg risk
loss_exact risk small = ap negated (as_i64_small risk small)

winners_for :
    (majority : Ruling) (votes : List JurorVote)
    → votes_for majority (revealed_choices votes)
      ≡ count (coherent majority) (retain (λ v. v.revealed) votes)
winners_for majority [] = refl
winners_for majority (v ∷ votes) = ground (arith, winners_for majority votes)

quotient_bound : (n c : ℕ) → 0 < c → n < c * suc (n / c)
quotient_bound n c h = subst (λ k. n < c * k) (omega arith) (lt-mul-div-succ n h)

majority_won :
    (o : IterationOrder Ruling ℕ) (votes : List JurorVote) (majority : Ruling)
    → determine_majority o votes ≡ some majority
    → 0 < count (coherent majority) (retain (λ v. v.revealed) votes)
majority_won o votes majority e =
    let (won, unbeaten) =
      subst (λ r. IsPlurality r (revealed_choices votes)) e
        (determine_majority-IsPlurality o votes) in
    subst (λ n. 0 < n) (winners_for majority votes) won

count-length : (p : JurorVote → Bool) (votes : List JurorVote) → count p votes ≤ length votes
count-length p [] = omega arith
count-length p (v ∷ votes) = ground (arith, count-length p votes)

within : (n risk winners : ℕ) → 0 < winners → winners ≤ n → n * risk < 2 ^ 63 → risk < 2 ^ 63
within n risk winners h le room = grind arith

fewer : (n winners risk : ℕ) → n * risk < 2 ^ 63 → (n - winners) * risk < 2 ^ 63
fewer n winners risk room = grind arith

-- Where no juror votes twice, there is a majority, and the stake at risk times the revealed votes
-- stays below 2^63, each juror who revealed a vote gets the same reward if the vote is with the
-- majority and loses the stake at risk if not, and the others get nothing. The rewards together are
-- no more than the losses, and one more for each winner would be more. The results are stored in the
-- session.
pub calculate_coherence_lem :
    (o : IterationOrder Ruling ℕ) (s : VotingSession) (risk : ℕ) (majority : Ruling)
    → OneEach s.votes
    → determine_majority o s.votes ≡ some majority
    → length (retain (λ v. v.revealed) s.votes) * risk < 2 ^ 63
    → let revealed = retain (λ v. v.revealed) s.votes in
      let winners = count (coherent majority) revealed in
      let losers = length revealed - winners in
      let (s', results) = calculate_coherence o s risk in
      (reward : ℕ) × All
        (λ v. get v.juror_did results ≡ some (if coherent majority v then pos reward else neg risk))
        revealed
      × ((did : String) → voted_in did revealed ≡ false → get did results ≡ none)
      × (winners * reward ≤ losers * risk)
      × (losers * risk < winners * suc reward)
      × (s'.coherence_results ≡ results)
unfolding calculate_coherence
calculate_coherence_lem o s risk majority each e room =
    let revealed = retain (λ v. v.revealed) s.votes in
    let winners = count (coherent majority) revealed in
    let losers = length revealed - winners in
    let won : 0 < winners = majority_won o s.votes majority e in
    let small : risk < 2 ^ 63 =
      within (length revealed) risk winners won (count-length (coherent majority) revealed) room in
    let lost : losers * risk < 2 ^ 63 = fewer (length revealed) winners risk room in
    let exact_share = reward_share_exact risk winners losers won small lost in
    let exact_loss = loss_exact risk small in
    rw (e, calculate_coherence, exact_share, exact_loss)
      (
        losers * risk / winners,
        pay_each majority (pos (losers * risk / winners)) (neg risk) [] revealed
            (retain-OneEach (λ v. v.revealed) s.votes each),
        (λ did h. pay_other majority (pos (losers * risk / winners)) (neg risk) [] revealed did h),
        mul-div-le (losers * risk) winners,
        quotient_bound (losers * risk) winners won,
        refl,
      )
