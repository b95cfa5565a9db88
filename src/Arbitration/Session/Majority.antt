-- ===== src/Arbitration/Session/Majority.antt =====
-- What the majority of a vote is, whatever order the hash map hands out its entries in.
use agentme.Prelude.{
  ℕ, suc, ◌+◌, ◌≤◌, ◌<◌, ◌≡◌, refl, ◌⊎◌, inl, inr, false, Option, none, some, List, [], ◌∷◌, arith,
  ltb, lt→ltb, ite, Option-cases, ◌∙◌, sym, ap, dec_lt,
}
use agentme.Prelude.Map.{Map, get, insert, or_zero, DistinctKeys, get-insert, insert-DistinctKeys}
use agentme.Arbitration.Tiers.{Ruling}
use agentme.Arbitration.Session.{
  ruling_key, JurorVote, revealed_choices, count_choices, last_max, max_ruling, IterationOrder,
  determine_majority,
}

-- How many of the choices are the ruling.
abbrev pub votes_for : Ruling → List Ruling → ℕ
votes_for r [] = 0
votes_for r (q ∷ rs) = ite (ruling_key.equal q r) (suc (votes_for r rs)) (votes_for r rs)

count_choices_exact :
    (counts : Map Ruling ℕ) (rs : List Ruling) (r : Ruling)
    → or_zero (get r (count_choices counts rs)) ≡ or_zero (get r counts) + votes_for r rs
unfolding count_choices
count_choices_exact counts [] r = omega arith
count_choices_exact counts (q ∷ rs) r = ground (
  arith,
  count_choices_exact (insert q (or_zero (get q counts) + 1) counts) rs r,
  get-insert q r (or_zero (get q counts) + 1) counts,
)

count_choices-DistinctKeys :
    (counts : Map Ruling ℕ) (rs : List Ruling)
    → DistinctKeys counts
    → DistinctKeys (count_choices counts rs)
unfolding count_choices
count_choices-DistinctKeys counts [] d = d
count_choices-DistinctKeys counts (q ∷ rs) d =
    count_choices-DistinctKeys (insert q (or_zero (get q counts) + 1) counts) rs
      (insert-DistinctKeys q (or_zero (get q counts) + 1) counts d)

-- Every entry counts at least one vote.
abbrev AllPositive : Map Ruling ℕ → Type 0
AllPositive m = (r : Ruling) (n : ℕ) → get r m ≡ some n → 0 < n

count_choices-AllPositive :
    (counts : Map Ruling ℕ) (rs : List Ruling)
    → AllPositive counts
    → AllPositive (count_choices counts rs)
unfolding count_choices
count_choices-AllPositive counts [] p = p
count_choices-AllPositive counts (q ∷ rs) p =
    count_choices-AllPositive (insert q (or_zero (get q counts) + 1) counts) rs
      (λ r n h. ground (arith, p r n, get-insert q r (or_zero (get q counts) + 1) counts))

-- The largest of the best so far and the entries; it is one of them.
record Largest (best : Ruling × ℕ) (m : Map Ruling ℕ) (top : Ruling × ℕ) : Type 0 where
  over_best : best.1 ≤ top.1
  over_all : (r : Ruling) (n : ℕ) → get r m ≡ some n → n ≤ top.1
  one_of : (top ≡ best) ⊎ (get top.0 m ≡ some top.1)

ltb_no : (a b : ℕ) → (a < b → ⊥) → ltb a b ≡ false
ltb_no a b h = ground arith

keep_best :
    (best e : Ruling × ℕ) (m : Map Ruling ℕ) (top : Ruling × ℕ)
    → e.1 ≤ best.1
    → DistinctKeys (e ∷ m)
    → Largest best m top
    → Largest best (e ∷ m) top
keep_best best e m top le d l = record {
  over_best = l.over_best;
  over_all = λ q n h. ground (arith, l.over_best, l.over_all q n);
  one_of = ground (arith, l.one_of);
}

take_next :
    (best e : Ruling × ℕ) (m : Map Ruling ℕ) (top : Ruling × ℕ)
    → best.1 ≤ e.1
    → DistinctKeys (e ∷ m)
    → Largest e m top
    → Largest best (e ∷ m) top
take_next best e m top le d l = record {
  over_best = omega (arith, l.over_best);
  over_all = λ q n h. ground (arith, l.over_best, l.over_all q n);
  one_of = inr (ground (arith, l.one_of));
}

last_max-Largest :
    (best : Ruling × ℕ) (m : Map Ruling ℕ)
    → get best.0 m ≡ none
    → DistinctKeys m
    → Largest best m (last_max best m)
unfolding last_max
last_max-Largest best [] h d = record {
  over_best = omega arith;
  over_all = λ q k e. cc;
  one_of = inl refl;
}
last_max-Largest best (e ∷ m) h d = elim (dec_lt e.1 best.1) [
  | yes lt ↦ rw (lt→ltb e.1 best.1 lt) (
      keep_best best e m (last_max best m) (omega arith) d
        (last_max-Largest best m (ground arith) d.1))
  | no ge ↦
      rw (ltb_no e.1 best.1 ge)
        (take_next best e m (last_max e m) (omega arith) d (last_max-Largest e m d.0 d.1))
]

-- A result of the vote: a ruling with some votes that no other beats, or none without votes.
abbrev pub IsPlurality : Option Ruling → List Ruling → Type 0
IsPlurality none rs = rs ≡ []
IsPlurality (some r) rs = (0 < votes_for r rs) × ((q : Ruling) → votes_for q rs ≤ votes_for r rs)

nobody_voted : (rs : List Ruling) → ((r : Ruling) → 0 ≡ votes_for r rs) → rs ≡ []
nobody_voted [] h = refl
nobody_voted (q ∷ rs) h = absurd (ground (arith, h q))

-- The maximum over a map that counts the votes, in any order.
max_ruling-IsPlurality :
    (m : Map Ruling ℕ) (rs : List Ruling)
    → DistinctKeys m
    → ((r : Ruling) → or_zero (get r m) ≡ votes_for r rs)
    → AllPositive m
    → IsPlurality (max_ruling m) rs
max_ruling-IsPlurality [] rs d exact pos = nobody_voted rs exact
max_ruling-IsPlurality (e ∷ m) rs d exact pos = (some_votes, unbeaten)
  where
    top : Ruling × ℕ
    top = last_max e m

    largest : Largest e m top
    largest = last_max-Largest e m d.0 d.1

    listed : get top.0 (e ∷ m) ≡ some top.1
    listed = ground (arith, largest.one_of, d.0)

    counted : votes_for top.0 rs ≡ top.1
    counted = ground (arith, exact top.0, listed)

    some_votes : 0 < votes_for top.0 rs
    some_votes = omega (arith, counted, pos top.0 top.1 listed)

    unbeaten : (q : Ruling) → votes_for q rs ≤ votes_for top.0 rs
    unbeaten q = elim (Option-cases (get q (e ∷ m))) [
      | inl missing ↦ ground (arith, exact q, missing)
      | inr (n, found) ↦
          ground (arith, exact q, found, counted, largest.over_best, largest.over_all q n)
    ]

-- The majority of a vote is a ruling that some revealed vote chose and that no other ruling beats;
-- there is none exactly when no vote is revealed. This holds for every order in which the hash map
-- hands out its entries, which decides between rulings that are tied.
pub determine_majority-IsPlurality :
    (o : IterationOrder Ruling ℕ) (votes : List JurorVote)
    → IsPlurality (determine_majority o votes) (revealed_choices votes)
unfolding determine_majority
determine_majority-IsPlurality o votes =
    max_ruling-IsPlurality (o.entries counts) rs (o.entries_keys counts distinct)
      (λ r.
        ap or_zero (o.entries_get counts r distinct)
        ∙ (count_choices_exact [] rs r ∙ zero_add (votes_for r rs)))
      (λ r n h.
        count_choices-AllPositive [] rs (λ q k e. absurd (nothing_there k e)) r n
          (sym (o.entries_get counts r distinct) ∙ h))
  where
    rs : List Ruling
    rs = revealed_choices votes

    counts : Map Ruling ℕ
    counts = count_choices [] rs

    distinct : DistinctKeys counts
    distinct = count_choices-DistinctKeys [] rs tt

    zero_add : (n : ℕ) → 0 + n ≡ n
    zero_add n = omega arith

    nothing_there : (k : ℕ) → none ≡ some k → ⊥
    nothing_there k e = cc
