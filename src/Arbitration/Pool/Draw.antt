-- ===== src/Arbitration/Pool/Draw.antt =====
-- The draw of jurors, weighted by their stakes (`select_jurors` in node/src/arbitration.rs).
pub mod Chosen
use agentme.Prelude.{
  ℕ, zero, suc, ◌+◌, ◌*◌, ◌-◌, ◌%◌, ◌^◌, min, Bool, true, false, not, ◌&&◌, Option, none, some,
  List, [], ◌∷◌, ◌++◌, map, ltb, leb, ◌==◌, if◌then◌else◌, length, take, count, retain, contains,
  String, string_key, nat_key, Key, Result, ok, err, ◌>>=◌, ◌>>◌, guard, ok_or, ite,
}
use agentme.Prelude.Map.{Map, get, insert}
use agentme.Float.{F64}
use agentme.Arbitration.Tiers.{Ruling}
use agentme.Arbitration.Session
use agentme.Arbitration.Session.{
  ℤ, ruling_key, coherent, JurorVote, VotingState, VotingSession, IterationOrder, is_completed,
  calculate_coherence,
}
use agentme.Arbitration.Pool.{
  Juror, JurorPool, JurorPoolConfig, Error, not_enough_eligible, zero_stake, effective_stake,
  is_eligible_for_court, is_selectable, u64_mod,
}

unfoldable pub next_random : ℕ → ℕ
next_random state = (state * 6364136223846793005 % u64_mod + 1) % u64_mod

module _ {F : Type 0} ⦃fl : F64 F⦄ where
  -- The stake of a juror in the draw.
  unfoldable pub weight : JurorPoolConfig → Juror F → ℕ
  unfolding effective_stake
  weight c j = min (effective_stake j) c.max_effective_stake_usdc

  unfoldable pub total_weight : JurorPoolConfig → List (Juror F) → ℕ
  total_weight c [] = 0
  total_weight c (j ∷ jurors) = (weight c j + total_weight c jurors) % u64_mod

  -- The first juror at or past the random stake who is not yet selected.
  unfoldable pub draw_one : JurorPoolConfig → ℕ → ℕ → List (Juror F) → List String → List String
  draw_one c random_stake cumulative [] selected = selected
  draw_one c random_stake cumulative (j ∷ jurors) selected =
      let reached = (cumulative + weight c j) % u64_mod in
      if ltb random_stake reached && not (contains j.did selected)
      then selected ++ (j.did ∷ [])
      else draw_one c random_stake ((cumulative + weight c j) % u64_mod) jurors selected

  -- `for _ in 0..count`.
  unfoldable pub draw : ℕ → JurorPoolConfig → ℕ → List (Juror F) → ℕ → List String → List String
  unfolding draw_one next_random
  draw zero c total eligible state selected = selected
  draw (suc n) c total eligible state selected =
      draw n c total eligible (next_random state)
        (draw_one c (next_random state % total) 0 eligible selected)

module _ {F : Type 0} where
  unfoldable pub fill : ℕ → List (Juror F) → List String → List String
  fill n [] selected = selected
  fill n (j ∷ jurors) selected =
      if contains j.did selected
      then fill n jurors selected
      else if leb n (length (selected ++ (j.did ∷ [])))
      then selected ++ (j.did ∷ [])
      else fill n jurors (selected ++ (j.did ∷ []))

  abbrev pub may_serve : ℕ → Juror F → Bool
  may_serve court_id j = is_selectable j.status && is_eligible_for_court j court_id

  abbrev pub eligible_jurors : IterationOrder String (Juror F) → JurorPool F → ℕ → List (Juror F)
  eligible_jurors o p court_id = retain (may_serve court_id) (map (λ e. e.1) (o.entries p.jurors))

module _ {F : Type 0} ⦃fl : F64 F⦄ where
  unfoldable pub choose : JurorPoolConfig → List (Juror F) → ℕ → ℕ → List String
  unfolding draw fill total_weight
  choose c eligible n seed =
      let selected = draw n c (total_weight c eligible) eligible seed [] in
      take n (if ltb (length selected) n then fill n eligible selected else selected)

  unfoldable pub select_jurors :
      IterationOrder String (Juror F) → JurorPool F → ℕ → ℕ → ℕ → Result Error (List String)
  unfolding choose is_selectable
  select_jurors o p court_id n seed =
      let eligible = eligible_jurors o p court_id in
      do
        guard (leb n (length eligible)) not_enough_eligible
        guard (not (total_weight p.config eligible == 0)) zero_stake
        ok (choose p.config eligible n seed)
