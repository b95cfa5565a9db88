-- ===== src/Arbitration/Pool/Selection.antt =====
-- Whom the pool selects: distinct jurors who may serve, exactly as many as asked for.
use agentme.Prelude.{
  ℕ, suc, ◌<◌, ◌≡◌, refl, ◌⊎◌, inl, inr, true, some, List, [], ◌∷◌, map, leb, ◌==◌, arith, length,
  retain, contains, Distinct, Bool-cases, ◌∙◌, sym, ap, String, string_key, nat_key, ok, err,
}
use agentme.Prelude.Map.{Map, get, DistinctKeys}
use agentme.Float.{F64}
use agentme.Arbitration.Session.{IterationOrder}
use agentme.Arbitration.Pool.{Juror, JurorPool, not_enough_eligible, zero_stake}
use agentme.Arbitration.Pool.Draw.{total_weight, may_serve, eligible_jurors, choose, select_jurors}
use agentme.Arbitration.Pool.Draw.Chosen.{dids, choose_lem}

-- Every juror stands under the own DID.
abbrev pub Keyed : {F : Type 0} → Map String (Juror F) → Type 0
Keyed {F} m = (did : String) (j : Juror F) → get did m ≡ some j → j.did ≡ did

module _ {F : Type 0} where
  Keyed-tail :
      (k : String) (v : Juror F) (m : Map String (Juror F))
      → DistinctKeys ((k, v) ∷ m)
      → Keyed ((k, v) ∷ m)
      → Keyed m
  Keyed-tail k v m d keyed did j h = keyed did j (ground arith)

  eligible_member :
      (m : Map String (Juror F)) (court_id : ℕ) (did : String)
      → DistinctKeys m
      → Keyed m
      → contains did (dids (retain (may_serve court_id) (map (λ e. e.1) m))) ≡ true
      → (j : Juror F) × (get did m ≡ some j) × (may_serve court_id j ≡ true)
  eligible_member [] court_id did d keyed h = absurd (ground arith)
  eligible_member ((k, v) ∷ m) court_id did d keyed h = elim (string_key.equal k did) [
    | yes p ↦ elim (Bool-cases (may_serve court_id v)) [
      | inl good ↦ (v, ground arith, good)
      | inr bad ↦
          let (j, found, serves) =
            eligible_member m court_id did d.1 (Keyed-tail k v m d keyed) (ground arith) in
          absurd (ground arith)
    ]
    | no n ↦
        let own : v.did ≡ k = keyed k v (ground arith) in
        let (j, found, serves) =
          eligible_member m court_id did d.1 (Keyed-tail k v m d keyed) (ground arith) in
        (j, ground arith, serves)
  ]

  eligible_Distinct :
      (m : Map String (Juror F)) (court_id : ℕ)
      → DistinctKeys m
      → Keyed m
      → Distinct (dids (retain (may_serve court_id) (map (λ e. e.1) m)))
  eligible_Distinct [] court_id d keyed = tt
  eligible_Distinct ((k, v) ∷ m) court_id d keyed =
      let own : v.did ≡ k = keyed k v (ground arith) in
      let rest = eligible_Distinct m court_id d.1 (Keyed-tail k v m d keyed) in
      elim (Bool-cases (may_serve court_id v)) [
        | inr bad ↦ rw bad rest
        | inl good ↦
            rw good
              (elim (Bool-cases
                (contains v.did (dids (retain (may_serve court_id) (map (λ e. e.1) m))))) [
                  | inr new ↦ (new, rest)
                  | inl old ↦
                      let (j, found, serves) =
                        eligible_member m court_id v.did d.1 (Keyed-tail k v m d keyed) old in
                      absurd (ground arith)
                ])
      ]

  length-dids : (jurors : List (Juror F)) → length (dids jurors) ≡ length jurors
  length-dids [] = refl
  length-dids (j ∷ jurors) = ap suc (length-dids jurors)

module _ {F : Type 0} ⦃fl : F64 F⦄ where
  -- In a pool whose jurors stand under their own DIDs, the draw either reports that too few jurors
  -- may serve or that they have no stake, as is then the case, or selects as many distinct jurors as
  -- asked for, each active and eligible for the court, whatever the seed and the order of the hash
  -- map.
  pub select_jurors_lem :
      (o : IterationOrder String (Juror F)) (p : JurorPool F) (court_id n seed : ℕ)
      → DistinctKeys p.jurors
      → Keyed p.jurors
      → ((length (eligible_jurors o p court_id) < n)
          × (select_jurors o p court_id n seed ≡ err not_enough_eligible))
        ⊎ ((total_weight p.config (eligible_jurors o p court_id) ≡ 0)
            × (select_jurors o p court_id n seed ≡ err zero_stake))
        ⊎ ((selected : List String) × (select_jurors o p court_id n seed ≡ ok selected)
            × (length selected ≡ n)
            × Distinct selected
            × ((did : String)
                → contains did selected ≡ true
                → (j : Juror F) × (get did p.jurors ≡ some j) × (may_serve court_id j ≡ true)))
  unfolding select_jurors
  select_jurors_lem o p court_id n seed d keyed =
      elim (Bool-cases (leb n (length (eligible_jurors o p court_id)))) [
        | inr few ↦ inl (ground arith, ground arith)
        | inl enough ↦
            elim (Bool-cases (total_weight p.config (eligible_jurors o p court_id) == 0)) [
              | inl nothing ↦ inr (inl (ground arith, ground arith))
              | inr some_stake ↦
                  let entries = o.entries p.jurors in
                  let keys = o.entries_keys p.jurors d in
                  let keyed' : Keyed entries =
                    λ did j h. keyed did j (sym (o.entries_get p.jurors did d) ∙ h) in
                  let (many, ch) =
                    choose_lem p.config (eligible_jurors o p court_id) n seed
                      (eligible_Distinct entries court_id keys keyed')
                      (ground (arith, length-dids (eligible_jurors o p court_id))) in
                  inr (
                    inr (
                      choose p.config (eligible_jurors o p court_id) n seed,
                      ground arith,
                      many,
                      ch.distinct,
                      λ did h.
                          let (j, found, serves) =
                            eligible_member entries court_id did keys keyed' (ch.inside did h) in
                          (j, sym (o.entries_get p.jurors did d) ∙ found, serves),
                    ))
            ]
      ]
