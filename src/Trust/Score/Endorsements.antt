-- ===== src/Trust/Score/Endorsements.antt =====
-- Which endorsements count.
use agentme.Prelude.{
  Option, true, false, ◌∙◌, none, some, text_key, ℕ, zero, suc, ◌+◌, ◌-◌, ◌≡◌, refl, ap, Bool, List,
  [], ◌∷◌, ltb, leb, retain, take, Text, arith, Bool-cases, inl, inr, not, leb→le,
}
use agentme.Prelude.Map.{Map, get}
use agentme.Float.{F64Math}
use agentme.Trust.{TrustData, EndorsementData, max_endorsement_hops, max_endorsements_counted}
use agentme.Trust.Score.{
  contribution, contribute, reputation_of, calculate_reputation, calculate_endorsement_score,
}

-- An endorsement from at most 3 hops away.
abbrev is_near : EndorsementData → Bool
is_near e = leb e.hop_distance 3

near_lem : (e : EndorsementData) → is_near e ≡ not (ltb max_endorsement_hops e.hop_distance)
near_lem e = ground arith

take_nil : (n : ℕ) → take {A = EndorsementData} n [] ≡ []
take_nil zero = refl
take_nil (suc n) = refl

module _ {F : Type 0} (m : F64Math F) (cache : Map Text TrustData) (now : ℕ) where
  -- The reputation of an agent, and 0 for one that the service does not know.
  abbrev standing : Option TrustData → F
  standing none = m.base.zero
  standing (some d) = calculate_reputation m d now

  -- The reputation of the endorser, times 0.9 for each hop.
  abbrev pub worth : EndorsementData → F
  worth e =
      m.base.product (standing (get e.endorser_did cache)) (m.power (m.literal 9 10) e.hop_distance)

  standing_lem : (o : Option TrustData) → reputation_of m now o ≡ standing o
  standing_lem none = refl
  standing_lem (some d) = refl

  worth_lem : (e : EndorsementData) → contribution m cache now e ≡ worth e
  worth_lem e =
      ap (λ x. m.base.product x (m.power (m.literal 9 10) e.hop_distance))
        (standing_lem (get e.endorser_did cache))

  abbrev sum_from : F → List EndorsementData → F
  sum_from total [] = total
  sum_from total (e ∷ es) = sum_from (m.base.sum total (worth e)) es

  contribute_lem :
      (total : F) (counted : ℕ) (es : List EndorsementData)
      → contribute m cache now total counted es
        ≡ sum_from total (take (10 - counted) (retain is_near es))
  unfolding contribute
  contribute_lem total counted [] = rw (take_nil (10 - counted)) refl
  contribute_lem total counted (e ∷ es) =
      elim (Bool-cases (ltb max_endorsement_hops e.hop_distance)) [
        | inl far ↦
            let is_far : is_near e ≡ false = near_lem e ∙ ap not far in
            rw (far, is_far) (contribute_lem total counted es)
        | inr near ↦
            let close_by : is_near e ≡ true = near_lem e ∙ ap not near in
            elim (Bool-cases (leb max_endorsements_counted counted)) [
              | inl full ↦
                  let none_left : 10 - counted ≡ 0 = omega (arith, leb→le _ _ full) in
                  rw (near, close_by, full, none_left) refl
              | inr room ↦
                  let one_less : 10 - counted ≡ suc (10 - (counted + 1)) = ground arith in
                  rw (near, close_by, room, one_less)
                    (ap (λ x. contribute m cache now (m.base.sum total x) (counted + 1) es)
                        (worth_lem e)
                      ∙ contribute_lem (m.base.sum total (worth e)) (counted + 1) es)
            ]
      ]

  -- A third of what the first 10 of the near ones are worth, and at most 1.
  abbrev pub score_of : List EndorsementData → F
  score_of [] = m.base.zero
  score_of (e ∷ es) =
      m.lesser
        (m.base.quotient (sum_from m.base.zero (take 10 (retain is_near (e ∷ es)))) (m.literal 3 1))
        m.base.one

  -- The endorsement score is 0 without an endorsement. Otherwise it is the sum of what the first 10
  -- endorsements from at most 3 hops away are worth, divided by 3, or 1 if that is less, by the
  -- operations of the floats. An endorsement is worth the reputation of its endorser, 0 if the
  -- service does not know the endorser, times 0.9 to the power of its hops. Endorsements from
  -- further away neither count nor use up one of the 10, and those after the 10 do not matter.
  pub calculate_endorsement_score_lem :
      (es : List EndorsementData) → calculate_endorsement_score m cache es now ≡ score_of es
  unfolding calculate_endorsement_score
  calculate_endorsement_score_lem [] = refl
  calculate_endorsement_score_lem (e ∷ es) =
      ap (λ x. m.lesser (m.base.quotient x (m.literal 3 1)) m.base.one)
        (contribute_lem m.base.zero 0 (e ∷ es))
