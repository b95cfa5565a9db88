-- ===== src/Arbitration/Pool/Draw/Chosen.antt =====
-- The draw on a list of eligible jurors: what is drawn, and how what is missing is filled.
use agentme.Prelude.{
  ℕ, zero, suc, ◌+◌, ◌%◌, ◌≤◌, ◌≡◌, refl, ◌⊎◌, inl, inr, true, false, not, ◌&&◌, List, [], ◌∷◌,
  ◌++◌, map, ltb, leb, arith, length, take, contains, Distinct, escape, ite, Bool-cases, ap, String,
  string_key, nat_key, dec_lt, Key,
}
use agentme.Float.{F64}
use agentme.Arbitration.Pool.{Juror, JurorPoolConfig, u64_mod}
use agentme.Arbitration.Pool.Draw.{weight, total_weight, draw_one, next_random, draw, fill, choose}

-- The library of the draw, on any keys.
module _ {K : Type 0} ⦃k : Key K⦄ where
  contains-append :
      (a b : K) (xs : List K) → contains a (xs ++ (b ∷ [])) ≡ ite (k.equal b a) true (contains a xs)
  contains-append a b [] = refl
  contains-append a b (x ∷ xs) = ground (arith, contains-append a b xs)

  append-Distinct :
      (b : K) (xs : List K) → Distinct xs → contains b xs ≡ false → Distinct (xs ++ (b ∷ []))
  append-Distinct b [] d h = (refl, tt)
  append-Distinct b (x ∷ xs) d h = ground (arith, append-Distinct b xs d.1, contains-append x b xs)

  contains-take :
      (n : ℕ) (a : K) (xs : List K) → contains a (take n xs) ≡ true → contains a xs ≡ true
  contains-take zero a xs h = cc
  contains-take (suc n) a [] h = h
  contains-take (suc n) a (x ∷ xs) h = ground (arith, contains-take n a xs)

  not_in_take :
      (n : ℕ) (a : K) (xs : List K) → contains a xs ≡ false → contains a (take n xs) ≡ false
  not_in_take zero a xs h = refl
  not_in_take (suc n) a [] h = h
  not_in_take (suc n) a (x ∷ xs) h = ground (arith, not_in_take n a xs)

  take-Distinct : (n : ℕ) (xs : List K) → Distinct xs → Distinct (take n xs)
  take-Distinct zero xs d = tt
  take-Distinct (suc n) [] d = tt
  take-Distinct (suc n) (x ∷ xs) d = (not_in_take n x xs d.0, take-Distinct n xs d.1)

  length-take : (n : ℕ) (xs : List K) → n ≤ length xs → length (take n xs) ≡ n
  length-take zero xs h = refl
  length-take (suc n) [] h = absurd (omega arith)
  length-take (suc n) (x ∷ xs) h = ap suc (length-take n xs (omega arith))

  -- The selected are distinct, and among `all`.
  pub record Chosen (all selected : List K) : Type 0 where
    pub distinct : Distinct selected
    pub inside : (a : K) → contains a selected ≡ true → contains a all ≡ true

  append-Chosen :
      (all selected : List K) (b : K)
      → Chosen all selected
      → contains b selected ≡ false
      → contains b all ≡ true
      → Chosen all (selected ++ (b ∷ []))
  append-Chosen all selected b c h i = record {
    distinct = append-Distinct b selected c.distinct h;
    inside = λ a e. ground (arith, c.inside a, contains-append a b selected);
  }

module _ {F : Type 0} where
  abbrev pub dids : List (Juror F) → List String
  dids jurors = map (λ j. j.did) jurors

  -- Every juror of the first list is named in the second.
  abbrev Named : List (Juror F) → List String → Type 0
  Named [] all = Unit
  Named (j ∷ jurors) all = (contains j.did all ≡ true) × Named jurors all

  Named-weaken :
      (jurors : List (Juror F)) (d : String) (all : List String)
      → Named jurors all
      → Named jurors (d ∷ all)
  Named-weaken [] d all n = tt
  Named-weaken (j ∷ jurors) d all n = (ground arith, Named-weaken jurors d all n.1)

  dids-Named : (jurors : List (Juror F)) → Named jurors (dids jurors)
  dids-Named [] = tt
  dids-Named (j ∷ jurors) =
      (ground arith, Named-weaken jurors j.did (dids jurors) (dids-Named jurors))

  fill-Chosen :
      (n : ℕ) (jurors : List (Juror F)) (all selected : List String)
      → Named jurors all
      → Chosen all selected
      → Chosen all (fill n jurors selected)
  unfolding fill
  fill-Chosen n [] all selected named c = c
  fill-Chosen n (j ∷ jurors) all selected named c = elim (Bool-cases (contains j.did selected)) [
    | inl old ↦ rw old (fill-Chosen n jurors all selected named.1 c)
    | inr new ↦
        let c' = append-Chosen all selected j.did c new named.0 in
        elim (Bool-cases (leb n (length (selected ++ (j.did ∷ []))))) [
          | inl full ↦ rw (new, full) c'
          | inr room ↦
              rw (new, room) (fill-Chosen n jurors all (selected ++ (j.did ∷ [])) named.1 c')
        ]
  ]

  -- `fill` stops early only with enough jurors: else it has taken all.
  fill_covers :
      (n : ℕ) (jurors : List (Juror F)) (selected : List String)
      → (n ≤ length (fill n jurors selected))
        ⊎ ((a : String)
            → (contains a selected ≡ true) ⊎ (contains a (dids jurors) ≡ true)
            → contains a (fill n jurors selected) ≡ true)
  unfolding fill
  fill_covers n [] selected = inr (λ a h. ground arith)
  fill_covers n (j ∷ jurors) selected = elim (Bool-cases (contains j.did selected)) [
    | inl old ↦ elim (fill_covers n jurors selected) [
      | inl enough ↦ inl (ground arith)
      | inr all_in ↦ inr (λ a h. rw old (all_in a (ground arith)))
    ]
    | inr new ↦ elim (Bool-cases (leb n (length (selected ++ (j.did ∷ []))))) [
      | inl full ↦ inl (ground arith)
      | inr room ↦ elim (fill_covers n jurors (selected ++ (j.did ∷ []))) [
        | inl enough ↦ inl (ground arith)
        | inr all_in ↦
            inr
              (λ a h. rw (new, room) (all_in a (ground (arith, contains-append a j.did selected))))
      ]
    ]
  ]

  fill_enough :
      (n : ℕ) (jurors : List (Juror F)) (selected : List String)
      → Distinct (dids jurors)
      → n ≤ length (dids jurors)
      → n ≤ length (fill n jurors selected)
  fill_enough n jurors selected d h = elim (fill_covers n jurors selected) [
    | inl enough ↦ enough
    | inr all_in ↦ elim (dec_lt (length (fill n jurors selected)) (length (dids jurors))) [
      | no ge ↦ omega arith
      | yes lt ↦
          let (a, inside, outside) = escape (dids jurors) (fill n jurors selected) d lt in
          let found : contains a (fill n jurors selected) ≡ true = all_in a (inr inside) in cc
    ]
  ]

module _ {F : Type 0} ⦃fl : F64 F⦄ where
  draw_one-Chosen :
      (c : JurorPoolConfig) (r cumulative : ℕ) (jurors : List (Juror F))
      (all selected : List String)
      → Named jurors all
      → Chosen all selected
      → Chosen all (draw_one c r cumulative jurors selected)
  unfolding draw_one
  draw_one-Chosen c r cumulative [] all selected named ch = ch
  draw_one-Chosen c r cumulative (j ∷ jurors) all selected named ch =
      elim (Bool-cases
        (ltb r ((cumulative + weight c j) % u64_mod) && not (contains j.did selected))) [
          | inl hit ↦ rw hit (append-Chosen all selected j.did ch (ground arith) named.0)
          | inr miss ↦ rw miss (
              draw_one-Chosen c r ((cumulative + weight c j) % u64_mod) jurors all selected named.1
                ch)
        ]

  draw-Chosen :
      (n : ℕ) (c : JurorPoolConfig) (total : ℕ) (eligible : List (Juror F)) (state : ℕ)
      (selected : List String)
      → Chosen (dids eligible) selected
      → Chosen (dids eligible) (draw n c total eligible state selected)
  unfolding draw
  draw-Chosen zero c total eligible state selected ch = ch
  draw-Chosen (suc n) c total eligible state selected ch =
      draw-Chosen n c total eligible (next_random state)
        (draw_one c (next_random state % total) 0 eligible selected)
        (draw_one-Chosen c (next_random state % total) 0 eligible (dids eligible) selected
          (dids-Named eligible) ch)

  pub choose_lem :
      (c : JurorPoolConfig) (eligible : List (Juror F)) (n seed : ℕ)
      → Distinct (dids eligible)
      → n ≤ length (dids eligible)
      → (length (choose c eligible n seed) ≡ n) × Chosen (dids eligible) (choose c eligible n seed)
  unfolding choose
  choose_lem c eligible n seed d h = elim (Bool-cases (ltb (length selected) n)) [
    | inl short ↦ rw short (
        taken (fill n eligible selected) (fill_enough n eligible selected d h)
          (fill-Chosen n eligible (dids eligible) selected (dids-Named eligible) ch))
    | inr enough ↦ rw enough (taken selected (ground arith) ch)
  ]
    where
      selected : List String
      selected = draw n c (total_weight c eligible) eligible seed []

      ch : Chosen (dids eligible) selected
      ch =
          draw-Chosen n c (total_weight c eligible) eligible seed []
            (record { distinct = tt; inside = λ a e. cc })

      taken :
          (xs : List String)
          → n ≤ length xs
          → Chosen (dids eligible) xs
          → (length (take n xs) ≡ n) × Chosen (dids eligible) (take n xs)
      taken xs le x = (
        length-take n xs le,
        record {
          distinct = take-Distinct n xs x.distinct;
          inside = λ a e. x.inside a (contains-take n a xs e);
        },
      )
