-- ===== src/Discovery/Cache/Refinement/Order.antt =====
-- The entries of a map in the order of a list of keys.
use agentme.Prelude.{
  suc, ◌≡◌, refl, sym, ap, ◌∙◌, true, false, Option, none, some, List, [], ◌∷◌, ◌++◌, length, arith,
  contains, Distinct, without, Option-cases, inl, inr, Key, ite, ◌||◌, ◌≢◌,
}
use agentme.Prelude.Map.{Map, get, insert, remove, DistinctKeys, get-remove, get-insert, is_some}

abbrev or_else {ℓ} : {V : Type ℓ} → Option V → Option V → Option V
or_else none o = o
or_else (some v) o = some v

module _ {K V : Type 0} where
  abbrev pub onto : K → Option V → Map K V → Map K V
  onto k none m = m
  onto k (some v) m = (k, v) ∷ m

module _ {K V : Type 0} ⦃k : Key K⦄ where
  abbrev pub ordered : List K → Map K V → Map K V
  ordered [] m = []
  ordered (x ∷ xs) m = onto x (get x m) (ordered xs m)

  remove-onto :
      (a x : K) (o : Option V) (m : Map K V)
      → remove a (onto x o m) ≡ ite (k.equal x a) (remove a m) (onto x o (remove a m))
  remove-onto a x none m = ground arith
  remove-onto a x (some v) m = ground arith

  pub ordered-without :
      (a : K) (xs : List K) (m : Map K V) → ordered (without a xs) m ≡ remove a (ordered xs m)
  ordered-without a [] m = refl
  ordered-without a (x ∷ xs) m =
      ground (arith, ordered-without a xs m, remove-onto a x (get x m) (ordered xs m))

  onto-append : (x : K) (o : Option V) (m n : Map K V) → onto x o m ++ n ≡ onto x o (m ++ n)
  onto-append x none m n = refl
  onto-append x (some v) m n = refl

  pub ordered-append :
      (xs ys : List K) (m : Map K V) → ordered (xs ++ ys) m ≡ ordered xs m ++ ordered ys m
  ordered-append [] ys m = ground arith
  ordered-append (x ∷ xs) ys m =
      ground (arith, ordered-append xs ys m, onto-append x (get x m) (ordered xs m) (ordered ys m))

  pub ordered-insert :
      (a : K) (v : V) (xs : List K) (m : Map K V)
      → contains a xs ≡ false
      → ordered xs (insert a v m) ≡ ordered xs m
  ordered-insert a v [] m h = refl
  ordered-insert a v (x ∷ xs) m h = ground (arith, ordered-insert a v xs m, get-insert a x v m)

  pub ordered-remove :
      (a : K) (xs : List K) (m : Map K V)
      → contains a xs ≡ false
      → ordered xs (remove a m) ≡ ordered xs m
  ordered-remove a [] m h = refl
  ordered-remove a (x ∷ xs) m h = ground (arith, ordered-remove a xs m, get-remove a x m)

  get-onto :
      (a x : K) (m r : Map K V)
      → get a (onto x (get x m) r) ≡ ite (k.equal x a) (or_else (get a m) (get a r)) (get a r)
  get-onto a x m r = elim (Option-cases (get x m)) [
    | inl e ↦ ground (arith, e)
    | inr (v, e) ↦ ground (arith, e)
  ]

  get-ordered-none :
      (a : K) (xs : List K) (m : Map K V) → get a m ≡ none → get a (ordered xs m) ≡ none
  get-ordered-none a [] m h = refl
  get-ordered-none a (x ∷ xs) m h =
      ground (arith, get-onto a x m (ordered xs m), get-ordered-none a xs m)

  get-ordered_absent :
      (a : K) (xs : List K) (m : Map K V) → contains a xs ≡ false → get a (ordered xs m) ≡ none
  get-ordered_absent a [] m h = refl
  get-ordered_absent a (x ∷ xs) m h =
      ground (arith, get-onto a x m (ordered xs m), get-ordered_absent a xs m)

  get-ordered :
      (a : K) (xs : List K) (m : Map K V) → contains a xs ≡ true → get a (ordered xs m) ≡ get a m
  get-ordered a [] m h = cc
  get-ordered a (x ∷ xs) m h = elim (Option-cases (get a m)) [
    | inl e ↦ get-ordered-none a (x ∷ xs) m e ∙ sym e
    | inr (v, e) ↦ ground (arith, get-onto a x m (ordered xs m), get-ordered a xs m)
  ]

  pub ordered-DistinctKeys : (xs : List K) (m : Map K V) → Distinct xs → DistinctKeys (ordered xs m)
  ordered-DistinctKeys [] m d = tt
  ordered-DistinctKeys (x ∷ xs) m d = elim (Option-cases (get x m)) [
    | inl e ↦ rw e (ordered-DistinctKeys xs m d.1)
    | inr (v, e) ↦ rw e (get-ordered_absent x xs m d.0, ordered-DistinctKeys xs m d.1)
  ]

  -- With every key in the list, the order has the entries of the map.
  pub get-ordered_all :
      (a : K) (xs : List K) (m : Map K V)
      → contains a xs ≡ is_some (get a m)
      → get a (ordered xs m) ≡ get a m
  get-ordered_all a xs m h = elim (Option-cases (get a m)) [
    | inl e ↦ get-ordered-none a xs m e ∙ sym e
    | inr (v, e) ↦ get-ordered a xs m (ground (arith, e))
  ]

  pub insert_same : (a : K) (v : V) (m : Map K V) → get a m ≡ some v → insert a v m ≡ m
  insert_same a v [] h = cc
  insert_same a v ((b, w) ∷ m) h = ground (arith, insert_same a v m)

  -- With a value for each key, the order is as long as the list.
  pub length-ordered :
      (xs : List K) (m : Map K V)
      → ((a : K) → contains a xs ≡ true → get a m ≢ none)
      → length (ordered xs m) ≡ length xs
  length-ordered [] m h = refl
  length-ordered (x ∷ xs) m h = elim (Option-cases (get x m)) [
    | inl e ↦ absurd (h x (ground arith) e)
    | inr (v, e) ↦ rw e (ap suc (length-ordered xs m (λ a c. h a (ground (arith, c)))))
  ]

module _ {K : Type 0} ⦃k : Key K⦄ where
  pub contains-append :
      (a : K) (xs ys : List K) → contains a (xs ++ ys) ≡ contains a xs || contains a ys
  contains-append a [] ys = ground arith
  contains-append a (x ∷ xs) ys = ground (arith, contains-append a xs ys)

  pub append-Distinct :
      (xs : List K) (a : K) → Distinct xs → contains a xs ≡ false → Distinct (xs ++ a ∷ [])
  append-Distinct [] a d h = (refl, tt)
  append-Distinct (x ∷ xs) a d h =
      ground (arith, append-Distinct xs a d.1, contains-append x xs (a ∷ []))
