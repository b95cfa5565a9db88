-- ===== src/Prelude/Lists.antt =====
-- Lists measured by native numbers, under the library's names.
use Prim.Native.Nat.{ℕ, zero, suc, ◌+◌, ◌≤◌, ◌<◌}
use mathlib.Core.Path.{◌≡◌, refl, sym, ap, ◌∙◌}
use mathlib.Core.Bool.{Bool, true, false}
use mathlib.Core.Logic.{ite}
use mathlib.Core.List.{List, [], ◌∷◌, ◌++◌, append-nil, append_assoc}
use native.Mathlib.Omega.{arith}
use mathlib.Core.Logic.{inl, inr}
use agentme.Prelude.Tests.{Bool-cases, Key, if◌then◌else◌}

module _ {ℓ} {A : Type ℓ} where
  abbrev pub length : List A → ℕ
  length [] = 0
  length (x ∷ xs) = suc (length xs)

  abbrev pub take : ℕ → List A → List A
  take zero xs = []
  take (suc n) [] = []
  take (suc n) (x ∷ xs) = x ∷ take n xs

  pub length-append : (xs ys : List A) → length (xs ++ ys) ≡ length xs + length ys
  length-append [] ys = omega arith
  length-append (x ∷ xs) ys = omega (arith, length-append xs ys)

  -- How many entries pass a test.
  abbrev pub count : (A → Bool) → List A → ℕ
  count p [] = 0
  count p (x ∷ xs) = if p x then suc (count p xs) else count p xs

  pub count-le-length : (p : A → Bool) (xs : List A) → count p xs ≤ length xs
  count-le-length p [] = omega arith
  count-le-length p (x ∷ xs) = ground (arith, count-le-length p xs)

  pub count-append : (p : A → Bool) (xs ys : List A) → count p (xs ++ ys) ≡ count p xs + count p ys
  count-append p [] ys = omega arith
  count-append p (x ∷ xs) ys = ground (arith, count-append p xs ys)

  -- `retain`, and `filter` on an iterator.
  abbrev pub retain : (A → Bool) → List A → List A
  retain p [] = []
  retain p (x ∷ xs) = if p x then x ∷ retain p xs else retain p xs

  pub length-retain : (p : A → Bool) (xs : List A) → length (retain p xs) ≡ count p xs
  length-retain p [] = refl
  length-retain p (x ∷ xs) = ground (arith, length-retain p xs)

  pub count-retain : (p : A → Bool) (xs : List A) → count p (retain p xs) ≡ count p xs
  count-retain p [] = refl
  count-retain p (x ∷ xs) = ground (arith, count-retain p xs)

  abbrev pub All {κ} : (A → Type κ) → List A → Type κ
  All P [] = Unit
  All P (x ∷ xs) = P x × All P xs

module _ {K : Type 0} ⦃k : Key K⦄ where
  -- `contains`.
  abbrev pub contains : K → List K → Bool
  contains a [] = false
  contains a (x ∷ xs) = ite (k.equal x a) true (contains a xs)

  -- No entry stands twice.
  abbrev pub Distinct : List K → Type 0
  Distinct [] = Unit
  Distinct (x ∷ xs) = (contains x xs ≡ false) × Distinct xs

module _ {K : Type 0} ⦃k : Key K⦄ where
  -- `HashSet::remove`.
  abbrev pub without : K → List K → List K
  without a [] = []
  without a (x ∷ xs) = ite (k.equal x a) (without a xs) (x ∷ without a xs)

  pub contains-without :
      (a b : K) (xs : List K) → contains b (without a xs) ≡ ite (k.equal a b) false (contains b xs)
  contains-without a b [] = ground arith
  contains-without a b (x ∷ xs) = ground (arith, contains-without a b xs)

  without_absent : (a : K) (xs : List K) → contains a xs ≡ false → without a xs ≡ xs
  without_absent a [] h = refl
  without_absent a (x ∷ xs) h = ground (arith, without_absent a xs)

  pub length-without-le : (a : K) (xs : List K) → length (without a xs) ≤ length xs
  length-without-le a [] = omega arith
  length-without-le a (x ∷ xs) = ground (arith, length-without-le a xs)

  length-without-lt :
      (a : K) (xs : List K) → contains a xs ≡ true → length (without a xs) < length xs
  length-without-lt a [] h = cc
  length-without-lt a (x ∷ xs) h = ground (arith, length-without-le a xs, length-without-lt a xs)

  pub length-without :
      (a : K) (xs : List K)
      → Distinct xs
      → (if contains a xs then suc (length (without a xs)) else length (without a xs)) ≡ length xs
  length-without a [] d = refl
  length-without a (x ∷ xs) d = ground (arith, length-without a xs d.1, without_absent a xs)

  pub without-Distinct : (a : K) (xs : List K) → Distinct xs → Distinct (without a xs)
  without-Distinct a [] d = tt
  without-Distinct a (x ∷ xs) d = ground (arith, without-Distinct a xs d.1, contains-without a x xs)

  -- The pigeonhole: a longer list without repetition has an entry that the other lacks.
  pub escape :
      (xs ys : List K)
      → Distinct xs
      → length ys < length xs
      → (a : K) × (contains a xs ≡ true) × (contains a ys ≡ false)
  escape [] ys d h = absurd (omega arith)
  escape (x ∷ xs) ys d h = elim (Bool-cases (contains x ys)) [
    | inl bad ↦
        let (a, inside, outside) =
          escape xs (without x ys) d.1 (omega (arith, length-without-lt x ys bad)) in
        (a, ground arith, ground (arith, contains-without x a ys))
    | inr good ↦ (x, ground arith, good)
  ]

-- The one list is the other with more at its end.
abbrev pub Extends {ℓ} : {A : Type ℓ} → List A → List A → Type ℓ
Extends {A = A} xs ys = (zs : List A) × (ys ≡ xs ++ zs)

pub Extends-refl {ℓ} : {A : Type ℓ} (xs : List A) → Extends xs xs
Extends-refl xs = ([], sym (append-nil xs))

pub Extends-trans {ℓ} :
    {A : Type ℓ} (xs ys zs : List A) → Extends xs ys → Extends ys zs → Extends xs zs
Extends-trans xs ys zs (us, p) (vs, q) = (us ++ vs, q ∙ ap (λ l. l ++ vs) p ∙ append_assoc xs us vs)
