-- ===== src/Prelude/Sorting.antt =====
-- `sort_by` with the greater first: the stable insertion sort. `less` is the order of the entries.
use Prim.Native.Nat.{suc}
use mathlib.Core.Path.{◌≡◌, refl}
use mathlib.Core.Logic.{inl, inr}
use mathlib.Core.Bool.{Bool, true, false}
use mathlib.Core.List.{List, [], ◌∷◌}
use native.Mathlib.Omega.{arith}
use agentme.Prelude.Tests.{Bool-cases, if◌then◌else◌}
use agentme.Prelude.Lists.{count, All}

module _ {ℓ} {A : Type ℓ} (less : A → A → Bool) where
  abbrev pub place : A → List A → List A
  place x [] = x ∷ []
  place x (y ∷ ys) = if less x y then y ∷ place x ys else x ∷ y ∷ ys

  abbrev pub sort : List A → List A
  sort [] = []
  sort (x ∷ xs) = place x (sort xs)

  -- No entry is greater than one before it.
  abbrev pub Descends : List A → Type ℓ
  Descends [] = Unit
  Descends (x ∷ xs) = All (λ y. less x y ≡ false) xs × Descends xs

  count-place :
      (p : A → Bool) (x : A) (xs : List A)
      → count p (place x xs) ≡ (if p x then suc (count p xs) else count p xs)
  count-place p x [] = refl
  count-place p x (y ∷ ys) = ground (arith, count-place p x ys)

  -- Sorting loses and makes no entry.
  pub count-sort : (p : A → Bool) (xs : List A) → count p (sort xs) ≡ count p xs
  count-sort p [] = refl
  count-sort p (x ∷ xs) = ground (arith, count-sort p xs, count-place p x (sort xs))

  All-place {κ} : (P : A → Type κ) (x : A) (xs : List A) → P x → All P xs → All P (place x xs)
  All-place P x [] h k = (h, tt)
  All-place P x (y ∷ ys) h k = elim (Bool-cases (less x y)) [
    | inl e ↦ rw e (k.0, All-place P x ys h k.1)
    | inr e ↦ rw e (h, k)
  ]

  pub All-sort {κ} : (P : A → Type κ) (xs : List A) → All P xs → All P (sort xs)
  All-sort P [] h = tt
  All-sort P (x ∷ xs) h = All-place P x (sort xs) h.0 (All-sort P xs h.1)

  -- What an order of entries has: of two entries one is not less, and what is not less than an
  -- entry is not less than what this is not less than.
  pub record IsOrder : Type ℓ where
    pub asymmetric : (x y : A) → less x y ≡ true → less y x ≡ false
    pub negative : (x y z : A) → less x y ≡ false → less y z ≡ false → less x z ≡ false

  All-from :
      (x y : A) (xs : List A)
      → IsOrder
      → less x y ≡ false
      → All (λ z. less y z ≡ false) xs
      → All (λ z. less x z ≡ false) xs
  All-from x y [] o h k = tt
  All-from x y (z ∷ xs) o h k = (o.negative x y z h k.0, All-from x y xs o h k.1)

  place-Descends : (x : A) (xs : List A) → IsOrder → Descends xs → Descends (place x xs)
  place-Descends x [] o d = (tt, tt)
  place-Descends x (y ∷ ys) o d = elim (Bool-cases (less x y)) [
    | inl e ↦
        rw e (
          All-place (λ z. less y z ≡ false) x ys (o.asymmetric x y e) d.0,
          place-Descends x ys o d.1,
        )
    | inr e ↦ rw e ((e, All-from x y ys o e d.0), d)
  ]

  pub sort-Descends : (xs : List A) → IsOrder → Descends (sort xs)
  sort-Descends [] o = tt
  sort-Descends (x ∷ xs) o = place-Descends x (sort xs) o (sort-Descends xs o)
