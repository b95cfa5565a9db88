-- ===== src/Prelude/Map.antt =====
-- Rust's `HashMap` as an association list. The order of the entries is the iteration order, which
-- the program does not choose; a key stands at most once in a map that the operations build.
use Prim.Native.Nat.{ℕ, suc, ◌+◌}
use mathlib.Core.Path.{◌≡◌, refl}
use mathlib.Core.Logic.{◌⊎◌, inl, inr, ◌≢◌, ite}
use mathlib.Core.List.{List, [], ◌∷◌}
use mathlib.Core.Option.{Option, none, some}
use native.Mathlib.Omega.{arith}
use mathlib.Core.Bool.{Bool, true, false}
use agentme.Prelude.Lists.{retain, length}
use agentme.Prelude.Tests.{Key, if◌then◌else◌}

abbrev pub Map : Type 0 → Type 0 → Type 0
Map K V = List (K × V)

module _ {K V : Type 0} ⦃k : Key K⦄ where
  abbrev pub get : K → Map K V → Option V
  get a [] = none
  get a ((b, v) ∷ m) = ite (k.equal b a) (some v) (get a m)

  -- `insert`: overwrites the entry of a known key.
  abbrev pub insert : K → V → Map K V → Map K V
  insert a v [] = (a, v) ∷ []
  insert a v ((b, w) ∷ m) = ite (k.equal b a) ((a, v) ∷ m) ((b, w) ∷ insert a v m)

  abbrev pub remove : K → Map K V → Map K V
  remove a [] = []
  remove a ((b, w) ∷ m) = ite (k.equal b a) (remove a m) ((b, w) ∷ remove a m)

  abbrev pub DistinctKeys : Map K V → Type 0
  DistinctKeys [] = Unit
  DistinctKeys ((a, v) ∷ m) = (get a m ≡ none) × DistinctKeys m

  pub get-insert :
      (a b : K) (v : V) (m : Map K V) → get b (insert a v m) ≡ ite (k.equal a b) (some v) (get b m)
  get-insert a b v [] = refl
  get-insert a b v ((c, w) ∷ m) = ground (arith, get-insert a b v m)

  pub get-insert_self : (a : K) (v : V) (m : Map K V) → get a (insert a v m) ≡ some v
  get-insert_self a v m = ground (arith, get-insert a a v m)

  pub get-insert_ne : (a b : K) (v : V) (m : Map K V) → a ≢ b → get b (insert a v m) ≡ get b m
  get-insert_ne a b v m h = ground (arith, get-insert a b v m)

  -- An entry of a map that was written to is the one written or an old one.
  pub get-insert_cases :
      (a b : K) (v w : V) (m : Map K V)
      → get b (insert a v m) ≡ some w
      → ((a ≡ b) × (v ≡ w)) ⊎ ((a ≢ b) × (get b m ≡ some w))
  get-insert_cases a b v w m h = elim (k.equal a b) [
    | yes p ↦ inl (p, ground (arith, get-insert a b v m))
    | no n ↦ inr (n, ground (arith, get-insert a b v m))
  ]

  pub get-remove : (a b : K) (m : Map K V) → get b (remove a m) ≡ ite (k.equal a b) none (get b m)
  get-remove a b [] = ground arith
  get-remove a b ((c, w) ∷ m) = ground (arith, get-remove a b m)

  pub insert-DistinctKeys :
      (a : K) (v : V) (m : Map K V) → DistinctKeys m → DistinctKeys (insert a v m)
  insert-DistinctKeys a v [] d = (refl, tt)
  insert-DistinctKeys a v ((b, w) ∷ m) d =
      ground (arith, insert-DistinctKeys a v m d.1, get-insert a b v m)

  pub remove-DistinctKeys : (a : K) (m : Map K V) → DistinctKeys m → DistinctKeys (remove a m)
  remove-DistinctKeys a [] d = tt
  remove-DistinctKeys a ((b, w) ∷ m) d =
      ground (arith, remove-DistinctKeys a m d.1, get-remove a b m)

  pub insert-insert : (a : K) (v w : V) (m : Map K V) → insert a v (insert a w m) ≡ insert a v m
  insert-insert a v w [] = ground arith
  insert-insert a v w ((b, u) ∷ m) = ground (arith, insert-insert a v w m)

  remove_of_none : (a : K) (m : Map K V) → get a m ≡ none → remove a m ≡ m
  remove_of_none a [] h = refl
  remove_of_none a ((b, w) ∷ m) h = ground (arith, remove_of_none a m)

abbrev pub is_some {ℓ} : {A : Type ℓ} → Option A → Bool
is_some none = false
is_some (some x) = true

-- `unwrap_or(0)`.
abbrev pub or_zero : Option ℕ → ℕ
or_zero none = 0
or_zero (some n) = n

module _ {K : Type 0} where
  -- `values().sum()`.
  abbrev pub sum_values : Map K ℕ → ℕ
  sum_values [] = 0
  sum_values ((a, v) ∷ m) = v + sum_values m

module _ {K : Type 0} ⦃k : Key K⦄ where
  pub sum_values-insert :
      (a : K) (v : ℕ) (m : Map K ℕ)
      → sum_values (insert a v m) + or_zero (get a m) ≡ sum_values m + v
  sum_values-insert a v [] = omega arith
  sum_values-insert a v ((b, w) ∷ m) = ground (arith, sum_values-insert a v m)

  pub sum_values-remove :
      (a : K) (m : Map K ℕ)
      → DistinctKeys m
      → sum_values (remove a m) + or_zero (get a m) ≡ sum_values m
  sum_values-remove a [] d = omega arith
  sum_values-remove a ((b, w) ∷ m) d = ground (arith, sum_values-remove a m d.1, remove_of_none a m)

module _ {K V : Type 0} ⦃k : Key K⦄ where
  get-retain-none :
      (p : K × V → Bool) (a : K) (m : Map K V) → get a m ≡ none → get a (retain p m) ≡ none
  get-retain-none p a [] h = refl
  get-retain-none p a ((b, w) ∷ m) h = ground (arith, get-retain-none p a m)

  pub get-retain_drop :
      (p : K × V → Bool) (a : K) (v : V) (m : Map K V)
      → DistinctKeys m
      → get a m ≡ some v
      → p (a, v) ≡ false
      → get a (retain p m) ≡ none
  get-retain_drop p a v [] d e h = refl
  get-retain_drop p a v ((b, w) ∷ m) d e h =
      ground (arith, get-retain_drop p a v m d.1, get-retain-none p a m)

  get-retain_keep :
      (p : K × V → Bool) (a : K) (v : V) (m : Map K V)
      → DistinctKeys m
      → get a m ≡ some v
      → p (a, v) ≡ true
      → get a (retain p m) ≡ some v
  get-retain_keep p a v [] d e h = e
  get-retain_keep p a v ((b, w) ∷ m) d e h = ground (arith, get-retain_keep p a v m d.1)

module _ {K V : Type 0} ⦃k : Key K⦄ where
  pub length-insert :
      (a : K) (v : V) (m : Map K V)
      → length (insert a v m) ≡ (if is_some (get a m) then length m else suc (length m))
  length-insert a v [] = refl
  length-insert a v ((b, w) ∷ m) = ground (arith, length-insert a v m)

  pub length-remove :
      (a : K) (m : Map K V)
      → DistinctKeys m
      → (if is_some (get a m) then suc (length (remove a m)) else length (remove a m)) ≡ length m
  length-remove a [] d = refl
  length-remove a ((b, w) ∷ m) d = ground (arith, length-remove a m d.1, remove_of_none a m)
