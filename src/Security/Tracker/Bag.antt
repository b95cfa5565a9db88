-- ===== src/Security/Tracker/Bag.antt =====
-- The abstract view of a subnet tracker: the bag of the live connections' prefixes.
use agentme.Prelude.{
  ℕ, suc, ◌-◌, ◌<◌, ◌≡◌, refl, Option, none, some, leb, if◌then◌else◌, Key, Result, ok, err, List,
  [], ◌∷◌, ite, arith, length,
}
use agentme.Security.Tracker.{Error, subnet_limit_exceeded}

module _ {P : Type 0} ⦃k : Key P⦄ where
  abbrev pub occurrences : P → List P → ℕ
  occurrences p [] = 0
  occurrences p (q ∷ live) = ite (k.equal q p) (suc (occurrences p live)) (occurrences p live)

  -- A connection is admitted while its subnet has fewer than `limit`.
  unfoldable pub admit : ℕ → Option P → List P → List P × Result Error (Unit {0})
  admit limit (some p) live =
      if leb limit (occurrences p live)
      then (live, err subnet_limit_exceeded)
      else (p ∷ live, ok tt)
  admit limit none live = (live, ok tt)

  abbrev pub erase : P → List P → List P
  erase p [] = []
  erase p (q ∷ live) = ite (k.equal q p) live (q ∷ erase p live)

  unfoldable pub leave : Option P → List P → List P
  leave (some p) live = erase p live
  leave none live = live

  pub occurrences-erase :
      (p q : P) (live : List P)
      → occurrences q (erase p live)
        ≡ ite (k.equal p q) (occurrences q live - 1) (occurrences q live)
  occurrences-erase p q [] = ground arith
  occurrences-erase p q (r ∷ live) = ground (arith, occurrences-erase p q live)

  pub erase_of_absent : (p : P) (live : List P) → occurrences p live ≡ 0 → erase p live ≡ live
  erase_of_absent p [] h = refl
  erase_of_absent p (q ∷ live) h = ground (arith, erase_of_absent p live)

  pub length-erase :
      (p : P) (live : List P) → 0 < occurrences p live → suc (length (erase p live)) ≡ length live
  length-erase p [] h = elim h [ ]
  length-erase p (q ∷ live) h = ground (arith, length-erase p live)
