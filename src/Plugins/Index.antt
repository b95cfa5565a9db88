-- ===== src/Plugins/Index.antt =====
-- One index of the registry: it points from each name to the one plugin that holds it.
use agentme.Prelude.{
  ◌≡◌, refl, inl, inr, true, Option, none, some, List, [], ◌∷◌, arith, if◌then◌else◌, String,
  string_key, ite, Option-cases, ◌∙◌, sym,
}
use agentme.Prelude.Map.{Map, get, insert, remove, get-insert, get-remove}
use agentme.Plugins.{Named, has, claim, release}

module _ {X : Type 0} where
  -- `held` gives what each registered plugin holds.
  pub record Indexed (index : Map String String) (held : String → Option (Map String X))
      : Type 0 where
    pub pointing :
        (name owner : String)
        → get name index ≡ some owner
        → (items : Map String X) × (held owner ≡ some items) × (has (get name items) ≡ true)
    pub covering :
        (name owner : String) (items : Map String X)
        → held owner ≡ some items
        → has (get name items) ≡ true
        → get name index ≡ some owner

  -- What a claim adds to an index.
  abbrev claimed : String → Option String → Option X → Option String
  claimed owner (some p) x = some p
  claimed owner none none = none
  claimed owner none (some x) = some owner

  record Claimed (owner : String) (before : Map String String)
      (r : Map String String × Map String X) : Type 0 where
    index_now : (name : String) → get name r.0 ≡ claimed owner (get name before) (get name r.1)
    taken_free : (name : String) → has (get name r.1) ≡ true → get name before ≡ none

  claim-Claimed :
      (owner : String) (items : List (Named X)) (before index : Map String String)
      (held : Map String X)
      → Claimed owner before (index, held)
      → Claimed owner before (claim owner items index held)
  unfolding claim
  claim-Claimed owner [] before index held c = c
  claim-Claimed owner ((name, x) ∷ items) before index held c =
      elim (Option-cases (get name index)) [
        | inr (p, taken) ↦ rw (taken, claim) (claim-Claimed owner items before index held c)
        | inl free ↦
            rw (free, claim)
              (claim-Claimed owner items before (insert name owner index) (insert name x held)
                (record {
                  index_now = λ n. ground (
                    arith,
                    c.index_now n,
                    c.index_now name,
                    free,
                    get-insert name n owner index,
                    get-insert name n x held,
                  );
                  taken_free = λ n h.
                      ground
                        (arith, c.taken_free n, c.index_now name, free, get-insert name n x held);
                }))
      ]

  pub claim-Indexed :
      (owner : String) (items : List (Named X)) (index : Map String String)
      (held held' : String → Option (Map String X))
      → held owner ≡ none
      → ((p : String)
          → held' p ≡ ite (string_key.equal owner p) (some (claim owner items index []).1) (held p))
      → Indexed index held
      → Indexed (claim owner items index []).0 held'
  claim-Indexed owner items index held held' absent now i = record {
    pointing = λ name p h. elim (Option-cases (get name index)) [
      | inr (q, old) ↦
          let (was, at, inside) = i.pointing name q old in
          (was, ground (arith, now p, c.index_now name, old, at, absent), inside)
      | inl free ↦ elim (Option-cases (get name (claim owner items index []).1)) [
        | inl nothing ↦ absurd (ground (arith, c.index_now name, free, nothing, h))
        | inr (x, taken) ↦ (
          (claim owner items index []).1,
          ground (arith, now p, c.index_now name, free, taken, h),
          ground (arith, taken),
        )
      ]
    ];
    covering = λ name p its at inside. elim (string_key.equal owner p) [
      | yes e ↦ ground (arith, now p, c.index_now name, c.taken_free name)
      | no n ↦ ground (arith, now p, c.index_now name, i.covering name p its)
    ];
  }
    where
      c : Claimed owner index (claim owner items index [])
      c =
          claim-Claimed owner items index index []
            (record { index_now = λ n. ground arith; taken_free = λ n h. cc })

  get-release :
      (held : Map String X) (index : Map String String) (name : String)
      → get name (release held index) ≡ (if has (get name held) then none else get name index)
  unfolding release
  get-release [] index name = refl
  get-release ((n, x) ∷ held) index name =
      ground (arith, get-release held (remove n index) name, get-remove n name index)

  pub release-Indexed :
      (owner : String) (items : Map String X) (index : Map String String)
      (held held' : String → Option (Map String X))
      → held owner ≡ some items
      → ((p : String) → held' p ≡ ite (string_key.equal owner p) none (held p))
      → Indexed index held
      → Indexed (release items index) held'
  release-Indexed owner items index held held' present now i = record {
    pointing = λ name p h.
        let (its, at, inside) = i.pointing name p (ground (arith, get-release items index name)) in
        (its, ground (arith, get-release items index name, now p, at, inside, present), inside);
    covering = λ name p its at inside. ground (
      arith,
      get-release items index name,
      now p,
      i.covering name p its,
      i.covering name owner items present,
    );
  }

  pub Indexed-same :
      (index : Map String String) (held held' : String → Option (Map String X))
      → ((p : String) → held' p ≡ held p)
      → Indexed index held
      → Indexed index held'
  Indexed-same index held held' same i = record {
    pointing =
        λ name p h. let (its, at, inside) = i.pointing name p h in (its, same p ∙ at, inside);
    covering = λ name p its at inside. i.covering name p its (sym (same p) ∙ at) inside;
  }
