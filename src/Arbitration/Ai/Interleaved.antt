-- ===== src/Arbitration/Ai/Interleaved.antt =====
-- `request_ruling` and `appeal_to_kleros` release the lock before their last block: other calls,
-- also other calls of the same methods, may run in between. The first block of `request_ruling` is
-- at most a `close_evidence_period`; its last block and that of an appeal write without a test of
-- the state.
use agentme.Prelude.{
  ℕ, ◌≤◌, ◌≡◌, true, some, List, [], ◌∷◌, arith, Extends, Extends-refl, Extends-trans, String,
  string_key, Option-cases, inl, inr, ap, sym, subst, ◌∙◌,
}
use agentme.Prelude.Map.{Map, get, insert, get-insert_self, get-insert_ne}
use agentme.Arbitration.Evidence.{AiRuling}
use agentme.Arbitration.Ai.{AiDispute, ruled, appealed, AiArbitrator, store_ruling, store_appeal}
use agentme.Arbitration.Ai.Ops.{Op, apply, after}
use agentme.Arbitration.Ai.Lifecycle.{apply-Effect}
use agentme.Arbitration.Ai.Invariant.{stage, is_some, Keeps, IsFresh, Effect-Keeps}

-- A whole call, or the last block of one whose earlier blocks ran before.
pub data Step : Type 0 where
  calls : Op → Step
  writes_ruling : String → AiRuling → Step
  writes_appeal : String → ℕ → Step

unfoldable pub step : AiArbitrator → Step → AiArbitrator
step a (calls op) = apply a op
step a (writes_ruling id ruling) = after a (store_ruling a id ruling)
step a (writes_appeal id case) = after a (store_appeal a id case)

unfoldable pub interleave : AiArbitrator → List Step → AiArbitrator
interleave a [] = a
interleave a (s ∷ steps) = interleave (step a s) steps

abbrev pub FreshStep : AiArbitrator → Step → Type 0
FreshStep a (calls op) = IsFresh a op
FreshStep a _ = Unit

abbrev pub FreshSteps : AiArbitrator → List Step → Type 0
FreshSteps a [] = Unit
FreshSteps a (s ∷ steps) = FreshStep a s × FreshSteps (step a s) steps

-- What no interleaving undoes.
pub record Holds (d d' : AiDispute) : Type 0 where
  pub same_client : d'.client_did ≡ d.client_did
  pub same_provider : d'.provider_did ≡ d.provider_did
  pub same_amount : d'.amount_usdc ≡ d.amount_usdc
  pub more_client : Extends d.client_evidence d'.client_evidence
  pub more_provider : Extends d.provider_evidence d'.provider_evidence
  pub still_closed : 1 ≤ stage d.state → 1 ≤ stage d'.state
  pub still_ruled : is_some d.ruling ≡ true → is_some d'.ruling ≡ true

Holds-trans : {d e f : AiDispute} → Holds d e → Holds e f → Holds d f
Holds-trans {d} {e} {f} h k = record {
  same_client = k.same_client ∙ h.same_client;
  same_provider = k.same_provider ∙ h.same_provider;
  same_amount = k.same_amount ∙ h.same_amount;
  more_client =
      Extends-trans d.client_evidence e.client_evidence f.client_evidence h.more_client
        k.more_client;
  more_provider =
      Extends-trans d.provider_evidence e.provider_evidence f.provider_evidence h.more_provider
        k.more_provider;
  still_closed = λ c. k.still_closed (h.still_closed c);
  still_ruled = λ r. k.still_ruled (h.still_ruled r);
}

Holds-refl : (d : AiDispute) → Holds d d
Holds-refl d = ground (arith, Extends-refl d.client_evidence, Extends-refl d.provider_evidence)

Keeps-Holds : {d d' : AiDispute} → Keeps d d' → Holds d d'
Keeps-Holds k = record {
  same_client = k.same_client;
  same_provider = k.same_provider;
  same_amount = k.same_amount;
  more_client = k.more_client;
  more_provider = k.more_provider;
  still_closed = λ c. omega (arith, k.forward);
  still_ruled = k.ruling_present;
}

-- An entry is written over one that it holds to.
written-Holds :
    (m : Map String AiDispute) (id j : String) (x x' d : AiDispute)
    → get id m ≡ some x
    → Holds x x'
    → get j m ≡ some d
    → (r : AiDispute) × (get j (insert id x' m) ≡ some r) × Holds d r
written-Holds m id j x x' d found h e = elim (string_key.equal id j) [
  | yes p ↦ (
    x',
    subst (λ i. get i (insert id x' m) ≡ some x') p (get-insert_self id x' m),
    subst (λ y. Holds y x') (same x d (sym found ∙ (ap (λ i. get i m) p ∙ e))) h,
  )
  | no n ↦ (d, get-insert_ne id j x' m n ∙ e, Holds-refl d)
]
  where
    same : (y z : AiDispute) → some y ≡ some z → y ≡ z
    same y z q = cc

step-Holds :
    (a : AiArbitrator) (s : Step) (j : String) (d : AiDispute)
    → FreshStep a s
    → get j a.disputes ≡ some d
    → (r : AiDispute) × (get j (step a s).disputes ≡ some r) × Holds d r
unfolding step store_ruling store_appeal
step-Holds a (calls op) j d fresh e =
    let (r, at, k) = Effect-Keeps a op (apply a op) j d (apply-Effect a op) fresh e in
    (r, at, Keeps-Holds k)
step-Holds a (writes_ruling id ruling) j d fresh e = elim (Option-cases (get id a.disputes)) [
  | inl missing ↦ (d, ground (arith, missing), Holds-refl d)
  | inr (x, found) ↦ rw found (
      written-Holds a.disputes id j x (record x { ruling = some ruling; state = ruled }) d found
        (ground (arith, Extends-refl x.client_evidence, Extends-refl x.provider_evidence)) e)
]
step-Holds a (writes_appeal id case) j d fresh e = elim (Option-cases (get id a.disputes)) [
  | inl missing ↦ (d, ground (arith, missing), Holds-refl d)
  | inr (x, found) ↦ rw found (
      written-Holds a.disputes id j x (record x { state = appealed; kleros_dispute_id = some case })
        d found (ground (arith, Extends-refl x.client_evidence, Extends-refl x.provider_evidence))
        e)
]

-- However the last blocks of rulings and appeals interleave with whole calls, as long as new
-- disputes get unused ids, no dispute is lost, its parties and its amount stay, the evidence of
-- each party stays and only has more added at its end, its evidence period once closed stays
-- closed, and a dispute that has a ruling keeps having one, if not the same.
pub interleave-Holds :
    (a : AiArbitrator) (steps : List Step) (id : String) (d : AiDispute)
    → FreshSteps a steps
    → get id a.disputes ≡ some d
    → (r : AiDispute) × (get id (interleave a steps).disputes ≡ some r) × Holds d r
unfolding interleave
interleave-Holds a [] id d fresh e = (d, e, Holds-refl d)
interleave-Holds a (s ∷ steps) id d fresh e =
    let (m, at, h) = step-Holds a s id d fresh.0 e in
    let (r, at', k) = interleave-Holds (step a s) steps id m fresh.1 at in (r, at', Holds-trans h k)
