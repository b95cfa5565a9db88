-- ===== src/Arbitration/Ai/Invariant.antt =====
-- What holds of every dispute after any history, and what a history cannot undo.
use agentme.Prelude.{
  ℕ, ◌≤◌, ◌<◌, ◌≡◌, refl, inl, inr, Bool, true, false, Option, none, some, List, [], ◌∷◌, arith,
  length, length-append, Extends, Extends-refl, Extends-trans, String, string_key, subst, ◌∙◌, sym,
  ap,
}
use agentme.Prelude.Map.{get, insert, get-insert_self, get-insert_ne, get-insert_cases}
use agentme.Arbitration.Tiers.{tier_1_max_usdc, tier_2_max_usdc, ai_assisted, determine_tier}
use agentme.Arbitration.Ai.{
  AiDispute, AiDisputeState, awaiting_evidence, analyzing, ruled, appealed, resolved, AiArbitrator,
  new_dispute, create_dispute, submit_evidence, close_evidence_period, request_ruling,
  appeal_to_kleros, resolve_dispute,
}
use agentme.Arbitration.Ai.Ops.{Op, creates, submits, closes, rules, appeals, resolves, apply, run}
use agentme.Arbitration.Ai.Lifecycle.{
  Move, client_hands_in, provider_hands_in, close, rule, appeal, resolve, Effect, nothing, begun,
  moved, apply-Effect,
}

-- How far a dispute has come.
abbrev pub stage : AiDisputeState → ℕ
stage awaiting_evidence = 0
stage analyzing = 1
stage ruled = 2
stage appealed = 3
stage resolved = 4

abbrev pub has_ruling : AiDisputeState → Bool
has_ruling awaiting_evidence = false
has_ruling analyzing = false
has_ruling _ = true

abbrev pub is_some {ℓ} : {A : Type ℓ} → Option A → Bool
is_some none = false
is_some (some a) = true

-- A dispute is of the second tier, within its evidence limits, and has a ruling exactly from the
-- state `ruled` on; a Kleros case is open while it is appealed, and before that there is none.
pub record IsValid (limit : ℕ) (d : AiDispute) : Type 0 where
  pub tier : determine_tier d.amount_usdc ≡ ai_assisted
  pub client_bounded : length d.client_evidence ≤ limit
  pub provider_bounded : length d.provider_evidence ≤ limit
  pub ruled_on : is_some d.ruling ≡ has_ruling d.state
  pub case_open : d.state ≡ appealed → is_some d.kleros_dispute_id ≡ true
  pub no_case : stage d.state ≤ 2 → d.kleros_dispute_id ≡ none

new_dispute-IsValid :
    (limit : ℕ) (id escrow client provider : String) (amount now : ℕ)
    → tier_1_max_usdc ≤ amount
    → amount < tier_2_max_usdc
    → IsValid limit (new_dispute id escrow client provider amount now)
unfolding new_dispute determine_tier
new_dispute-IsValid limit id escrow client provider amount now lo hi = ground arith

Move-IsValid : {limit : ℕ} {d d' : AiDispute} → Move limit d d' → IsValid limit d → IsValid limit d'
Move-IsValid {d} (client_hands_in e now st lt who room eq) v =
    ground (arith, length-append d.client_evidence (e ∷ []))
Move-IsValid {d} (provider_hands_in e now st lt not_client who room eq) v =
    ground (arith, length-append d.provider_evidence (e ∷ []))
Move-IsValid (close st eq) v = ground arith
Move-IsValid (rule now st eq) v = ground arith
Move-IsValid (appeal r case now st made lt eq) v = ground arith
Move-IsValid (resolve st eq) v = ground arith

-- Nothing goes back: the stage does not fall, the parties and the amount stay, evidence is only
-- added at the end, and a ruling, once made, stays.
pub record Keeps (d d' : AiDispute) : Type 0 where
  pub forward : stage d.state ≤ stage d'.state
  pub same_client : d'.client_did ≡ d.client_did
  pub same_provider : d'.provider_did ≡ d.provider_did
  pub same_amount : d'.amount_usdc ≡ d.amount_usdc
  pub more_client : Extends d.client_evidence d'.client_evidence
  pub more_provider : Extends d.provider_evidence d'.provider_evidence
  pub ruling_kept : has_ruling d.state ≡ true → d'.ruling ≡ d.ruling
  pub ruling_present : is_some d.ruling ≡ true → is_some d'.ruling ≡ true
  pub final_kept : d.state ≡ resolved → d' ≡ d

-- The evidence of a dispute goes on from that of another.
abbrev Collects : AiDispute → AiDispute → Type 0
Collects d d' =
    Extends d.client_evidence d'.client_evidence × Extends d.provider_evidence d'.provider_evidence

Collects-refl : (d : AiDispute) → Collects d d
Collects-refl d = (Extends-refl d.client_evidence, Extends-refl d.provider_evidence)

Move-Extends : {limit : ℕ} {d d' : AiDispute} → Move limit d d' → Collects d d'
Move-Extends {d = d} (client_hands_in e now st lt who room eq) =
    subst (Collects d) (sym eq) ((e ∷ [], refl), Extends-refl d.provider_evidence)
Move-Extends {d = d} (provider_hands_in e now st lt not_client who room eq) =
    subst (Collects d) (sym eq) (Extends-refl d.client_evidence, (e ∷ [], refl))
Move-Extends {d = d} (close st eq) = subst (Collects d) (sym eq) (Collects-refl d)
Move-Extends {d = d} (rule now st eq) = subst (Collects d) (sym eq) (Collects-refl d)
Move-Extends {d = d} (appeal r case now st made lt eq) =
    subst (Collects d) (sym eq) (Collects-refl d)
Move-Extends {d = d} (resolve st eq) = subst (Collects d) (sym eq) (Collects-refl d)

Move-Keeps : {limit : ℕ} {d d' : AiDispute} → Move limit d d' → Keeps d d'
Move-Keeps (client_hands_in e now st lt who room eq) =
    ground (arith, Move-Extends (client_hands_in e now st lt who room eq))
Move-Keeps (provider_hands_in e now st lt not_client who room eq) =
    ground (arith, Move-Extends (provider_hands_in e now st lt not_client who room eq))
Move-Keeps (close st eq) = ground (arith, Move-Extends (close st eq))
Move-Keeps (rule now st eq) = ground (arith, Move-Extends (rule now st eq))
Move-Keeps (appeal r case now st made lt eq) =
    ground (arith, Move-Extends (appeal r case now st made lt eq))
Move-Keeps (resolve st eq) = ground (arith, Move-Extends (resolve st eq))

Keeps-trans : {d e f : AiDispute} → Keeps d e → Keeps e f → Keeps d f
Keeps-trans {d} {e} {f} k l = record {
  forward = omega (arith, k.forward, l.forward);
  same_client = l.same_client ∙ k.same_client;
  same_provider = l.same_provider ∙ k.same_provider;
  same_amount = l.same_amount ∙ k.same_amount;
  more_client =
      Extends-trans d.client_evidence e.client_evidence f.client_evidence k.more_client
        l.more_client;
  more_provider =
      Extends-trans d.provider_evidence e.provider_evidence f.provider_evidence k.more_provider
        l.more_provider;
  ruling_kept = λ h. l.ruling_kept (later d.state e.state h k.forward) ∙ k.ruling_kept h;
  ruling_present = λ h. l.ruling_present (k.ruling_present h);
  final_kept = λ h. l.final_kept (ap (λ x. x.state) (k.final_kept h) ∙ h) ∙ k.final_kept h;
}
  where
    later : (s t : AiDisputeState) → has_ruling s ≡ true → stage s ≤ stage t → has_ruling t ≡ true
    later s t h le = ground arith

Keeps-refl : (d : AiDispute) → Keeps d d
Keeps-refl d = ground (arith, Collects-refl d)

apply-config : (a : AiArbitrator) (op : Op) → (apply a op).config ≡ a.config
unfolding apply create_dispute submit_evidence close_evidence_period request_ruling appeal_to_kleros
    resolve_dispute
apply-config a (creates id escrow client provider amount now) = ground arith
apply-config a (submits id ev now) = ground arith
apply-config a (closes id) = ground arith
apply-config a (rules id now) = ground arith
apply-config a (appeals id now) = ground arith
apply-config a (resolves id) = ground arith

abbrev pub AllValid : ℕ → AiArbitrator → Type 0
AllValid limit a = (id : String) (d : AiDispute) → get id a.disputes ≡ some d → IsValid limit d

written-AllValid :
    (limit : ℕ) (a : AiArbitrator) (id : String) (d' : AiDispute)
    → AllValid limit a
    → IsValid limit d'
    → (j : String) (d : AiDispute) → get j (insert id d' a.disputes) ≡ some d
    → IsValid limit d
written-AllValid limit a id d' all v j d e = elim (get-insert_cases id j d' d a.disputes e) [
  | inl (_, p) ↦ subst (IsValid limit) p v
  | inr (_, old) ↦ all j d old
]

Effect-AllValid :
    (limit : ℕ) (a : AiArbitrator) (op : Op) (b : AiArbitrator)
    → a.config.max_evidence_per_party ≡ limit
    → Effect a op b
    → AllValid limit a
    → AllValid limit b
Effect-AllValid limit a op b c (nothing same) all id d e = all id d (ap (get id) (sym same) ∙ e)
Effect-AllValid limit a op b c (begun id escrow client provider amount now is_op lo hi eq) all j d
      e =
    written-AllValid limit a id _ all
      (new_dispute-IsValid limit id escrow client provider amount now lo hi) j d
      (ap (get j) (sym eq) ∙ e)
Effect-AllValid limit a op b c (moved id before after was eq move) all j d e =
    written-AllValid limit a id after all
      (Move-IsValid (subst (λ n. Move n before after) c move) (all id before was)) j d
      (ap (get j) (sym eq) ∙ e)

run-AllValid :
    (limit : ℕ) (a : AiArbitrator) (ops : List Op)
    → a.config.max_evidence_per_party ≡ limit
    → AllValid limit a
    → AllValid limit (run a ops)
unfolding run
run-AllValid limit a [] c all = all
run-AllValid limit a (op ∷ ops) c all =
    run-AllValid limit (apply a op) ops (ap (λ x. x.max_evidence_per_party) (apply-config a op) ∙ c)
      (Effect-AllValid limit a op (apply a op) c (apply-Effect a op) all)

-- In an arbitrator that starts without disputes, every dispute is valid after any history of
-- method calls, also of calls that fail.
pub disputes-IsValid :
    (a : AiArbitrator) (ops : List Op) (id : String) (d : AiDispute)
    → a.disputes ≡ []
    → get id (run a ops).disputes ≡ some d
    → IsValid a.config.max_evidence_per_party d
disputes-IsValid a ops id d empty e =
    run-AllValid a.config.max_evidence_per_party a ops refl (λ j x h. absurd (ground arith)) id d e

-- An event begins a dispute only under an id that no dispute has yet, as UUIDs do.
abbrev pub IsFresh : AiArbitrator → Op → Type 0
IsFresh a (creates id escrow client provider amount now) = get id a.disputes ≡ none
IsFresh a _ = Unit

abbrev pub FreshIds : AiArbitrator → List Op → Type 0
FreshIds a [] = Unit
FreshIds a (op ∷ ops) = IsFresh a op × FreshIds (apply a op) ops

-- Where a dispute is after an entry was written, if the entry moves no further back.
written_Keeps :
    (a : AiArbitrator) (id j : String) (d d' : AiDispute)
    → get j a.disputes ≡ some d
    → (id ≡ j → Keeps d d')
    → (r : AiDispute) × (get j (insert id d' a.disputes) ≡ some r) × Keeps d r
written_Keeps a id j d d' e k = elim (string_key.equal id j) [
  | yes p ↦ (
    d',
    subst (λ x. get x (insert id d' a.disputes) ≡ some d') p (get-insert_self id d' a.disputes),
    k p,
  )
  | no n ↦ (d, get-insert_ne id j d' a.disputes n ∙ e, Keeps-refl d)
]

same_dispute : (x y : AiDispute) → some x ≡ some y → x ≡ y
same_dispute x y h = cc

pub Effect-Keeps :
    (a : AiArbitrator) (op : Op) (b : AiArbitrator) (j : String) (d : AiDispute)
    → Effect a op b
    → IsFresh a op
    → get j a.disputes ≡ some d
    → (r : AiDispute) × (get j b.disputes ≡ some r) × Keeps d r
Effect-Keeps a op b j d (nothing same) fresh e = (d, ap (get j) same ∙ e, Keeps-refl d)
Effect-Keeps a op b j d (begun id escrow client provider amount now is_op lo hi eq) fresh e =
    let unused : get id a.disputes ≡ none = subst (IsFresh a) is_op fresh in
    let (r, at, k) =
      written_Keeps a id j d _ e
        (λ p. absurd (clash _ (sym (subst (λ x. get x a.disputes ≡ none) p unused) ∙ e))) in
    (r, ap (get j) eq ∙ at, k)
  where
    clash : (x : AiDispute) → none ≡ some x → ⊥
    clash x h = cc
Effect-Keeps a op b j d (moved id before after was eq move) fresh e =
    let (r, at, k) = written_Keeps a id j d after e (λ p.
      subst (λ x. Keeps x after)
        (same_dispute before d (sym (subst (λ x. get x a.disputes ≡ some before) p was) ∙ e))
        (Move-Keeps move)) in
    (r, ap (get j) eq ∙ at, k)

-- Along any history in which new disputes get unused ids, no dispute is lost, and none goes back:
-- its stage does not fall, its parties and its amount stay, the evidence of each party stays and
-- only has more added at its end, a ruling once made stays, and a resolved dispute does not change
-- at all.
pub run-Keeps :
    (a : AiArbitrator) (ops : List Op) (id : String) (d : AiDispute)
    → FreshIds a ops
    → get id a.disputes ≡ some d
    → (r : AiDispute) × (get id (run a ops).disputes ≡ some r) × Keeps d r
unfolding run
run-Keeps a [] id d fresh e = (d, e, Keeps-refl d)
run-Keeps a (op ∷ ops) id d fresh e =
    let (m, at, k) = Effect-Keeps a op (apply a op) id d (apply-Effect a op) fresh.0 e in
    let (r, at', l) = run-Keeps (apply a op) ops id m fresh.1 at in (r, at', Keeps-trans k l)
