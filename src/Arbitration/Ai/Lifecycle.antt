-- ===== src/Arbitration/Ai/Lifecycle.antt =====
-- The life of one dispute as a relation, and that every method of the arbitrator makes one of its
-- moves, or none.
use agentme.Prelude.{
  ℕ, ◌≤◌, ◌<◌, ◌≡◌, refl, ◌≢◌, ◌⊎◌, inl, inr, true, some, [], ◌∷◌, ◌++◌, arith, length, String,
  string_key, ok, Bool-cases, Option-cases, Result-cases, leb, ltb,
}
use agentme.Prelude.Map.{get, insert, insert-insert, get-insert_self}
use agentme.Arbitration.Tiers.{tier_1_max_usdc, tier_2_max_usdc}
use agentme.Arbitration.Evidence.{Evidence, AiRuling}
use agentme.Arbitration.Ai.{
  AiDispute, AiDisputeState, awaiting_evidence, analyzing, ruled, appealed, resolved, AiArbitrator,
  is_awaiting, may_resolve, new_dispute, submitted, create_dispute, submit_evidence,
  close_evidence_period, analyze_dispute, request_ruling, appeal_to_kleros, resolve_dispute,
}
use agentme.Arbitration.Ai.Ops.{Op, creates, submits, closes, rules, appeals, resolves, apply}

-- One move of a dispute, for parties that may hand in `limit` pieces of evidence each.
pub data Move (limit : ℕ) (d d' : AiDispute) : Type 0 where
  client_hands_in :
      (e : Evidence) (now : ℕ)
      → d.state ≡ awaiting_evidence
      → now < d.evidence_deadline
      → e.submitter_did ≡ d.client_did
      → length d.client_evidence < limit
      → d' ≡ record d { client_evidence = d.client_evidence ++ (e ∷ []) }
      → Move limit d d'
  provider_hands_in :
      (e : Evidence) (now : ℕ)
      → d.state ≡ awaiting_evidence
      → now < d.evidence_deadline
      → e.submitter_did ≢ d.client_did
      → e.submitter_did ≡ d.provider_did
      → length d.provider_evidence < limit
      → d' ≡ record d { provider_evidence = d.provider_evidence ++ (e ∷ []) }
      → Move limit d d'
  close : d.state ≡ awaiting_evidence → d' ≡ record d { state = analyzing } → Move limit d d'
  rule :
      (now : ℕ)
      → (d.state ≡ awaiting_evidence) ⊎ (d.state ≡ analyzing)
      → d' ≡ record d { state = ruled; ruling = some (analyze_dispute d now) }
      → Move limit d d'
  appeal :
      (r : AiRuling) (case now : ℕ)
      → d.state ≡ ruled
      → d.ruling ≡ some r
      → now < r.appeal_deadline
      → d' ≡ record d { state = appealed; kleros_dispute_id = some case }
      → Move limit d d'
  resolve :
      (d.state ≡ ruled) ⊎ (d.state ≡ appealed)
      → d' ≡ record d { state = resolved }
      → Move limit d d'

-- What a method did to the disputes.
pub data Effect (a : AiArbitrator) (op : Op) (b : AiArbitrator) : Type 0 where
  nothing : b.disputes ≡ a.disputes → Effect a op b
  begun :
      (id escrow client provider : String) (amount now : ℕ)
      → op ≡ creates id escrow client provider amount now
      → tier_1_max_usdc ≤ amount
      → amount < tier_2_max_usdc
      → b.disputes ≡ insert id (new_dispute id escrow client provider amount now) a.disputes
      → Effect a op b
  moved :
      (id : String) (d d' : AiDispute)
      → get id a.disputes ≡ some d
      → b.disputes ≡ insert id d' a.disputes
      → Move a.config.max_evidence_per_party d d'
      → Effect a op b

creates-Effect :
    (a : AiArbitrator) (id escrow client provider : String) (amount now : ℕ)
    → Effect a
        (creates id escrow client provider amount now)
        (apply a (creates id escrow client provider amount now))
unfolding apply create_dispute
creates-Effect a id escrow client provider amount now =
    elim (Bool-cases (ltb amount tier_1_max_usdc)) [
      | inl low ↦ nothing (ground arith)
      | inr fits ↦ elim (Bool-cases (leb tier_2_max_usdc amount)) [
        | inl high ↦ nothing (ground arith)
        | inr fits' ↦
            begun id escrow client provider amount now refl (ground arith) (ground arith)
              (ground arith)
      ]
    ]

closes-Effect : (a : AiArbitrator) (id : String) → Effect a (closes id) (apply a (closes id))
unfolding apply close_evidence_period
closes-Effect a id = elim (Option-cases (get id a.disputes)) [
  | inl e ↦ nothing (ground arith)
  | inr (d, e) ↦ elim (Bool-cases (is_awaiting d.state)) [
    | inl w ↦
        moved id d (record d { state = analyzing }) e (ground arith) (close (ground arith) refl)
    | inr n ↦ nothing (ground arith)
  ]
]

resolves-Effect : (a : AiArbitrator) (id : String) → Effect a (resolves id) (apply a (resolves id))
unfolding apply resolve_dispute
resolves-Effect a id = elim (Option-cases (get id a.disputes)) [
  | inl e ↦ nothing (ground arith)
  | inr (d, e) ↦ elim (Bool-cases (may_resolve d.state)) [
    | inl w ↦
        moved id d (record d { state = resolved }) e (ground arith)
          (resolve (may_resolve_from d.state w) refl)
    | inr n ↦ nothing (ground arith)
  ]
]
  where
    may_resolve_from : (s : AiDisputeState) → may_resolve s ≡ true → (s ≡ ruled) ⊎ (s ≡ appealed)
    may_resolve_from s h = grind arith

-- Evidence that is taken is a move of the party that hands it in.
submitted-Move :
    (limit : ℕ) (d d' : AiDispute) (ev : Evidence) (now : ℕ)
    → submitted limit d ev now ≡ ok d'
    → Move limit d d'
unfolding submitted
submitted-Move limit d d' ev now h = elim (string_key.equal ev.submitter_did d.client_did) [
  | yes p ↦ client_hands_in ev now (ground arith) (ground arith) p (ground arith) (ground arith)
  | no n ↦
      provider_hands_in ev now (ground arith) (ground arith) n (ground arith) (ground arith)
        (ground arith)
]

submits-Effect :
    (a : AiArbitrator) (id : String) (ev : Evidence) (now : ℕ)
    → Effect a (submits id ev now) (apply a (submits id ev now))
unfolding apply submit_evidence
submits-Effect a id ev now = elim (Option-cases (get id a.disputes)) [
  | inl e ↦ nothing (ground arith)
  | inr (d, e) ↦ elim (Result-cases (submitted a.config.max_evidence_per_party d ev now)) [
    | inl (d', h) ↦
        moved id d d' e (ground arith)
          (submitted-Move a.config.max_evidence_per_party d d' ev now h)
    | inr (x, h) ↦ nothing (ground arith)
  ]
]

rules-Effect :
    (a : AiArbitrator) (id : String) (now : ℕ) → Effect a (rules id now) (apply a (rules id now))
unfolding apply request_ruling
rules-Effect a id now = elim (Option-cases (get id a.disputes)) [
  | inl e ↦ nothing (ground arith)
  | inr (d, e) ↦ from d e d.state refl
]
  where
    from :
        (d : AiDispute)
        → get id a.disputes ≡ some d
        → (s : AiDisputeState) → d.state ≡ s
        → Effect a (rules id now) (apply a (rules id now))
    from d e awaiting_evidence st =
        let closed = record d { state = analyzing } in
        let final = record d { state = ruled; ruling = some (analyze_dispute d now) } in
        moved id d final e
          (ground
            (arith, get-insert_self id closed a.disputes, insert-insert id final closed a.disputes))
          (rule now (inl st) refl)
    from d e analyzing st =
        moved id d (record d { state = ruled; ruling = some (analyze_dispute d now) }) e
          (ground arith) (rule now (inr st) refl)
    from d e ruled st = nothing (ground arith)
    from d e appealed st = nothing (ground arith)
    from d e resolved st = nothing (ground arith)

-- An appeal that is filed is a move of a dispute whose ruling may still be appealed.
appeal-Effect :
    (a b : AiArbitrator) (id : String) (case now : ℕ)
    → appeal_to_kleros a id now ≡ ok (b, case)
    → Effect a (appeals id now) b
unfolding appeal_to_kleros
appeal-Effect a b id case now h = elim (Option-cases (get id a.disputes)) [
  | inl e ↦ absurd (ground arith)
  | inr (d, e) ↦ elim (Option-cases d.ruling) [
    | inl missing ↦ absurd (ground arith)
    | inr (r, made) ↦
        moved id d (record d { state = appealed; kleros_dispute_id = some case }) e (ground arith)
          (appeal r case now (ground arith) made (ground arith) refl)
  ]
]

appeals-Effect :
    (a : AiArbitrator) (id : String) (now : ℕ)
    → Effect a (appeals id now) (apply a (appeals id now))
unfolding apply
appeals-Effect a id now = elim (Result-cases (appeal_to_kleros a id now)) [
  | inr (x, h) ↦ nothing (ground arith)
  | inl ((b, case), h) ↦ rw h (appeal-Effect a b id case now h)
]

-- Whatever method is called, with whatever outcome, it begins one dispute whose amount is of the
-- second tier, makes one move of one dispute, or leaves the disputes as they are.
pub apply-Effect : (a : AiArbitrator) (op : Op) → Effect a op (apply a op)
apply-Effect a (creates id escrow client provider amount now) =
    creates-Effect a id escrow client provider amount now
apply-Effect a (submits id ev now) = submits-Effect a id ev now
apply-Effect a (closes id) = closes-Effect a id
apply-Effect a (rules id now) = rules-Effect a id now
apply-Effect a (appeals id now) = appeals-Effect a id now
apply-Effect a (resolves id) = resolves-Effect a id
