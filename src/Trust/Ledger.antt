-- ===== src/Trust/Ledger.antt =====
-- What the calls of the service leave in an agent's record.
pub mod Totals
use agentme.Prelude.{
  ℕ, ◌≡◌, refl, ap, ◌∙◌, Bool, true, false, List, [], ◌∷◌, ◌&&◌, if◌then◌else◌, Result, ok, err,
  Text, text_key, same, guard, ◌>>◌, arith,
}
use agentme.Prelude.Map.{get-insert}
use agentme.Float.{F64Math}
use agentme.Trust.{
  TrustService, TrustData, is_did, add_one, entry, put, succeeded, failed, endorsed, in_unit,
  record_success, record_failure, endorse, add_endorsement_with_hop, TrustError, anonymous,
  invalid_did, invalid_weight,
}

pub data Call (F : Type 0) : Type 0 where
  success failure : Text → ℕ → Call F
  endorsement : Text → F → Call F
  hop_endorsement : Text → Text → ℕ → Call F

module _ {F : Type 0} (m : F64Math F) where
  abbrev pub after : TrustService F → Result TrustError (TrustService F) → TrustService F
  after s (ok s') = s'
  after s (err e) = s

  unfoldable pub apply : TrustService F → Call F → TrustService F
  apply s (success did now) = after s (record_success s did now)
  apply s (failure did now) = after s (record_failure s did now)
  apply s (endorsement did weight) = after s (endorse m s did weight)
  apply s (hop_endorsement endorser did hops) =
      after s (add_endorsement_with_hop s endorser did hops)

  unfoldable pub run : TrustService F → List (Call F) → TrustService F
  run s [] = s
  run s (c ∷ calls) = run (apply s c) calls

  -- The agent that a call is about, if it is valid.
  abbrev pub target : Call F → Text
  target (success did now) = did
  target (failure did now) = did
  target (endorsement did weight) = did
  target (hop_endorsement endorser did hops) = did

  abbrev pub is_valid : Call F → Bool
  is_valid (endorsement did weight) = is_did did && in_unit m weight
  is_valid (hop_endorsement endorser did hops) = is_did endorser && is_did did
  is_valid (success did now) = is_did did
  is_valid (failure did now) = is_did did

  -- What a valid call makes of the record of its agent.
  abbrev pub entered : Call F → TrustData → TrustData
  entered (success did now) d = succeeded d now
  entered (failure did now) d = failed d now
  entered (endorsement did weight) d = endorsed d (anonymous (add_one d.endorsement_count)) 1
  entered (hop_endorsement endorser did hops) d = endorsed d endorser hops

  -- The record of one agent, from the calls about it alone.
  abbrev pub ledger : Text → TrustData → List (Call F) → TrustData
  ledger did d [] = d
  ledger did d (c ∷ calls) =
      ledger did (if same (target c) did && is_valid c then entered c d else d) calls

  entry-put :
      (s : TrustService F) (a did : Text) (d : TrustData)
      → entry (put s a d) did ≡ (if same a did then d else entry s did)
  entry-put s a did d = ground (arith, get-insert a did d s.cache)

  guarded :
      (s s' : TrustService F) (b : Bool) (e : TrustError)
      → after s (guard b e >> ok s') ≡ (if b then s' else s)
  guarded s s' true e = refl
  guarded s s' false e = refl

  guarded_twice :
      (s s' : TrustService F) (b c : Bool) (e e' : TrustError)
      → after s (guard b e >> (guard c e' >> ok s')) ≡ (if b && c then s' else s)
  guarded_twice s s' true true e e' = refl
  guarded_twice s s' true false e e' = refl
  guarded_twice s s' false c e e' = refl

  apply-entered :
      (s : TrustService F) (c : Call F)
      → apply s c ≡ (if is_valid c then put s (target c) (entered c (entry s (target c))) else s)
  unfolding apply record_success record_failure endorse add_endorsement_with_hop
  apply-entered s (success did now) = guarded s _ (is_did did) invalid_did
  apply-entered s (failure did now) = guarded s _ (is_did did) invalid_did
  apply-entered s (endorsement did weight) =
      guarded_twice s _ (is_did did) (in_unit m weight) invalid_did invalid_weight
  apply-entered s (hop_endorsement endorser did hops) =
      guarded_twice s _ (is_did endorser) (is_did did) invalid_did invalid_did

  entry-step :
      (s : TrustService F) (t did : Text) (b : Bool) (g : TrustData → TrustData)
      → entry (if b then put s t (g (entry s t)) else s) did
        ≡ (if same t did && b then g (entry s did) else entry s did)
  entry-step s t did b g = elim (text_key.equal t did) [
    | yes p ↦ ground (arith, entry-put s t did (g (entry s t)), p)
    | no n ↦ ground (arith, entry-put s t did (g (entry s t)), n)
  ]

  entry-apply :
      (s : TrustService F) (c : Call F) (did : Text)
      → entry (apply s c) did
        ≡ (if same (target c) did && is_valid c then entered c (entry s did) else entry s did)
  entry-apply s c did =
      ap (λ x. entry x did) (apply-entered s c)
      ∙ entry-step s (target c) did (is_valid c) (entered c)

  -- The record of an agent, from the calls about it, one after the other.
  pub entry-ledger :
      (s : TrustService F) (calls : List (Call F)) (did : Text)
      → entry (run s calls) did ≡ ledger did (entry s did) calls
  unfolding run
  entry-ledger s [] did = refl
  entry-ledger s (c ∷ calls) did =
      entry-ledger (apply s c) calls did ∙ ap (λ d. ledger did d calls) (entry-apply s c did)
