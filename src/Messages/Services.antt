-- ===== src/Messages/Services.antt =====
-- The services behind the handler (node/src/network/message_handler.rs), after calls and events.
use agentme.Prelude.{
  string_key, ◌≡◌, refl, sym, ap, Bool, true, false, Option, none, some, List, [], ◌∷◌, ◌++◌,
  if◌then◌else◌, Result, ok, err,
}
use agentme.Float.{F64Math}
use agentme.Discovery.{Outcome}
use agentme.Trust.{TrustService}
use agentme.Trust.Ledger as Ledger
use agentme.Trust.Ledger.{Call}
use agentme.Arbitration.Ai.{AiArbitrator}
use agentme.Arbitration.Ai.Ops as Ops
use agentme.Arbitration.Ai.Ops.{Op}
use agentme.Messages.{MessageHandler, Error}
use agentme.Messages.Handling.{Handled, processed, discovered, trusted, disputed}
use agentme.Messages.Effects.{on_some, kept, settled, run_none, ops_none}
use agentme.Messages.Accepted.{Kind, discovery, capability, trust, disputes, unknown}

abbrev pub Services : Type 0 → Type 0
Services F = Option (TrustService F) × Option AiArbitrator

module _ {F R : Type 0} where
  abbrev pub services : MessageHandler F R → Services F
  services h = (h.trust_service, h.arbitrator)

  pub services-processed : (x : Handled F R) → services (processed x).0 ≡ services x.0
  services-processed (h, ok u) = refl
  services-processed (h, err e) = refl

  pub services-discovered :
      (h : MessageHandler F R) (o : Outcome F R (Unit {0}))
      → services (discovered h o).0 ≡ services h
  services-discovered h (s, sent, ok u) = refl
  services-discovered h (s, sent, err e) = refl

  pub services-trusted :
      (h : MessageHandler F R) (r : Result Error (Option (TrustService F)))
      → services (trusted h r).0 ≡ (kept h.trust_service r, h.arbitrator)
  services-trusted h (ok s) = refl
  services-trusted h (err e) = refl

  pub services-disputed :
      (h : MessageHandler F R) (r : Result Error AiArbitrator)
      → services (disputed h r).0 ≡ (h.trust_service, settled h.arbitrator r)
  services-disputed h (ok s) = refl
  services-disputed h (err e) = refl

pub pair_eq :
    {A B : Type 0} {x x1 : A} {y y1 : B} → x ≡ x1 → y ≡ y1 → ◌≡◌ {A = A × B} (x, y) (x1, y1)
pair_eq p q = cc

pub same_arbitrator : (x y : AiArbitrator) → some x ≡ some y → x ≡ y
same_arbitrator x y h = cc

pub if_kind :
    {A : Type 0} (g : Kind → A) (a b c d : Bool)
    → (if a
        then g discovery
        else if b
        then g capability
        else if c
        then g trust
        else if d
        then g disputes
        else g unknown)
      ≡ g (
          if a
          then discovery
          else if b
          then capability
          else if c
          then trust
          else if d
          then disputes
          else unknown)
if_kind g true b c d = refl
if_kind g false true c d = refl
if_kind g false false true d = refl
if_kind g false false false true = refl
if_kind g false false false false = refl

module _ {F : Type 0} (m : F64Math F) where
  -- The services after calls and arbitrator events.
  abbrev pub served : Services F → List (Call F) → List Op → Services F
  served (s, a) calls ops = (on_some (λ t. Ledger.run m t calls) s, on_some (λ t. Ops.run t ops) a)

  pub unserved : (x : Services F) → x ≡ served x [] []
  unserved (s, a) = pair_eq (run_none m s) (ops_none a)

  Ledger-append :
      (s : TrustService F) (calls calls' : List (Call F))
      → Ledger.run m s (calls ++ calls') ≡ Ledger.run m (Ledger.run m s calls) calls'
  unfolding Ledger.run
  Ledger-append s [] calls' = refl
  Ledger-append s (c ∷ calls) calls' = Ledger-append (Ledger.apply m s c) calls calls'

  Ops-append :
      (a : AiArbitrator) (ops ops' : List Op)
      → Ops.run a (ops ++ ops') ≡ Ops.run (Ops.run a ops) ops'
  unfolding Ops.run
  Ops-append a [] ops' = refl
  Ops-append a (op ∷ ops) ops' = Ops-append (Ops.apply a op) ops ops'

  on_some-calls :
      (s : Option (TrustService F)) (calls calls' : List (Call F))
      → on_some (λ t. Ledger.run m t calls') (on_some (λ t. Ledger.run m t calls) s)
        ≡ on_some (λ t. Ledger.run m t (calls ++ calls')) s
  on_some-calls none calls calls' = refl
  on_some-calls (some s) calls calls' = ap some (sym (Ledger-append s calls calls'))

  on_some-ops :
      (a : Option AiArbitrator) (ops ops' : List Op)
      → on_some (λ t. Ops.run t ops') (on_some (λ t. Ops.run t ops) a)
        ≡ on_some (λ t. Ops.run t (ops ++ ops')) a
  on_some-ops none ops ops' = refl
  on_some-ops (some a) ops ops' = ap some (sym (Ops-append a ops ops'))

  pub served-append :
      (x : Services F) (calls calls' : List (Call F)) (ops ops' : List Op)
      → served (served x calls ops) calls' ops' ≡ served x (calls ++ calls') (ops ++ ops')
  served-append (s, a) calls calls' ops ops' =
      pair_eq (on_some-calls s calls calls') (on_some-ops a ops ops')
