-- ===== src/Messages/Effects.antt =====
-- What messages do to the services behind the handler.
use agentme.Prelude.{
  ℕ, ◌≡◌, refl, ap, ◌∙◌, Bool, true, false, ◌&&◌, not, Option, none, some, List, [], ◌∷◌,
  if◌then◌else◌, String, Result, ok, err, ◌>>=◌, ◌>>◌, guard, ok_or, Text,
}
use agentme.Float.{F64Math}
use agentme.Arbitration.Evidence.{Evidence}
use agentme.Trust.{in_unit, TrustService, TrustError, is_did, record_success, record_failure}
use agentme.Trust.Ledger as Ledger
use agentme.Trust.Ledger.{Call, success, failure}
use agentme.Arbitration.Ai as Ai
use agentme.Arbitration.Ai.{AiArbitrator, create_dispute, submit_evidence, get_dispute}
use agentme.Arbitration.Ai.Ops as Ops
use agentme.Arbitration.Ai.Ops.{Op, creates, submits}
use agentme.Messages.{
  TrustMessage, trust_update, reputation_event, DisputeMessage, create, submit, status, Error,
  invalid_did, future_timestamp, score_out_of_range, score_deviates, no_arbitrator, in_time,
  names_did, check_evidence, text_evidence, process_dispute, process_create_dispute,
  process_submit_evidence, process_dispute_status, arbitration, trust_result,
}
use agentme.Messages.Handling.{process_trust_message, recorded, known}

-- The calls and events of a message that passes the tests.
abbrev pub passing_calls : {F : Type 0} → Option (TrustMessage F) → ℕ → List (Call F)
passing_calls (some (reputation_event did is_success amount timestamp)) now =
    if is_did did && in_time timestamp now
    then (if is_success then success did now else failure did now) ∷ []
    else []
passing_calls _ now = []

abbrev pub is_ok {ℓ} : {A : Type ℓ} → Result Error A → Bool
is_ok (ok x) = true
is_ok (err e) = false

abbrev pub passing_ops : Option DisputeMessage → ℕ → String → List Op
passing_ops (some (create escrow client provider amount timestamp)) now id =
    if names_did client && (names_did provider && in_time timestamp now)
    then creates id escrow client provider amount now ∷ []
    else []
passing_ops (some (submit dispute submitter title description timestamp)) now id =
    if names_did submitter && (in_time timestamp now && is_ok (check_evidence title description))
    then submits dispute (text_evidence id submitter title description now) now ∷ []
    else []
passing_ops _ now id = []

abbrev pub on_some {ℓ κ} : {A : Type ℓ} {B : Type κ} → (A → B) → Option A → Option B
on_some g none = none
on_some g (some x) = some (g x)

-- The service after a step that may fail.
abbrev pub kept {ℓ} : {A : Type ℓ} → A → Result Error A → A
kept s (ok s') = s'
kept s (err e) = s

kept-guards {ℓ} :
    {A : Type ℓ} (s : A) (a b c d : Bool) (e e1 e2 e3 : Error)
    → kept s (guard a e >> (guard b e1 >> (guard c e2 >> (guard d e3 >> ok s)))) ≡ s
kept-guards s true true true true e e1 e2 e3 = refl
kept-guards s true true true false e e1 e2 e3 = refl
kept-guards s true true false d e e1 e2 e3 = refl
kept-guards s true false c d e e1 e2 e3 = refl
kept-guards s false b c d e e1 e2 e3 = refl

module _ {F : Type 0} (m : F64Math F) where
  wrapped :
      (s : TrustService F) (r : Result TrustError (TrustService F))
      → kept (some s) (trust_result r >>= λ s'. ok (some s')) ≡ some (Ledger.after m s r)
  wrapped s (ok s') = refl
  wrapped s (err e) = refl

  recorded-kept :
      (s : Option (TrustService F)) (did : Text) (is_success : Bool) (now : ℕ)
      → kept s (recorded m s did is_success now)
        ≡ on_some
            (λ t. Ledger.run m t ((if is_success then success did now else failure did now) ∷ []))
            s
  unfolding Ledger.run Ledger.apply
  recorded-kept none did is_success now = refl
  recorded-kept (some s) did true now = wrapped s (record_success s did now)
  recorded-kept (some s) did false now = wrapped s (record_failure s did now)

  pub run_none : (s : Option (TrustService F)) → s ≡ on_some (λ t. Ledger.run m t []) s
  unfolding Ledger.run
  run_none none = refl
  run_none (some s) = refl

  guarded_call :
      (s : Option (TrustService F)) (b c : Bool) (e e' : Error)
      (r : Result Error (Option (TrustService F))) (call : Call F)
      → kept s r ≡ on_some (λ t. Ledger.run m t (call ∷ [])) s
      → kept s (guard b e >> (guard c e' >> r))
        ≡ on_some (λ t. Ledger.run m t (if b && c then call ∷ [] else [])) s
  guarded_call s true true e e' r call p = p
  guarded_call s true false e e' r call p = run_none s
  guarded_call s false c e e' r call p = run_none s

  pub process_trust_message-kept :
      (s : Option (TrustService F)) (msg : TrustMessage F) (now : ℕ)
      → kept s (process_trust_message m s msg now)
        ≡ on_some (λ t. Ledger.run m t (passing_calls (some msg) now)) s
  unfolding process_trust_message
  process_trust_message-kept s (trust_update did trust_score timestamp) now =
      kept-guards s (in_unit m trust_score) (is_did did) (in_time timestamp now)
        (not (known m s trust_score did now)) score_out_of_range invalid_did future_timestamp
        score_deviates
      ∙ run_none s
  process_trust_message-kept s (reputation_event did is_success amount timestamp) now =
      guarded_call s (is_did did) (in_time timestamp now) invalid_did future_timestamp
        (recorded m s did is_success now) (if is_success then success did now else failure did now)
        (recorded-kept s did is_success now)

-- The arbitrator behind the handler after a step.
abbrev pub settled : Option AiArbitrator → Result Error AiArbitrator → Option AiArbitrator
settled o (ok a) = some a
settled o (err e) = o

submitted :
    (a : AiArbitrator) (r : Result Ai.Error AiArbitrator)
    → settled (some a) (arbitration r) ≡ some (Ops.after a r)
submitted a (ok b) = refl
submitted a (err e) = refl

created :
    {A : Type 0} (a : AiArbitrator) (r : Result Ai.Error (AiArbitrator × A))
    → settled (some a) (arbitration r >>= λ (b, x). ok b) ≡ some (Ops.after_pair a r)
created a (ok (b, x)) = refl
created a (err e) = refl

unchanged :
    {A : Type 0} (a : AiArbitrator) (r : Result Ai.Error A)
    → settled (some a) (arbitration r >>= λ d. ok a) ≡ some a
unchanged a (ok b) = refl
unchanged a (err e) = refl

pub ops_none : (o : Option AiArbitrator) → o ≡ on_some (λ a. Ops.run a []) o
unfolding Ops.run
ops_none none = refl
ops_none (some a) = refl

call_create :
    (o : Option AiArbitrator) (id escrow client provider : String) (amount now : ℕ)
    → settled o (
        ok_or o no_arbitrator >>= λ a.
        arbitration (create_dispute a id escrow client provider amount now) >>= λ (b, x). ok b)
      ≡ on_some (λ a. Ops.run a (creates id escrow client provider amount now ∷ [])) o
unfolding Ops.run Ops.apply
call_create none id escrow client provider amount now = refl
call_create (some a) id escrow client provider amount now =
    created a (create_dispute a id escrow client provider amount now)

call_submit :
    (o : Option AiArbitrator) (dispute : String) (e : Evidence) (now : ℕ)
    → settled o (ok_or o no_arbitrator >>= λ a. arbitration (submit_evidence a dispute e now))
      ≡ on_some (λ a. Ops.run a (submits dispute e now ∷ [])) o
unfolding Ops.run Ops.apply
call_submit none dispute e now = refl
call_submit (some a) dispute e now = submitted a (submit_evidence a dispute e now)

query :
    (o : Option AiArbitrator) (b : Bool) (e : Error) (dispute : String)
    → settled o (
        guard b e
        >> (ok_or o no_arbitrator >>= λ a. arbitration (get_dispute a dispute) >>= λ d. ok a))
      ≡ o
query o false e dispute = refl
query none true e dispute = refl
query (some a) true e dispute = unchanged a (get_dispute a dispute)

guarded_op :
    (o : Option AiArbitrator) (b c : Bool) (e e1 : Error) (x : Result Error (Unit {0}))
    (r : Result Error AiArbitrator) (op : Op)
    → settled o r ≡ on_some (λ a. Ops.run a (op ∷ [])) o
    → settled o (guard b e >> (guard c e1 >> (x >> r)))
      ≡ on_some (λ a. Ops.run a (if b && (c && is_ok x) then op ∷ [] else [])) o
guarded_op o true true e e1 (ok u) r op p = p
guarded_op o true true e e1 (err f) r op p = ops_none o
guarded_op o true false e e1 x r op p = ops_none o
guarded_op o false c e e1 x r op p = ops_none o

is_ok-guard : (b : Bool) (e : Error) → is_ok (guard b e) ≡ b
is_ok-guard true e = refl
is_ok-guard false e = refl

pub process_dispute-settled :
    (o : Option AiArbitrator) (msg : DisputeMessage) (now : ℕ) (id : String)
    → settled o (process_dispute o msg now id)
      ≡ on_some (λ a. Ops.run a (passing_ops (some msg) now id)) o
unfolding process_create_dispute process_submit_evidence process_dispute_status
process_dispute-settled o (create escrow client provider amount timestamp) now id =
    guarded_op o (names_did client) (names_did provider) invalid_did invalid_did
      (guard (in_time timestamp now) future_timestamp) _ _
      (call_create o id escrow client provider amount now)
    ∙ ap
        (λ b.
          on_some
            (λ a. Ops.run a (
              if names_did client && (names_did provider && b)
              then creates id escrow client provider amount now ∷ []
              else []))
            o)
        (is_ok-guard (in_time timestamp now) future_timestamp)
process_dispute-settled o (submit dispute submitter title description timestamp) now id =
    guarded_op o (names_did submitter) (in_time timestamp now) invalid_did future_timestamp
      (check_evidence title description) _ _
      (call_submit o dispute (text_evidence id submitter title description now) now)
process_dispute-settled o (status dispute timestamp) now id =
    query o (in_time timestamp now) future_timestamp dispute ∙ ops_none o
