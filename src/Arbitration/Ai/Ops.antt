-- ===== src/Arbitration/Ai/Ops.antt =====
-- The methods of the arbitrator as events, and their histories.
use agentme.Prelude.{ℕ, String, List, [], ◌∷◌, Result, ok, err}
use agentme.Arbitration.Evidence.{Evidence}
use agentme.Arbitration.Ai.{
  AiArbitrator, Error, create_dispute, submit_evidence, close_evidence_period, request_ruling,
  appeal_to_kleros, resolve_dispute,
}

pub data Op : Type 0 where
  creates : String → String → String → String → ℕ → ℕ → Op
  submits : String → Evidence → ℕ → Op
  closes : String → Op
  rules : String → ℕ → Op
  appeals : String → ℕ → Op
  resolves : String → Op

abbrev pub after : AiArbitrator → Result Error AiArbitrator → AiArbitrator
after a (ok b) = b
after a (err e) = a

abbrev pub after_pair : {A : Type 0} → AiArbitrator → Result Error (AiArbitrator × A) → AiArbitrator
after_pair a (ok (b, x)) = b
after_pair a (err e) = a

unfoldable pub apply : AiArbitrator → Op → AiArbitrator
apply a (creates id escrow client provider amount now) =
    after_pair a (create_dispute a id escrow client provider amount now)
apply a (submits id e now) = after a (submit_evidence a id e now)
apply a (closes id) = after a (close_evidence_period a id)
apply a (rules id now) = after_pair a (request_ruling a id now)
apply a (appeals id now) = after_pair a (appeal_to_kleros a id now)
apply a (resolves id) = after a (resolve_dispute a id)

unfoldable pub run : AiArbitrator → List Op → AiArbitrator
run a [] = a
run a (op ∷ ops) = run (apply a op) ops
