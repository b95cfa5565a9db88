-- ===== src/Arbitration/Pool/Service/Activity.antt =====
-- The number of active jurors that the statistics keep, and the jurors that a settled session frees.
use agentme.Prelude.{
  ℕ, ◌+◌, ◌%◌, ◌≡◌, refl, inl, inr, Bool, Option, none, some, List, [], ◌∷◌, arith, if◌then◌else◌,
  All, count, Option-cases, Result-cases, subst, String, string_key, Result, ok, err,
}
use agentme.Prelude.Map.{Map, get, insert}
use agentme.Float.{F64}
use agentme.Arbitration.Session
use agentme.Arbitration.Session.{
  ruling_key, ℤ, JurorVote, VotingSession, IterationOrder, calculate_coherence, is_completed,
  voted_in,
}
use agentme.Arbitration.Pool.{
  Juror, JurorPool, JurorPoolConfig, JurorStatus, serving, Error, new, new_juror, register_juror,
  update_stake, set_juror_status, selectable_count, is_selectable, u64_mod, is_empty,
  record_registration,
}
use agentme.Arbitration.Pool.Draw.{select_jurors}
use agentme.Arbitration.Pool.Service.{
  mark_serving, open_if_marked, on_session, advance_session_state, commit_vote, reveal_vote,
  create_session,
}
use agentme.Arbitration.Pool.Service.Histories.{
  Op, registers, stakes, becomes, opens, advances, commits, reveals, finalizes, after, apply, run,
}

module _ {F : Type 0} where
  abbrev worth : Option (Juror F) → ℕ
  worth none = 0
  worth (some j) = if is_selectable j.status then 1 else 0

  abbrev selectable : String × Juror F → Bool
  selectable e = is_selectable e.1.status

  count-insert :
      (did : String) (j : Juror F) (m : Map String (Juror F))
      → count selectable (insert did j m) + worth (get did m) ≡ count selectable m + worth (some j)
  count-insert did j [] = omega arith
  count-insert did j ((k, v) ∷ m) = ground (arith, count-insert did j m)

  abbrev Counted : JurorPool F → Type 0
  Counted p = p.stats.jurors_active ≡ selectable_count p % u64_mod

  update_stake-Counted :
      (p q : JurorPool F) (did : String) (stake : ℕ)
      → update_stake p did stake ≡ ok q
      → Counted p
      → Counted q
  unfolding update_stake selectable_count
  update_stake-Counted p q did stake h c = elim (Option-cases (get did p.jurors)) [
    | inl missing ↦ absurd (ground arith)
    | inr (j, found) ↦
        subst Counted
          {x = record p { jurors = insert did (record j { stake_usdc = stake }) p.jurors }} {y = q}
          (ground arith)
          (ground (arith, c, count-insert did (record j { stake_usdc = stake }) p.jurors))
  ]

  set_juror_status-Counted :
      (p q : JurorPool F) (did : String) (status : JurorStatus)
      → set_juror_status p did status ≡ ok q
      → Counted p
      → Counted q
  unfolding set_juror_status selectable_count
  set_juror_status-Counted p q did status h c = elim (Option-cases (get did p.jurors)) [
    | inl missing ↦ absurd (ground arith)
    | inr (j, found) ↦ ground (arith, c, count-insert did (record j { status = status }) p.jurors)
  ]

  mark_serving-Counted :
      (p : JurorPool F) (dids : List String) → Counted p → Counted (mark_serving p dids).0
  unfolding mark_serving
  mark_serving-Counted p [] c = c
  mark_serving-Counted p (did ∷ dids) c = elim (Result-cases (set_juror_status p did serving)) [
    | inl (q, set) ↦
        rw (set, mark_serving)
          (mark_serving-Counted q dids (set_juror_status-Counted p q did serving set c))
    | inr (e, failed) ↦ rw (failed, mark_serving) c
  ]

  open_if_marked-Counted :
      (r : JurorPool F × Result Error (Unit {0})) (id : String) (s : VotingSession)
      → Counted r.0
      → Counted (open_if_marked r id s).0
  unfolding selectable_count
  open_if_marked-Counted (p, ok u) id s c = c
  open_if_marked-Counted (p, err e) id s c = c

  on_session-Counted :
      (p : JurorPool F) (id : String) (f : VotingSession → Result Session.Error VotingSession)
      → Counted p
      → Counted (after p (on_session p id f))
  unfolding selectable_count
  on_session-Counted p id f c = ground (arith, c)

module _ {F : Type 0} ⦃fl : F64 F⦄ where
  register_juror-Counted :
      (p q : JurorPool F) (did : String) (stake : ℕ) (courts : List ℕ) (now : ℕ)
      → register_juror p did stake courts now ≡ ok q
      → Counted p
      → Counted q
  unfolding register_juror new_juror selectable_count record_registration is_selectable
  register_juror-Counted p q did stake courts now h c = ground (
    arith,
    c,
    count-insert did
        (new_juror did stake (if is_empty courts then p.config.default_court_id ∷ [] else courts)
          now)
        p.jurors,
  )

  after-Counted :
      (p : JurorPool F) (r : Result Error (JurorPool F))
      → ((q : JurorPool F) → r ≡ ok q → Counted q)
      → Counted p
      → Counted (after p r)
  after-Counted p (ok q) h c = h q refl
  after-Counted p (err e) h c = c

  create_session-Counted :
      (o : IterationOrder String (Juror F)) (p : JurorPool F) (id : String) (court seed now : ℕ)
      → Counted p
      → Counted (create_session o p id court seed now).0
  unfolding create_session
  create_session-Counted o p id court seed now c =
      elim (Result-cases (select_jurors o p court p.config.initial_jurors seed)) [
        | inl (jurors, e) ↦
            rw (e, create_session)
              (open_if_marked-Counted (mark_serving p jurors) id
                (Session.new id jurors p.config.initial_jurors now)
                (mark_serving-Counted p jurors c))
        | inr (x, e) ↦ rw (e, create_session) c
      ]

  abbrev pub Unsettled : Op F → Type 0
  Unsettled (finalizes o id now) = ⊥
  Unsettled _ = Unit

  apply-Counted : (p : JurorPool F) (op : Op F) → Unsettled op → Counted p → Counted (apply p op)
  unfolding apply advance_session_state commit_vote reveal_vote
  apply-Counted p (registers did stake courts now) u c =
      after-Counted p (register_juror p did stake courts now)
        (λ q h. register_juror-Counted p q did stake courts now h c) c
  apply-Counted p (stakes did stake) u c =
      after-Counted p (update_stake p did stake) (λ q h. update_stake-Counted p q did stake h c) c
  apply-Counted p (becomes did status) u c =
      after-Counted p (set_juror_status p did status)
        (λ q h. set_juror_status-Counted p q did status h c) c
  apply-Counted p (opens o id court seed now) u c = create_session-Counted o p id court seed now c
  apply-Counted p (advances o id) u c = on_session-Counted p id (Session.advance o) c
  apply-Counted p (commits id did commitment now) u c =
      on_session-Counted p id (λ s. Session.commit_vote s did commitment now) c
  apply-Counted p (reveals id did choice why) u c =
      on_session-Counted p id (λ s. Session.reveal_vote s did choice why) c
  apply-Counted p (finalizes o id now) u c = absurd u

  run-Counted :
      (p : JurorPool F) (ops : List (Op F)) → All Unsettled ops → Counted p → Counted (run p ops)
  unfolding run
  run-Counted p [] u c = c
  run-Counted p (op ∷ ops) u c = run-Counted (apply p op) ops u.1 (apply-Counted p op u.0 c)

  -- As long as no session is finalized, the statistics of a pool count its selectable jurors, in 64
  -- bits, after any other method calls.
  active_counted :
      (c : JurorPoolConfig) (ops : List (Op F))
      → All Unsettled ops
      → (run (new c) ops).stats.jurors_active ≡ selectable_count (run (new c) ops) % u64_mod
  active_counted c ops u = run-Counted (new c) ops u (unfold new in unfold selectable_count in refl)
