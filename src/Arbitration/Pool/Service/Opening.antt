-- ===== src/Arbitration/Pool/Service/Opening.antt =====
-- How a session opens: its jurors are selected and marked as serving.
use agentme.Prelude.{
  ℕ, ◌<◌, ◌≡◌, refl, inl, inr, true, false, Option, none, some, List, [], ◌∷◌, arith, if◌then◌else◌,
  length, contains, Distinct, ◌∙◌, String, string_key, Result, ok, err,
}
use agentme.Prelude.Map.{get, insert, DistinctKeys, get-insert}
use agentme.Float.{F64}
use agentme.Arbitration.Session
use agentme.Arbitration.Session.{VotingSession, IterationOrder}
use agentme.Arbitration.Pool.{
  Juror, JurorPool, serving, Error, not_enough_eligible, zero_stake, set_juror_status,
}
use agentme.Arbitration.Pool.Draw.{select_jurors, may_serve, eligible_jurors, total_weight}
use agentme.Arbitration.Pool.Selection.{Keyed, select_jurors_lem}
use agentme.Arbitration.Pool.Service.{mark_serving, create_session}

module _ {F : Type 0} where
  abbrev pub serve : Juror F → Juror F
  serve j = record j { status = serving }

  abbrev serve_known : Option (Juror F) → Option (Juror F)
  serve_known none = none
  serve_known (some j) = some (serve j)

  -- What marking the jurors of a list does to a pool that knows them all.
  pub record Marked (p : JurorPool F) (dids : List String)
      (r : JurorPool F × Result Error (Unit {0})) : Type 0 where
    pub succeeds : r.1 ≡ ok tt
    pub jurors :
        (did : String)
        → get did (r.0).jurors
          ≡ (if contains did dids then serve_known (get did p.jurors) else get did p.jurors)
    pub sessions : (r.0).sessions ≡ p.sessions
    pub config : (r.0).config ≡ p.config

  mark_one :
      (p : JurorPool F) (did : String) (j : Juror F)
      → get did p.jurors ≡ some j
      → (q : JurorPool F) × (set_juror_status p did serving ≡ ok q)
        × (q.jurors ≡ insert did (serve j) p.jurors)
        × (q.sessions ≡ p.sessions)
        × (q.config ≡ p.config)
  unfolding set_juror_status
  mark_one p did j e = rw e (_, refl, refl, refl, refl)

  mark_serving-Marked :
      (p : JurorPool F) (dids : List String)
      → ((did : String) → contains did dids ≡ true → (j : Juror F) × (get did p.jurors ≡ some j))
      → Marked p dids (mark_serving p dids)
  unfolding mark_serving
  mark_serving-Marked p [] known = record {
    succeeds = refl;
    jurors = λ did. refl;
    sessions = refl;
    config = refl;
  }
  mark_serving-Marked p (d ∷ dids) known =
      let (j, found) = known d (ground arith) in
      let (q, set, js, ss, cs) = mark_one p d j found in
      let rest = mark_serving-Marked q dids (still j q js) in
      rw (set, mark_serving)
        (record {
          succeeds = rest.succeeds;
          jurors = λ did. ground (arith, rest.jurors did, js, get-insert d did (serve j) p.jurors);
          sessions = rest.sessions ∙ ss;
          config = rest.config ∙ cs;
        })
    where
      still :
          (j : Juror F) (q : JurorPool F)
          → q.jurors ≡ insert d (serve j) p.jurors
          → (did : String) → contains did dids ≡ true
          → (k : Juror F) × (get did q.jurors ≡ some k)
      still j q js did h = elim (string_key.equal d did) [
        | yes e ↦ (serve j, ground (arith, js, get-insert d did (serve j) p.jurors))
        | no n ↦
            let (k, found) = known did (ground arith) in
            (k, ground (arith, js, get-insert d did (serve j) p.jurors))
      ]

module _ {F : Type 0} ⦃fl : F64 F⦄ where
  -- How the opening of a session ends.
  pub data Opened (o : IterationOrder String (Juror F)) (p : JurorPool F) (dispute_id : String)
      (court_id now : ℕ) (r : JurorPool F × Result Error String) : Type 0 where
    too_few :
        length (eligible_jurors o p court_id) < p.config.initial_jurors
        → r ≡ (p, err not_enough_eligible)
        → Opened o p dispute_id court_id now r
    no_stake :
        total_weight p.config (eligible_jurors o p court_id) ≡ 0
        → r ≡ (p, err zero_stake)
        → Opened o p dispute_id court_id now r
    begun :
        (jurors : List String)
        → length jurors ≡ p.config.initial_jurors
        → Distinct jurors
        → ((did : String)
            → contains did jurors ≡ true
            → (j : Juror F) × (get did p.jurors ≡ some j)
              × (may_serve court_id j ≡ true)
              × (get did (r.0).jurors ≡ some (serve j)))
        → ((did : String) → contains did jurors ≡ false → get did (r.0).jurors ≡ get did p.jurors)
        → (r.0).sessions
          ≡ insert dispute_id (Session.new dispute_id jurors p.config.initial_jurors now) p.sessions
        → r.1 ≡ ok dispute_id
        → Opened o p dispute_id court_id now r

  opened_with :
      (o : IterationOrder String (Juror F)) (p : JurorPool F) (dispute_id : String)
      (court_id seed now : ℕ) (jurors : List String)
      → select_jurors o p court_id p.config.initial_jurors seed ≡ ok jurors
      → Marked p jurors (mark_serving p jurors)
      → ((create_session o p dispute_id court_id seed now).1 ≡ ok dispute_id)
        × ((create_session o p dispute_id court_id seed now).0.jurors
            ≡ (mark_serving p jurors).0.jurors)
        × ((create_session o p dispute_id court_id seed now).0.sessions
            ≡ insert dispute_id
                (Session.new dispute_id jurors p.config.initial_jurors now)
                p.sessions)
  unfolding create_session
  opened_with o p dispute_id court_id seed now jurors chosen m =
      ground (arith, chosen, m.succeeds, m.sessions)

  -- In a pool whose jurors stand under their own DIDs, `create_session` either changes nothing and
  -- reports that too few jurors may serve or that they have no stake, or stores a session of as many
  -- distinct jurors as configured, each of whom was active and eligible and is now serving, and
  -- leaves every other juror alone.
  pub create_session-Opened :
      (o : IterationOrder String (Juror F)) (p : JurorPool F) (dispute_id : String)
      (court_id seed now : ℕ)
      → DistinctKeys p.jurors
      → Keyed p.jurors
      → Opened o p dispute_id court_id now (create_session o p dispute_id court_id seed now)
  unfolding create_session
  create_session-Opened o p dispute_id court_id seed now d keyed =
      elim (select_jurors_lem o p court_id p.config.initial_jurors seed d keyed) [
        | inl (few, e) ↦ too_few few (ground (arith, e))
        | inr (inl (nothing, e)) ↦ no_stake nothing (ground (arith, e))
        | inr (inr (jurors, e, many, distinct, members)) ↦
            let m =
              mark_serving-Marked p jurors
                (λ did h. let (j, found, serves) = members did h in (j, found)) in
            let (opened, js, ss) = opened_with o p dispute_id court_id seed now jurors e m in
            begun jurors many distinct
              (λ did h.
                let (j, found, serves) = members did h in
                (j, found, serves, ground (arith, js, m.jurors did)))
              (λ did h. ground (arith, js, m.jurors did)) ss opened
      ]
