-- ===== src/Trust/Ledger/Totals.antt =====
-- The record of an agent in numbers: what the calls of the service add up to.
use agentme.Prelude.{
  ℕ, suc, ◌+◌, ◌%◌, ◌^◌, ◌<◌, ◌≡◌, refl, sym, ap, ◌∙◌, inl, inr, Bool, true, false, List, [], ◌∷◌,
  ◌++◌, ◌&&◌, if◌then◌else◌, Text, codes, decimal, same, text_key, starts_with, arith, Bool-cases,
  count, take, length,
}
use mathlib.Core.List.{append-nil, append_assoc}
use agentme.Float.{F64Math}
use agentme.Trust.{TrustService, TrustData, EndorsementData, is_did, in_unit, entry, add_one}
use agentme.Trust.Ledger.{
  Call, success, failure, endorsement, hop_endorsement, run, target, is_valid, entered, ledger,
  entry-ledger,
}

-- The counters of a record are `u64`.
pub record IsU64 (d : TrustData) : Type 0 where
  pub successes_fit : d.successful_transactions < 2 ^ 64
  pub failures_fit : d.failed_transactions < 2 ^ 64
  pub endorsements_fit : d.endorsement_count < 2 ^ 64

-- An identifier begins with these four characters.
abbrev pub has_scheme : Text → Bool
has_scheme s = same (take 4 s) (codes "did:")

starts_with-take : (s prefix : Text) → starts_with s prefix ≡ same (take (length prefix) s) prefix
starts_with-take s [] = ground arith
starts_with-take [] (p ∷ prefix) = ground arith
starts_with-take (c ∷ s) (p ∷ prefix) = ground (arith, starts_with-take s prefix)

pub has_scheme_lem : (s : Text) → is_did s ≡ has_scheme s
has_scheme_lem s = starts_with-take s (codes "did:")

-- Records with equal fields.
same_record :
    {stake s s' f f' n n' t t' : ℕ} {es es' : List EndorsementData}
    → s ≡ s'
    → f ≡ f'
    → n ≡ n'
    → t ≡ t'
    → es ≡ es'
    → ◌≡◌ {A = TrustData}
        (record {
          stake_amount = stake;
          successful_transactions = s;
          failed_transactions = f;
          endorsement_count = n;
          last_activity_timestamp = t;
          endorsements = es;
        })
        (record {
          stake_amount = stake;
          successful_transactions = s';
          failed_transactions = f';
          endorsement_count = n';
          last_activity_timestamp = t';
          endorsements = es';
        })
same_record p q r u v = cc

one_more : (x n : ℕ) → (add_one x + n) % 2 ^ 64 ≡ (x + suc n) % 2 ^ 64
one_more x n = omega arith

-- The endorser that the simple endorsement makes up, by its number.
abbrev nameless : ℕ → EndorsementData
nameless n = record {
  endorser_did = codes "did:agoramesh:base:anonymous-endorser-" ++ decimal n;
  hop_distance = 1;
}

module _ {F : Type 0} (m : F64Math F) where
  -- A call about the agent that the service does not refuse.
  abbrev concerns : Text → Call F → Bool
  concerns did (success a now) = same a did && has_scheme a
  concerns did (failure a now) = same a did && has_scheme a
  concerns did (endorsement a weight) =
      same a did
      && (has_scheme a && (m.base.at_least weight m.base.zero && m.base.at_least m.base.one weight))
  concerns did (hop_endorsement endorser a hops) =
      same a did && (has_scheme endorser && has_scheme a)

  abbrev pub is_success : Call F → Bool
  is_success (success a now) = true
  is_success _ = false

  abbrev is_failure : Call F → Bool
  is_failure (failure a now) = true
  is_failure _ = false

  abbrev is_endorsement : Call F → Bool
  is_endorsement (endorsement a weight) = true
  is_endorsement (hop_endorsement endorser a hops) = true
  is_endorsement _ = false

  abbrev number_of : (Call F → Bool) → Text → List (Call F) → ℕ
  number_of p did calls = count (λ c. p c && concerns did c) calls

  -- The time of a transaction, or the time before of another call.
  abbrev time_of : ℕ → Call F → ℕ
  time_of before (success a now) = now
  time_of before (failure a now) = now
  time_of before _ = before

  abbrev last_active : Text → ℕ → List (Call F) → ℕ
  last_active did t [] = t
  last_active did t (c ∷ calls) = last_active did (if concerns did c then time_of t c else t) calls

  -- What a call adds to the endorsements, when it is about the agent and `n` came before it.
  abbrev pub given : ℕ → Call F → List EndorsementData
  given n (endorsement a weight) = nameless ((n + 1) % 2 ^ 64) ∷ []
  given n (hop_endorsement endorser a hops) =
      record { endorser_did = endorser; hop_distance = hops } ∷ []
  given n _ = []

  abbrev pub next : ℕ → Call F → ℕ
  next n c = if is_endorsement c then (n + 1) % 2 ^ 64 else n

  abbrev endorsers : Text → ℕ → List (Call F) → List EndorsementData
  endorsers did n [] = []
  endorsers did n (c ∷ calls) =
      if concerns did c then given n c ++ endorsers did (next n c) calls else endorsers did n calls

  abbrev pub totals : Text → TrustData → List (Call F) → TrustData
  totals did d calls = record {
    stake_amount = d.stake_amount;
    successful_transactions = (d.successful_transactions + number_of is_success did calls) % 2 ^ 64;
    failed_transactions = (d.failed_transactions + number_of is_failure did calls) % 2 ^ 64;
    endorsement_count = (d.endorsement_count + number_of is_endorsement did calls) % 2 ^ 64;
    last_activity_timestamp = last_active did d.last_activity_timestamp calls;
    endorsements = d.endorsements ++ endorsers did d.endorsement_count calls;
  }

  concerns_lem :
      (did : Text) (c : Call F) → (same (target m c) did && is_valid m c) ≡ concerns did c
  concerns_lem did (success a now) = ap (λ b. same a did && b) (has_scheme_lem a)
  concerns_lem did (failure a now) = ap (λ b. same a did && b) (has_scheme_lem a)
  concerns_lem did (endorsement a weight) =
      ap (λ b. same a did && (b && in_unit m weight)) (has_scheme_lem a)
  concerns_lem did (hop_endorsement endorser a hops) =
      rw (has_scheme_lem endorser, has_scheme_lem a) refl

  IsU64-entered : (c : Call F) (d : TrustData) → IsU64 d → IsU64 (entered m c d)
  IsU64-entered (success a now) d u = ground (arith, u)
  IsU64-entered (failure a now) d u = ground (arith, u)
  IsU64-entered (endorsement a weight) d u = ground (arith, u)
  IsU64-entered (hop_endorsement endorser a hops) d u = ground (arith, u)

  nothing_yet : (did : Text) (d : TrustData) → IsU64 d → d ≡ totals did d []
  nothing_yet did d u =
      same_record (ground (arith, u)) (ground (arith, u)) (ground (arith, u)) refl
        (sym (append-nil d.endorsements))

  -- A call that is about the agent, and one that is not.
  counted :
      (did : Text) (c : Call F) (d : TrustData) (calls : List (Call F))
      → concerns did c ≡ true
      → totals did (entered m c d) calls ≡ totals did d (c ∷ calls)
  counted did (success a now) d calls h =
      rw h (same_record (one_more d.successful_transactions _) refl refl refl refl)
  counted did (failure a now) d calls h =
      rw h (same_record refl (one_more d.failed_transactions _) refl refl refl)
  counted did (endorsement a weight) d calls h = rw h (
      same_record refl refl (one_more d.endorsement_count _) refl
        (append_assoc d.endorsements (nameless (add_one d.endorsement_count) ∷ []) _))
  counted did (hop_endorsement endorser a hops) d calls h = rw h (
      same_record refl refl (one_more d.endorsement_count _) refl (
        append_assoc d.endorsements (record { endorser_did = endorser; hop_distance = hops } ∷ [])
          _))

  uncounted :
      (did : Text) (c : Call F) (d : TrustData) (calls : List (Call F))
      → concerns did c ≡ false
      → totals did d calls ≡ totals did d (c ∷ calls)
  uncounted did c d calls h =
      rw (h, left_out (is_success c), left_out (is_failure c), left_out (is_endorsement c)) refl
    where
      left_out : (b : Bool) → (b && false) ≡ false
      left_out true = refl
      left_out false = refl

  ledger-totals :
      (did : Text) (d : TrustData) (calls : List (Call F))
      → IsU64 d
      → ledger m did d calls ≡ totals did d calls
  ledger-totals did d [] u = nothing_yet did d u
  ledger-totals did d (c ∷ calls) u = elim (Bool-cases (concerns did c)) [
    | inl about ↦
        ap (λ b. ledger m did (if b then entered m c d else d) calls) (concerns_lem did c ∙ about)
        ∙ ledger-totals did (entered m c d) calls (IsU64-entered c d u)
        ∙ counted did c d calls about
    | inr other ↦
        ap (λ b. ledger m did (if b then entered m c d else d) calls) (concerns_lem did c ∙ other)
        ∙ ledger-totals did d calls u
        ∙ uncounted did c d calls other
  ]

  -- After any calls, the record of an agent adds up what the calls about it say: its successes and
  -- its failures are those before and the reported ones, modulo 2^64; its last activity is the time
  -- of its last transaction; each endorsement is counted and listed, in order, one without an
  -- endorser under a made-up name with the number of the endorsement. A call counts if the
  -- identifiers in it start with "did:" and the weight, if it has one, is from 0 to 1; calls about
  -- other agents do not count, and the stake stays. The counters before the calls must fit in 64
  -- bits.
  pub entry-run :
      (s : TrustService F) (calls : List (Call F)) (did : Text)
      → IsU64 (entry s did)
      → entry (run m s calls) did ≡ totals did (entry s did) calls
  entry-run s calls did u = entry-ledger m s calls did ∙ ledger-totals did (entry s did) calls u
