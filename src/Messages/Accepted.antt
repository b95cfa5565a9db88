-- ===== src/Messages/Accepted.antt =====
-- Which messages (node/src/network/message_handler.rs) reach a service, said without the handlers.
use agentme.Prelude.{
  arith, codes, ◌+◌, ltb, leb, ◌==◌, length, count, ℕ, ◌≡◌, refl, ap, ◌∙◌, Bool, true, false, ◌&&◌,
  not, Option, none, some, List, [], ◌∷◌, if◌then◌else◌, String, ◌>>◌, guard, Text,
}
use agentme.Arbitration.Evidence.{text}
use agentme.Trust.Ledger.{Call, success, failure}
use agentme.Arbitration.Ai.Ops.{Op, creates, submits}
use agentme.Messages.{
  byte_length, empty_title, long_title, empty_description, long_description, TrustMessage,
  trust_update, reputation_event, DisputeMessage, create, submit, status, Error, in_time, names_did,
  check_evidence,
}
use agentme.Messages.Handling.{is_topic}
use agentme.Trust.Ledger.Totals.{has_scheme, has_scheme_lem}
use agentme.Messages.Effects.{passing_calls, passing_ops, is_ok}

pub data Kind : Type 0 where
  discovery capability trust disputes unknown : Kind

abbrev pub kind_of : String → Kind
kind_of topic =
    if is_topic topic "/agoramesh/discovery/1.0.0"
    then discovery
    else if is_topic topic "/agoramesh/capability/1.0.0"
    then capability
    else if is_topic topic "/agoramesh/trust/1.0.0"
    then trust
    else if is_topic topic "/agoramesh/disputes/1.0.0"
    then disputes
    else unknown

-- At most five minutes ahead.
abbrev is_past : ℕ → ℕ → Bool
is_past timestamp now = not (ltb (now + 300) timestamp)

-- The bytes of a text in UTF-8: one for each character, and one more from U+0080, U+0800 and
-- U+10000 on.
abbrev utf8_length : Text → ℕ
utf8_length s =
    length s + count (λ c. leb 128 c) s + count (λ c. leb 2048 c) s + count (λ c. leb 65536 c) s

-- A text that is not empty and has at most so many bytes.
abbrev pub fits : ℕ → String → Bool
fits limit s = ltb 0 (utf8_length (codes s)) && leb (utf8_length (codes s)) limit

abbrev pub named : String → Bool
named s = has_scheme (codes s)

-- The call of the trust service that a message stands for: a reputation event of an agent whose
-- identifier starts with "did:", not from the future.
abbrev pub accepted_calls : {F : Type 0} → Option (TrustMessage F) → ℕ → List (Call F)
accepted_calls (some (reputation_event did is_success amount timestamp)) now =
    if has_scheme did && is_past timestamp now
    then (if is_success then success did now else failure did now) ∷ []
    else []
accepted_calls _ now = []

-- The event of the arbitrator that a message stands for: a new dispute between two such parties, or
-- a piece of evidence of such a party with a title of 1 to 256 bytes and a description of 1 to
-- 10240, not from the future.
abbrev pub accepted_ops : Option DisputeMessage → ℕ → String → List Op
accepted_ops (some (create escrow client provider amount timestamp)) now id =
    if named client && (named provider && is_past timestamp now)
    then creates id escrow client provider amount now ∷ []
    else []
accepted_ops (some (submit dispute submitter title description timestamp)) now id =
    if named submitter && (is_past timestamp now && (fits 256 title && fits 10240 description))
    then submits dispute
        (record {
          id = id;
          submitter_did = submitter;
          evidence_type = text;
          title = title;
          description = description;
          data_uri = none;
          submitted_at = now;
        })
        now
      ∷ []
    else []
accepted_ops _ now id = []

in_time-is_past : (timestamp now : ℕ) → in_time timestamp now ≡ is_past timestamp now
in_time-is_past timestamp now = ground arith

byte_length-utf8_length : (s : Text) → byte_length s ≡ utf8_length s
byte_length-utf8_length [] = refl
byte_length-utf8_length (c ∷ s) = ground (arith, byte_length-utf8_length s)

names_lem : (s : String) → names_did s ≡ named s
names_lem s = has_scheme_lem (codes s)

guards_ok :
    (a b c d : Bool) (e e1 e2 e3 : Error)
    → is_ok (guard a e >> (guard b e1 >> (guard c e2 >> guard d e3))) ≡ ((a && b) && (c && d))
guards_ok true true true true e e1 e2 e3 = refl
guards_ok true true true false e e1 e2 e3 = refl
guards_ok true true false d e e1 e2 e3 = refl
guards_ok true false c d e e1 e2 e3 = refl
guards_ok false b c d e e1 e2 e3 = refl

fits_lem :
    (limit : ℕ) (s : String)
    → (not (byte_length (codes s) == 0) && leb (byte_length (codes s)) limit) ≡ fits limit s
fits_lem limit s = ground (arith, byte_length-utf8_length (codes s))

check_evidence-fits :
    (title description : String)
    → is_ok (check_evidence title description) ≡ (fits 256 title && fits 10240 description)
check_evidence-fits title description =
    guards_ok (not (byte_length (codes title) == 0)) (leb (byte_length (codes title)) 256)
      (not (byte_length (codes description) == 0)) (leb (byte_length (codes description)) 10240)
      empty_title long_title empty_description long_description
    ∙ ap
        (λ b.
          b
          && (not (byte_length (codes description) == 0)
              && leb (byte_length (codes description)) 10240))
        (fits_lem 256 title)
    ∙ ap (λ b. fits 256 title && b) (fits_lem 10240 description)

pub passing_calls-accepted :
    {F : Type 0} (msg : Option (TrustMessage F)) (now : ℕ)
    → passing_calls msg now ≡ accepted_calls msg now
passing_calls-accepted none now = refl
passing_calls-accepted (some (trust_update did score timestamp)) now = refl
passing_calls-accepted (some (reputation_event did is_success amount timestamp)) now =
    rw (has_scheme_lem did, in_time-is_past timestamp now) refl

pub passing_ops-accepted :
    (msg : Option DisputeMessage) (now : ℕ) (id : String)
    → passing_ops msg now id ≡ accepted_ops msg now id
passing_ops-accepted none now id = refl
passing_ops-accepted (some (create escrow client provider amount timestamp)) now id =
    rw (names_lem client, names_lem provider, in_time-is_past timestamp now) refl
passing_ops-accepted (some (submit dispute submitter title description timestamp)) now id =
    rw (names_lem submitter, in_time-is_past timestamp now, check_evidence-fits title description)
      refl
passing_ops-accepted (some (status dispute timestamp)) now id = refl
