-- ===== src/Did/Tests.antt =====
-- Runs of node/src/did.rs on small inputs.
use agentme.Prelude.{
  ℕ, ◌+◌, ◌-◌, ◌*◌, ◌<◌, ◌≡◌, refl, ◌↔◌, List, [], ◌∷◌, ok, codes, Text, All, Text-discrete,
}
use agentme.Did.{
  did_method, print_did, parse_did, build, validate, new, DidDocument, or_none, document,
}
use agentme.Did.Date.{CivilDate, civil_from_days, unix_to_rfc3339}
use agentme.Did.Date.Civil.{IsValid, ordinal}
use agentme.Did.Date.Printed.{numbers, unix_to_rfc3339_lem}
use agentme.Did.Identifier.{parse_did-print_did, print_did-parse_did}
use agentme.Did.Documents.{
  Setting, ed25519_key, ethereum_account, a2a_service, chain_id, set_all, built-validates,
  validate_lem, Owned, Offered,
}

leap_day : civil_from_days 19782 ≡ record { year = 2024; month = 2; day = 29 }
unfolding civil_from_days agentme.Did.Date.from_march agentme.Did.Date.year_of_era
leap_day = refl

new_year : unix_to_rfc3339 946684799 ≡ codes "1999-12-31T23:59:59Z"
unfolding unix_to_rfc3339 agentme.Prelude.padded civil_from_days agentme.Did.Date.from_march
    agentme.Did.Date.year_of_era
new_year = refl

abbrev settings : List Setting
settings =
    ed25519_key (codes "key-1") (codes "z6Mk")
    ∷ ethereum_account (codes "eth") (codes "0xabc") 8453
    ∷ a2a_service (codes "https://agent")
    ∷ chain_id 8453
    ∷ []

abbrev sample : DidDocument
sample = document (set_all (new (codes "base") (codes "abc")) settings) 946684799

unix_to_rfc3339_lem_example :
    (t : CivilDate) × (hours : ℕ) × (minutes : ℕ) × (seconds : ℕ) × (numbers 0
        (unix_to_rfc3339 946684799)
      ≡ t.year ∷ t.month ∷ t.day ∷ hours ∷ minutes ∷ seconds ∷ [])
    × IsValid t
    × (hours < 24)
    × (minutes < 60)
    × (seconds < 60)
    × ((ordinal t - 719163) * 86400 + hours * 3600 + minutes * 60 + seconds ≡ 946684799)
unix_to_rfc3339_lem_example = unix_to_rfc3339_lem 946684799

parse_did-print_did_example :
    parse_did (print_did (codes "base") (codes "abc")) ≡ ok (did_method, codes "base", codes "abc")
unfolding agentme.Prelude.ℕ_discrete
parse_did-print_did_example = parse_did-print_did (codes "base") (codes "abc") refl refl

print_did-parse_did_example :
    (did_method ≡ did_method)
    × (codes "did:agoramesh:base:abc" ≡ print_did (codes "base") (codes "abc"))
unfolding parse_did Text-discrete agentme.Prelude.ℕ_discrete
print_did-parse_did_example =
    print_did-parse_did (codes "did:agoramesh:base:abc") did_method (codes "base") (codes "abc")
      refl

built-validates_example :
    (d : DidDocument) × (build (set_all (new (codes "base") (codes "abc")) settings) 946684799
      ≡ ok d)
    × (parse_did d.id ≡ ok (did_method, codes "base", codes "abc"))
    × (validate d ≡ ok tt)
unfolding agentme.Prelude.ℕ_discrete
built-validates_example =
    built-validates (codes "base") (codes "abc") settings 946684799 refl refl (λ p. cc) (λ p. cc)
      (tt, (tt, (tt, (tt, tt))))

validate_lem_example : (validate sample ≡ ok tt) ↔ (
    ((r : Text × Text × Text) × (parse_did sample.id ≡ ok r))
    × All (Owned sample.id) (or_none sample.verification_method)
    × All (Offered sample.id) (or_none sample.service))
validate_lem_example = validate_lem sample
