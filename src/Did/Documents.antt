-- ===== src/Did/Documents.antt =====
-- The builder's documents against `validate`.
use agentme.Prelude.{
  ◌≡◌, refl, subst, sym, ◌↔◌, true, false, some, List, [], ◌∷◌, ◌++◌, ok, arith, Text, ℕ,
  Result-cases, inl, inr, contains, nat_key, eq_of_same, same_self, starts_with, starts_with-append,
  ◌≢◌, All,
}
use agentme.Did.{
  did_method, print_did, did, parse_did, VerificationMethod, ServiceEndpoint, DidDocument,
  DidDocumentBuilder, new, add_verification_method, add_ed25519_key, add_ethereum_account,
  add_service, add_a2a_service, add_capability_card_service, set_chain_id, set_trust_registry,
  build, document, is_empty, validate, validate_methods, validate_services, or_none, if_any,
}
use agentme.Did.Identifier.{parse_did-print_did}

-- A key that `validate` accepts under an identifier.
abbrev pub Owned : Text → VerificationMethod → Type 0
Owned id m = (starts_with m.id id ≡ true) × (m.controller ≡ id)

abbrev pub Offered : Text → ServiceEndpoint → Type 0
Offered id s = starts_with s.id id ≡ true

-- A call on the builder.
pub data Setting : Type 0 where
  verification_method : VerificationMethod → Setting
  ed25519_key : Text → Text → Setting
  ethereum_account : Text → Text → ℕ → Setting
  service : ServiceEndpoint → Setting
  a2a_service capability_card_service : Text → Setting
  chain_id : ℕ → Setting
  trust_registry : Text → Setting

unfoldable pub set : DidDocumentBuilder → Setting → DidDocumentBuilder
set b (verification_method m) = add_verification_method b m
set b (ed25519_key key_id key) = add_ed25519_key b key_id key
set b (ethereum_account key_id address chain) = add_ethereum_account b key_id address chain
set b (service s) = add_service b s
set b (a2a_service url) = add_a2a_service b url
set b (capability_card_service url) = add_capability_card_service b url
set b (chain_id chain) = set_chain_id b chain
set b (trust_registry address) = set_trust_registry b address

unfoldable pub set_all : DidDocumentBuilder → List Setting → DidDocumentBuilder
set_all b [] = b
set_all b (s ∷ settings) = set_all (set b s) settings

-- The keys and services that the caller makes up are those of the identifier.
abbrev pub Fits : Text → Setting → Type 0
Fits id (verification_method m) = Owned id m
Fits id (service s) = Offered id s
Fits id _ = Unit

record Builds (chain identifier : Text) (b : DidDocumentBuilder) : Type 0 where
  chain_kept : b.chain_name ≡ chain
  identifier_kept : b.identifier ≡ identifier
  owned : All (Owned (print_did chain identifier)) b.verification_methods
  offered : All (Offered (print_did chain identifier)) b.services

module _ {A : Type 0} (P : A → Type 0) where
  All-append : (xs ys : List A) → All P xs → All P ys → All P (xs ++ ys)
  All-append [] ys h k = k
  All-append (x ∷ xs) ys h k = (h.0, All-append xs ys h.1 k)

module _ (chain identifier : Text) where
  with_method :
      (b : DidDocumentBuilder) (m : VerificationMethod)
      → Builds chain identifier b
      → Owned (print_did chain identifier) m
      → Builds chain identifier (add_verification_method b m)
  unfolding add_verification_method
  with_method b m v f = record {
    chain_kept = v.chain_kept;
    identifier_kept = v.identifier_kept;
    owned = All-append _ _ _ v.owned (f, tt);
    offered = v.offered;
  }

  with_service :
      (b : DidDocumentBuilder) (s : ServiceEndpoint)
      → Builds chain identifier b
      → Offered (print_did chain identifier) s
      → Builds chain identifier (add_service b s)
  unfolding add_service
  with_service b s v f = record {
    chain_kept = v.chain_kept;
    identifier_kept = v.identifier_kept;
    owned = v.owned;
    offered = All-append _ _ _ v.offered (f, tt);
  }

  did-Builds :
      (b : DidDocumentBuilder) → Builds chain identifier b → did b ≡ print_did chain identifier
  did-Builds b v = rw (v.chain_kept, v.identifier_kept) refl

  fragment :
      (b : DidDocumentBuilder) (rest : Text)
      → Builds chain identifier b
      → starts_with (did b ++ rest) (print_did chain identifier) ≡ true
  fragment b rest v =
      rw (v.chain_kept, v.identifier_kept) (starts_with-append (print_did chain identifier) rest)

  set-Builds :
      (b : DidDocumentBuilder) (s : Setting)
      → Builds chain identifier b
      → Fits (print_did chain identifier) s
      → Builds chain identifier (set b s)
  unfolding set add_ed25519_key add_ethereum_account add_a2a_service add_capability_card_service
      set_chain_id set_trust_registry add_service add_verification_method
  set-Builds b (verification_method m) v f = with_method b m v f
  set-Builds b (service s) v f = with_service b s v f
  set-Builds b (ed25519_key key_id key) v f = with_method b _ v (fragment b _ v, did-Builds b v)
  set-Builds b (ethereum_account key_id address chain) v f =
      with_method b _ v (fragment b _ v, did-Builds b v)
  set-Builds b (a2a_service url) v f = with_service b _ v (fragment b _ v)
  set-Builds b (capability_card_service url) v f =
      with_service (record b { capability_card_url = some url }) _
        (record {
          chain_kept = v.chain_kept;
          identifier_kept = v.identifier_kept;
          owned = v.owned;
          offered = v.offered;
        })
        (fragment b _ v)
  set-Builds b s v f = record {
    chain_kept = v.chain_kept;
    identifier_kept = v.identifier_kept;
    owned = v.owned;
    offered = v.offered;
  }

  set_all-Builds :
      (b : DidDocumentBuilder) (settings : List Setting)
      → Builds chain identifier b
      → All (Fits (print_did chain identifier)) settings
      → Builds chain identifier (set_all b settings)
  unfolding set_all
  set_all-Builds b [] v f = v
  set_all-Builds b (s ∷ settings) v f = set_all-Builds (set b s) settings (set-Builds b s v f.0) f.1

-- `validate_methods` and `validate_services` accept exactly the keys and services of the identifier.
validate_methods_lem :
    (id : Text) (methods : List VerificationMethod)
    → (validate_methods id methods ≡ ok tt) ↔ All (Owned id) methods
validate_methods_lem id [] = (λ h. tt, λ h. refl)
validate_methods_lem id (m ∷ methods) =
    ground (arith, validate_methods_lem id methods, eq_of_same m.controller id, same_self id)

validate_services_lem :
    (id : Text) (services : List ServiceEndpoint)
    → (validate_services id services ≡ ok tt) ↔ All (Offered id) services
validate_services_lem id [] = (λ h. tt, λ h. refl)
validate_services_lem id (s ∷ services) = ground (arith, validate_services_lem id services)

module _ {A : Type 0} where
  is_empty-false : (xs : List A) → xs ≢ [] → is_empty xs ≡ false
  is_empty-false [] h = absurd (h refl)
  is_empty-false (x ∷ xs) h = refl

  or_none-if_any : (xs : List A) → or_none (if_any xs) ≡ xs
  or_none-if_any [] = refl
  or_none-if_any (x ∷ xs) = refl

build_lem :
    (b : DidDocumentBuilder) (now : ℕ)
    → b.chain_name ≢ []
    → b.identifier ≢ []
    → build b now ≡ ok (document b now)
unfolding build
build_lem b now h k = rw (is_empty-false b.chain_name h, is_empty-false b.identifier k) refl

-- `validate` accepts a document if and only if its identifier parses, each of its keys has an id
-- that starts with the identifier and the identifier as its controller, and each of its services
-- has an id that starts with it.
pub validate_lem :
    (d : DidDocument)
    → (validate d ≡ ok tt) ↔ (
        ((r : Text × Text × Text) × (parse_did d.id ≡ ok r))
        × All (Owned d.id) (or_none d.verification_method)
        × All (Offered d.id) (or_none d.service))
unfolding validate
validate_lem d =
    let methods = validate_methods_lem d.id (or_none d.verification_method) in
    let services = validate_services_lem d.id (or_none d.service) in
    elim (Result-cases (parse_did d.id)) [
      | inl (r, e) ↦ ground (arith, e, methods, services)
      | inr (r, e) ↦ ground (arith, e)
    ]

document-validates :
    (b : DidDocumentBuilder) (id : Text) (now : ℕ) (r : Text × Text × Text)
    → did b ≡ id
    → parse_did id ≡ ok r
    → All (Owned id) b.verification_methods
    → All (Offered id) b.services
    → (parse_did (document b now).id ≡ ok r) × (validate (document b now) ≡ ok tt)
unfolding document
document-validates b id now r e parses owned offered =
    let parsed = subst (λ t. parse_did t ≡ ok r) (sym e) parses in
    let keys = subst (λ t. All (Owned t) b.verification_methods) (sym e) owned in
    let services = subst (λ t. All (Offered t) b.services) (sym e) offered in
    (
      parsed,
      (validate_lem (document b now)).1 (
        (r, parsed),
        rw (or_none-if_any b.verification_methods) keys,
        rw (or_none-if_any b.services) services,
      ),
    )

-- A document that the builder makes from a chain and a name, neither empty nor with a colon in it,
-- is accepted by `validate` and carries the identifier of that chain and name, whatever keys and
-- services were added through the builder, and any others that belong to this identifier.
pub built-validates :
    (chain identifier : Text) (settings : List Setting) (now : ℕ)
    → contains b':' chain ≡ false
    → contains b':' identifier ≡ false
    → chain ≢ []
    → identifier ≢ []
    → All (Fits (print_did chain identifier)) settings
    → (d : DidDocument) × (build (set_all (new chain identifier) settings) now ≡ ok d)
      × (parse_did d.id ≡ ok (did_method, chain, identifier))
      × (validate d ≡ ok tt)
unfolding new
built-validates chain identifier settings now hc hi nc ni fits =
    let b = set_all (new chain identifier) settings in
    let v =
      set_all-Builds chain identifier (new chain identifier) settings
        (record { chain_kept = refl; identifier_kept = refl; owned = tt; offered = tt }) fits in
    let (parsed, validated) =
      document-validates b (print_did chain identifier) now _ (did-Builds chain identifier b v)
        (parse_did-print_did chain identifier hc hi) v.owned v.offered in
    (
      document b now,
      build_lem b now (subst (λ t. t ≢ []) (sym v.chain_kept) nc)
          (subst (λ t. t ≢ []) (sym v.identifier_kept) ni),
      parsed,
      validated,
    )
