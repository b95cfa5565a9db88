-- ===== src/Did.antt =====
-- The DID documents (node/src/did.rs). A text is its list of code points; the clock of `build` is
-- its argument `now`. The JSON of a key and of a document is left out, as are the messages of the
-- errors, whose constructor stands for the place that returns them.
pub mod Date
pub mod Identifier
pub mod Documents
pub mod Resolution
mod Tests
use agentme.Prelude.{
  ℕ, Bool, true, false, not, Option, none, some, List, [], ◌∷◌, ◌++◌, map, if◌then◌else◌, Result,
  ok, err, ◌>>=◌, ◌>>◌, guard, Text, codes, same, split, starts_with, ends_with, decimal,
}
use agentme.Did.Date.{unix_to_rfc3339}

abbrev pub did_method : Text
did_method = codes "agoramesh"

-- `Error::Did` with its message.
pub data DidError : Type 0 where
  chain_name_required identifier_required invalid_format invalid_scheme invalid_method
        foreign_method wrong_controller foreign_service :
      DidError

pub record VerificationMethod : Type 0 where
  pub id : Text
  pub method_type : Text
  pub controller : Text
  pub public_key_multibase : Option Text
  pub blockchain_account_id : Option Text

pub record ServiceEndpoint : Type 0 where
  pub id : Text
  pub service_type : Text
  pub service_endpoint : Text
  pub description : Option Text

pub record DidMetadata : Type 0 where
  pub chain_id : ℕ
  pub trust_registry : Option Text
  pub capability_card_url : Option Text
  pub created : ℕ
  pub updated : ℕ

pub record DidDocument : Type 0 where
  pub context : List Text
  pub id : Text
  pub controller : Option (List Text)
  pub verification_method : Option (List VerificationMethod)
  pub authentication : Option (List Text)
  pub assertion_method : Option (List Text)
  pub service : Option (List ServiceEndpoint)
  pub metadata : Option DidMetadata

pub record DidDocumentBuilder : Type 0 where
  pub chain_name : Text
  pub identifier : Text
  pub verification_methods : List VerificationMethod
  pub services : List ServiceEndpoint
  pub chain_id : Option ℕ
  pub trust_registry : Option Text
  pub capability_card_url : Option Text

unfoldable pub new : Text → Text → DidDocumentBuilder
new chain_name identifier = record {
  chain_name = chain_name;
  identifier = identifier;
  verification_methods = [];
  services = [];
  chain_id = none;
  trust_registry = none;
  capability_card_url = none;
}

-- `format!("did:{}:{}:{}", DID_METHOD, chain_name, identifier)`.
unfoldable pub print_did : Text → Text → Text
print_did chain_name identifier =
    codes "did" ++ b':' ∷ did_method ++ b':' ∷ chain_name ++ b':' ∷ identifier

abbrev pub did : DidDocumentBuilder → Text
did b = print_did b.chain_name b.identifier

unfoldable pub add_verification_method :
    DidDocumentBuilder → VerificationMethod → DidDocumentBuilder
add_verification_method b method = record b {
  verification_methods = b.verification_methods ++ method ∷ [];
}

unfoldable pub add_ed25519_key : DidDocumentBuilder → Text → Text → DidDocumentBuilder
add_ed25519_key b key_id public_key_multibase = record b {
  verification_methods =
      b.verification_methods
      ++ record {
        id = did b ++ b'#' ∷ key_id;
        method_type = codes "Ed25519VerificationKey2020";
        controller = did b;
        public_key_multibase = some public_key_multibase;
        blockchain_account_id = none;
      }
        ∷ [];
}

unfoldable pub add_ethereum_account : DidDocumentBuilder → Text → Text → ℕ → DidDocumentBuilder
add_ethereum_account b key_id address chain_id = record b {
  verification_methods =
      b.verification_methods
      ++ record {
        id = did b ++ b'#' ∷ key_id;
        method_type = codes "EcdsaSecp256k1RecoveryMethod2020";
        controller = did b;
        public_key_multibase = none;
        blockchain_account_id = some (codes "eip155:" ++ decimal chain_id ++ b':' ∷ address);
      }
        ∷ [];
}

unfoldable pub add_service : DidDocumentBuilder → ServiceEndpoint → DidDocumentBuilder
add_service b service = record b { services = b.services ++ service ∷ [] }

unfoldable pub add_a2a_service : DidDocumentBuilder → Text → DidDocumentBuilder
add_a2a_service b url = record b {
  services =
      b.services
      ++ record {
        id = did b ++ codes "#a2a";
        service_type = codes "A2AAgent";
        service_endpoint = url;
        description = some (codes "A2A Protocol endpoint");
      }
        ∷ [];
}

unfoldable pub add_capability_card_service : DidDocumentBuilder → Text → DidDocumentBuilder
add_capability_card_service b url = record b {
  capability_card_url = some url;
  services =
      b.services
      ++ record {
        id = did b ++ codes "#capability-card";
        service_type = codes "CapabilityCard";
        service_endpoint = url;
        description = some (codes "AgoraMesh Capability Card");
      }
        ∷ [];
}

unfoldable pub set_chain_id : DidDocumentBuilder → ℕ → DidDocumentBuilder
set_chain_id b chain_id = record b { chain_id = some chain_id }

unfoldable pub set_trust_registry : DidDocumentBuilder → Text → DidDocumentBuilder
set_trust_registry b address = record b { trust_registry = some address }

module _ {A : Type 0} where
  abbrev pub is_empty : List A → Bool
  is_empty [] = true
  is_empty (x ∷ xs) = false

  -- `None` in place of no entries.
  abbrev pub if_any : List A → Option (List A)
  if_any [] = none
  if_any (x ∷ xs) = some (x ∷ xs)

  abbrev pub or_none : Option (List A) → List A
  or_none none = []
  or_none (some xs) = xs

abbrev pub unwrap_or {ℓ} : {A : Type ℓ} → Option A → A → A
unwrap_or none d = d
unwrap_or (some x) d = x

-- The document of a builder.
unfoldable pub document : DidDocumentBuilder → ℕ → DidDocument
document b now = record {
  context =
      codes "https://www.w3.org/ns/did/v1"
      ∷ codes "https://w3id.org/security/suites/ed25519-2020/v1"
      ∷ [];
  id = did b;
  controller = none;
  verification_method = if_any b.verification_methods;
  authentication = if_any (map (λ vm. vm.id) b.verification_methods);
  assertion_method = none;
  service = if_any b.services;
  metadata = some (record {
    chain_id = unwrap_or b.chain_id 84532;
    trust_registry = b.trust_registry;
    capability_card_url = b.capability_card_url;
    created = now;
    updated = now;
  });
}

unfoldable pub build : DidDocumentBuilder → ℕ → Result DidError DidDocument
build b now = do
  guard (not (is_empty b.chain_name)) chain_name_required
  guard (not (is_empty b.identifier)) identifier_required
  ok (document b now)

-- The method, the chain and the identifier, of exactly four parts.
abbrev pub parse_parts : List Text → Result DidError (Text × Text × Text)
parse_parts (scheme ∷ method ∷ chain ∷ identifier ∷ []) = do
  guard (same scheme (codes "did")) invalid_scheme
  guard (same method did_method) invalid_method
  ok (method, chain, identifier)
parse_parts _ = err invalid_format

unfoldable pub parse_did : Text → Result DidError (Text × Text × Text)
parse_did s = parse_parts (split b':' s)

abbrev pub validate_methods : Text → List VerificationMethod → Result DidError (Unit {0})
validate_methods id [] = ok tt
validate_methods id (method ∷ methods) = do
  guard (starts_with method.id id) foreign_method
  guard (same method.controller id) wrong_controller
  validate_methods id methods

abbrev pub validate_services : Text → List ServiceEndpoint → Result DidError (Unit {0})
validate_services id [] = ok tt
validate_services id (service ∷ services) = do
  guard (starts_with service.id id) foreign_service
  validate_services id services

unfoldable pub validate : DidDocument → Result DidError (Unit {0})
validate d = do
  _ ← parse_did d.id
  validate_methods d.id (or_none d.verification_method)
  validate_services d.id (or_none d.service)

-- `find`.
abbrev pub first {ℓ} : {A : Type ℓ} → (A → Bool) → List A → Option A
first p [] = none
first p (x ∷ xs) = if p x then some x else first p xs

abbrev pub endpoint_of : Option ServiceEndpoint → Option Text
endpoint_of none = none
endpoint_of (some s) = some s.service_endpoint

unfoldable pub a2a_endpoint : DidDocument → Option Text
a2a_endpoint d =
    endpoint_of (first (λ s. same s.service_type (codes "A2AAgent")) (or_none d.service))

abbrev pub card_url_of : Option DidMetadata → Option Text
card_url_of none = none
card_url_of (some m) = m.capability_card_url

unfoldable pub capability_card_url : DidDocument → Option Text
capability_card_url d = card_url_of d.metadata

unfoldable pub get_verification_method : DidDocument → Text → Option VerificationMethod
get_verification_method d key_id =
    first (λ m. ends_with m.id (b'#' ∷ key_id)) (or_none d.verification_method)
