-- ===== src/Did/Resolution.antt =====
-- The result of resolving an identifier (node/src/did.rs, `DIDResolutionResult`).
use agentme.Prelude.{ℕ, Bool, false, Option, none, some, Text, codes, ◌++◌}
use agentme.Did.{DidDocument, DidMetadata}
use agentme.Did.Date.{unix_to_rfc3339}

pub record DidResolutionMetadata : Type 0 where
  pub content_type : Option Text
  pub error : Option Text
  pub message : Option Text

pub record DidDocumentMetadata : Type 0 where
  pub created : Option Text
  pub updated : Option Text
  pub deactivated : Option Bool

pub record DidResolutionResult : Type 0 where
  pub did_document : Option DidDocument
  pub did_resolution_metadata : DidResolutionMetadata
  pub did_document_metadata : Option DidDocumentMetadata

abbrev pub printed : (DidMetadata → ℕ) → Option DidMetadata → Option Text
printed time none = none
printed time (some m) = some (unix_to_rfc3339 (time m))

unfoldable pub success : DidDocument → DidResolutionResult
success document = record {
  did_document = some document;
  did_resolution_metadata = record {
    content_type = some (codes "application/did+ld+json");
    error = none;
    message = none;
  };
  did_document_metadata = some (record {
    created = printed (λ m. m.created) document.metadata;
    updated = printed (λ m. m.updated) document.metadata;
    deactivated = some false;
  });
}

abbrev pub failed : Text → Text → DidResolutionResult
failed error message = record {
  did_document = none;
  did_resolution_metadata = record {
    content_type = none;
    error = some error;
    message = some message;
  };
  did_document_metadata = none;
}

unfoldable pub not_found : Text → DidResolutionResult
not_found did = failed (codes "notFound") (codes "DID '" ++ did ++ codes "' not found")

unfoldable pub invalid_did : Text → DidResolutionResult
invalid_did message = failed (codes "invalidDid") message
