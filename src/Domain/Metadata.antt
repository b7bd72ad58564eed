-- ===== src/Domain/Metadata.antt =====
-- crates/midnight-did-domain/src/did_document.rs: the metadata of a document and of its resolution.
use midnight_did_rs.Common.{
  Bool, false, not, ◌&&◌, Option, List, [], ◌∷◌, Text, codes, all, is_empty, is_ascii_alphabetic,
  is_ascii_alphanumeric, if◌then◌else◌, Result, ok, err,
}
use midnight_did_rs.Domain.Json.{JsonMap}
use midnight_did_rs.Domain.Validation.{ValidationError, issue, from_issues}
use midnight_did_rs.Domain.Document.{DidDocument, DocumentContext}

pub record DidDocumentMetadata : Type 0 where
  pub created : Option Text
  pub updated : Option Text
  pub deactivated : Option Bool
  pub version_id : Option Text
  pub next_update : Option Text
  pub next_version_id : Option Text
  pub equivalent_id : Option (List Text)
  pub canonical_id : Option Text
  pub extra : JsonMap

pub data KnownDidMediaType : Type 0 where
  did_ld_json did_json ld_json json : KnownDidMediaType

pub data KnownDidResolutionErrorCode : Type 0 where
  invalid_did internal_error invalid_public_key : KnownDidResolutionErrorCode
  invalid_public_key_length invalid_public_key_type : KnownDidResolutionErrorCode
  method_not_supported not_allowed_certificate : KnownDidResolutionErrorCode
  not_allowed_global_duplicate_key not_allowed_key_type : KnownDidResolutionErrorCode
  not_allowed_local_derived_key not_allowed_local_duplicate_key : KnownDidResolutionErrorCode
  not_allowed_method not_allowed_verification_method_type : KnownDidResolutionErrorCode
  not_found representation_not_supported unsupported_public_key_type : KnownDidResolutionErrorCode

pub record DidResolutionErrorCode : Type 0 where
  pub keyword : Text

starts_with_letter : Text → Bool
starts_with_letter [] = false
starts_with_letter (c ∷ s) = is_ascii_alphabetic c

-- `DidResolutionErrorCode::validate`
unfoldable pub validate_error_code : DidResolutionErrorCode → Result ValidationError (Unit {0})
unfolding starts_with_letter
validate_error_code code =
    let valid =
      not (is_empty code.keyword)
      && starts_with_letter code.keyword
      && all is_ascii_alphanumeric code.keyword in
    if not valid
    then err
        (from_issues (issue (codes "DID resolution error must match [A-Za-z][A-Za-z0-9]*") ∷ []))
    else ok tt

pub record DidResolutionMetadata : Type 0 where
  pub content_type : Option KnownDidMediaType
  pub error : Option DidResolutionErrorCode
  pub extra : JsonMap

pub record DidResolutionResult : Type 0 where
  pub context : Option DocumentContext
  pub did_document : Option DidDocument
  pub did_document_metadata : DidDocumentMetadata
  pub did_resolution_metadata : DidResolutionMetadata
  pub extra : JsonMap
