-- ===== src/Method/Offchain/Projection.antt =====
-- crates/midnight-did-method/src/offchain.rs: an off-chain state as the fields of a DID document,
-- and the metadata of an off-chain DID.
pub mod Accepted
pub mod Selected
pub mod Projected
use midnight_did_rs.Common.{
  Bool, false, Option, none, some, List, [], ◌∷◌, Text, codes, decimal, map, filter_by, Result, ok,
  err, ◌>>=◌,
}
use midnight_did_rs.Domain.Codecs.{Base64}
use midnight_did_rs.Domain.Json.{empty}
use midnight_did_rs.Domain.Jwk.{json_web_key}
use midnight_did_rs.Domain.Validation.{ValidationError}
use midnight_did_rs.Domain.Names.{DidString, parse_did_string}
use midnight_did_rs.Domain.Methods.{VerificationMethod, NewVerificationMethod, new_method}
use midnight_did_rs.Domain.Services.{Service, new_service, one, uri}
use midnight_did_rs.Domain.Uri.{UrlParser}
use midnight_did_rs.Domain.Document.{DocumentContext, many_contexts}
use midnight_did_rs.Domain.Metadata.{DidDocumentMetadata}
use midnight_did_rs.Method.Did.{MidnightDidString}
use midnight_did_rs.Method.Offchain.Keys.{OffchainVerificationRelationships}
use midnight_did_rs.Method.Offchain.State.{
  OffchainVerificationMethod, OffchainService, OffchainMidnightDidState,
}

pub record OffchainProjectedDocument : Type 0 where
  pub context : DocumentContext
  pub id : DidString
  pub also_known_as : Option (List Text)
  pub controller : MidnightDidString
  pub verification_method : List VerificationMethod
  pub authentication : Option (List Text)
  pub assertion_method : Option (List Text)
  pub key_agreement : Option (List Text)
  pub capability_invocation : Option (List Text)
  pub capability_delegation : Option (List Text)
  pub service : Option (List Service)

unfoldable pub maybe_some : {T : Type 0} → List T → Option (List T)
maybe_some [] = none
maybe_some (v ∷ values) = some (v ∷ values)

-- `.filter(…).map(|m| m.id.clone()).collect()`
abbrev pub ids_with :
    (OffchainVerificationRelationships → Bool) → List OffchainVerificationMethod → List Text
ids_with flag methods =
    map (λ (m : OffchainVerificationMethod). m.id)
      (filter_by (λ (m : OffchainVerificationMethod). flag m.relationships) methods)

-- The input of `VerificationMethod::new`.
abbrev pub new_of : MidnightDidString → OffchainVerificationMethod → NewVerificationMethod
new_of did method = record {
  id = method.id;
  type_ = json_web_key;
  controller = did.value;
  public_key_jwk = method.public_key_jwk;
}

abbrev pub service_of : OffchainService → Service
service_of s = record { id = s.id; type_ = one s.type_; service_endpoint = uri s.service_endpoint }

module _ (engine : Base64) (urls : UrlParser) where
  unfoldable pub offchain_verification_method_to_did_document_method :
      MidnightDidString → OffchainVerificationMethod → Result ValidationError VerificationMethod
  offchain_verification_method_to_did_document_method did method =
      new_method engine urls (new_of did method)

  unfoldable pub offchain_service_to_did_document_service :
      OffchainService → Result ValidationError Service
  offchain_service_to_did_document_service s = new_service urls (service_of s)

  -- The loops over the methods and the services.
  project_methods :
      MidnightDidString
      → List OffchainVerificationMethod
      → Result ValidationError (List VerificationMethod)
  project_methods did [] = ok []
  project_methods did (vm ∷ rest) = do
    m ← offchain_verification_method_to_did_document_method did vm
    methods ← project_methods did rest
    ok (m ∷ methods)

  project_services : List OffchainService → Result ValidationError (List Service)
  project_services [] = ok []
  project_services (svc ∷ rest) = do
    s ← offchain_service_to_did_document_service svc
    services ← project_services rest
    ok (s ∷ services)

  unfoldable pub offchain_state_to_did_document :
      MidnightDidString
      → OffchainMidnightDidState
      → Result ValidationError OffchainProjectedDocument
  unfolding project_methods project_services
  offchain_state_to_did_document did state = do
    methods ← project_methods did state.verification_method
    services ← project_services state.service
    id ← parse_did_string did.value
    ok (record {
      context = many_contexts (
          codes "https://www.w3.org/ns/did/v1"
          ∷ codes "https://w3c.github.io/vc-jws-2020/contexts/v1"
          ∷ []);
      id = id;
      also_known_as = maybe_some state.also_known_as;
      controller = did;
      verification_method = methods;
      authentication = maybe_some (ids_with (λ r. r.authentication) state.verification_method);
      assertion_method = maybe_some (ids_with (λ r. r.assertion_method) state.verification_method);
      key_agreement = maybe_some (ids_with (λ r. r.key_agreement) state.verification_method);
      capability_invocation =
          maybe_some (ids_with (λ r. r.capability_invocation) state.verification_method);
      capability_delegation =
          maybe_some (ids_with (λ r. r.capability_delegation) state.verification_method);
      service = maybe_some services;
    })

unfoldable pub create_offchain_did_document_metadata :
    OffchainMidnightDidState → DidDocumentMetadata
create_offchain_did_document_metadata state = record {
  created = none;
  updated = none;
  deactivated = some false;
  version_id = some (decimal state.version);
  next_update = none;
  next_version_id = none;
  equivalent_id = none;
  canonical_id = none;
  extra = empty;
}
