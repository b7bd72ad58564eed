-- ===== src/Domain/Builder.antt =====
-- crates/midnight-did-domain/src/did_document.rs: `DidDocumentBuilder` and `create_did_document`.
pub mod Built
use midnight_did_rs.Common.{
  Bool, true, false, not, Option, none, some, List, [], ◌∷◌, ◌++◌, Text, codes, map, is_empty,
  if◌then◌else◌, Result, ok, err, ◌>>=◌, ◌>>◌,
}
use midnight_did_rs.Domain.Validation.{ValidationIssue, ValidationError, issue, checked}
use midnight_did_rs.Domain.Json.{JsonValue, empty}
use midnight_did_rs.Domain.Names.{DidString, DidKeyId, parse_did_string}
use midnight_did_rs.Domain.Methods.{VerificationMethod}
use midnight_did_rs.Domain.Services.{Service}
use midnight_did_rs.Domain.Uri.{UrlParser}
use midnight_did_rs.Domain.Document.{
  DocumentContext, one_context, Controller, DidDocument, contains, validate,
  with_normalized_service_endpoints,
}

pub record DidDocumentBuilder : Type 0 where
  pub id : Text
  pub context : Option DocumentContext
  pub also_known_as : Option (List Text)
  pub controller : Option Controller
  pub verification_method : List VerificationMethod
  pub authentication : List DidKeyId
  pub assertion_method : List DidKeyId
  pub key_agreement : List DidKeyId
  pub capability_invocation : List DidKeyId
  pub capability_delegation : List DidKeyId
  pub service : List Service

-- `DidDocumentBuilder::new`
unfoldable pub new_builder : Text → DidDocumentBuilder
new_builder id = record {
  id = id;
  context = none;
  also_known_as = none;
  controller = none;
  verification_method = [];
  authentication = [];
  assertion_method = [];
  key_agreement = [];
  capability_invocation = [];
  capability_delegation = [];
  service = [];
}

unfoldable pub with_context : DidDocumentBuilder → DocumentContext → DidDocumentBuilder
with_context b ctx = record b { context = some ctx }

unfoldable pub with_also_known_as : DidDocumentBuilder → List Text → DidDocumentBuilder
with_also_known_as b aliases = record b { also_known_as = some aliases }

unfoldable pub with_controller : DidDocumentBuilder → Controller → DidDocumentBuilder
with_controller b c = record b { controller = some c }

unfoldable pub add_verification_method :
    DidDocumentBuilder → VerificationMethod → DidDocumentBuilder
add_verification_method b vm = record b { verification_method = b.verification_method ++ vm ∷ [] }

unfoldable pub add_service : DidDocumentBuilder → Service → DidDocumentBuilder
add_service b svc = record b { service = b.service ++ svc ∷ [] }

unfoldable pub with_authentication : DidDocumentBuilder → List DidKeyId → DidDocumentBuilder
with_authentication b ids = record b { authentication = ids }

unfoldable pub with_assertion_method : DidDocumentBuilder → List DidKeyId → DidDocumentBuilder
with_assertion_method b ids = record b { assertion_method = ids }

unfoldable pub with_key_agreement : DidDocumentBuilder → List DidKeyId → DidDocumentBuilder
with_key_agreement b ids = record b { key_agreement = ids }

unfoldable pub with_capability_invocation : DidDocumentBuilder → List DidKeyId → DidDocumentBuilder
with_capability_invocation b ids = record b { capability_invocation = ids }

unfoldable pub with_capability_delegation : DidDocumentBuilder → List DidKeyId → DidDocumentBuilder
with_capability_delegation b ids = record b { capability_delegation = ids }

-- The loops that look for an id already inserted, and for an id of no method.
duplicates : Text → List Text → List Text → List ValidationIssue
duplicates message seen [] = []
duplicates message seen (id ∷ ids) =
    let rest = duplicates message (id ∷ seen) ids in
    if contains seen id then issue (message ++ id) ∷ rest else rest

unknown : Text → List Text → List DidKeyId → List ValidationIssue
unknown kind known [] = []
unknown kind known (id ∷ ids) =
    let rest = unknown kind known ids in
    if not (contains known id.key_id)
    then issue (kind ++ (codes " references unknown verificationMethod id: " ++ id.key_id)) ∷ rest
    else rest

builder_issues : DidDocumentBuilder → List ValidationIssue
unfolding duplicates unknown
builder_issues b =
    let known = map (λ (vm : VerificationMethod). vm.id.key_id) b.verification_method in
    duplicates (codes "duplicate verificationMethod id: ") [] known
    ++ (duplicates (codes "duplicate service id: ") [] (map (λ (svc : Service). svc.id) b.service)
        ++ (unknown (codes "authentication") known b.authentication
            ++ (unknown (codes "assertionMethod") known b.assertion_method
                ++ (unknown (codes "keyAgreement") known b.key_agreement
                    ++ (unknown (codes "capabilityInvocation") known b.capability_invocation
                        ++ unknown (codes "capabilityDelegation") known b.capability_delegation)))))

-- `if xs.is_empty() { None } else { Some(xs) }`
abbrev some_if_any : {A : Type 0} → List A → Option (List A)
some_if_any [] = none
some_if_any (x ∷ xs) = some (x ∷ xs)

or_default : Option DocumentContext → DocumentContext
or_default none = one_context (codes "https://www.w3.org/ns/did/v1")
or_default (some ctx) = ctx

document_of : DidDocumentBuilder → DidString → DidDocument
unfolding or_default
document_of b subject = record {
  context = or_default b.context;
  id = subject;
  also_known_as = b.also_known_as;
  controller = b.controller;
  verification_method = some_if_any b.verification_method;
  authentication = some_if_any b.authentication;
  assertion_method = some_if_any b.assertion_method;
  key_agreement = some_if_any b.key_agreement;
  capability_invocation = some_if_any b.capability_invocation;
  capability_delegation = some_if_any b.capability_delegation;
  service = some_if_any b.service;
  extra = empty;
}

pub record CreateDidDocumentParams : Type 0 where
  pub context : Option DocumentContext
  pub id : Text
  pub also_known_as : Option (List Text)
  pub controller : Option Controller
  pub verification_method : Option (List VerificationMethod)
  pub authentication : Option (List DidKeyId)
  pub assertion_method : Option (List DidKeyId)
  pub key_agreement : Option (List DidKeyId)
  pub capability_invocation : Option (List DidKeyId)
  pub capability_delegation : Option (List DidKeyId)
  pub service : Option (List Service)

document_with : CreateDidDocumentParams → DidString → DidDocument
unfolding or_default
document_with params subject = record {
  context = or_default params.context;
  id = subject;
  also_known_as = params.also_known_as;
  controller = params.controller;
  verification_method = params.verification_method;
  authentication = params.authentication;
  assertion_method = params.assertion_method;
  key_agreement = params.key_agreement;
  capability_invocation = params.capability_invocation;
  capability_delegation = params.capability_delegation;
  service = params.service;
  extra = empty;
}

module _ (json_text : JsonValue → Text) (urls : UrlParser) where
  -- `doc.validate()?; Ok(doc.with_normalized_service_endpoints())`
  finished : DidDocument → Result ValidationError DidDocument
  finished doc = do validate json_text urls doc; ok (with_normalized_service_endpoints urls doc)

  -- `DidDocumentBuilder::build`
  unfoldable pub build : DidDocumentBuilder → Result ValidationError DidDocument
  unfolding builder_issues document_of finished
  build b = do
    subject ← parse_did_string b.id
    checked tt (builder_issues b)
    finished (document_of b subject)

  unfoldable pub create_did_document : CreateDidDocumentParams → Result ValidationError DidDocument
  unfolding document_with finished
  create_did_document params = do
    subject ← parse_did_string params.id
    finished (document_with params subject)
