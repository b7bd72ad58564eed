-- ===== src/Domain/Document.antt =====
-- crates/midnight-did-domain/src/did_document.rs: `DidDocument` and its cross-consistency check.
-- `serde_json::Value::to_string` is the parameter `json_text`.
pub mod Loops
pub mod Consistent
pub mod Runs
use midnight_did_rs.Common.{
  ℕ, ◌+◌, Bool, true, false, ◌||◌, not, Option, none, some, List, [], ◌∷◌, ◌++◌, Text, codes,
  text_eq, starts_with, map, if◌then◌else◌, decimal, Result,
}
use midnight_did_rs.Domain.Validation.{ValidationIssue, ValidationError, issue_at, checked}
use midnight_did_rs.Domain.Json.{JsonValue, JsonMap}
use midnight_did_rs.Domain.Json
use midnight_did_rs.Domain.Names.{DidString, DidKeyId, strip_hash}
use midnight_did_rs.Domain.Methods.{VerificationMethod}
use midnight_did_rs.Domain.Services.{
  Service, ServiceEndpoint, ServiceEndpointArrayEntry, uri, object, array, uri_entry, object_entry,
  normalize_service_endpoint,
}
use midnight_did_rs.Domain.Uri.{UrlParser}

pub data DocumentContext : Type 0 where
  one_context : Text → DocumentContext
  many_contexts : List Text → DocumentContext

pub data Controller : Type 0 where
  one_controller : DidString → Controller
  many_controllers : List DidString → Controller

pub record DidDocument : Type 0 where
  pub context : DocumentContext
  pub id : DidString
  pub also_known_as : Option (List Text)
  pub controller : Option Controller
  pub verification_method : Option (List VerificationMethod)
  pub authentication : Option (List DidKeyId)
  pub assertion_method : Option (List DidKeyId)
  pub key_agreement : Option (List DidKeyId)
  pub capability_invocation : Option (List DidKeyId)
  pub capability_delegation : Option (List DidKeyId)
  pub service : Option (List Service)
  pub extra : JsonMap

abbrev pub or_nil {ℓ} : {A : Type ℓ} → Option (List A) → List A
or_nil none = []
or_nil (some xs) = xs

-- Membership in the sets and maps that the loops fill.
unfoldable pub contains : List Text → Text → Bool
contains [] key = false
contains (seen ∷ rest) key = text_eq seen key || contains rest key

unfoldable pub canonicalize : Text → Text → Text
canonicalize did value =
    if starts_with value (codes "did:")
    then value
    else elim (strip_hash value) [ some rest ↦ did ++ b'#' ∷ rest | none ↦ did ++ b'#' ∷ value ]

abbrev insert_if : Bool → Text → List Text → List Text
insert_if fresh key seen = if fresh then key ∷ seen else seen

-- `if test { issues.push(...) }`
abbrev append_if : Bool → ValidationIssue → List ValidationIssue → List ValidationIssue
append_if test i issues = if test then issues ++ i ∷ [] else issues

-- The loop over the verification methods' canonical ids: `seen_vm_ids` and the issues.
pub method_loop :
    ℕ → List Text → List ValidationIssue → List Text → List Text × List ValidationIssue
method_loop index seen issues [] = (seen, issues)
method_loop index seen issues (canonical ∷ ids) =
    let old = contains seen canonical in
    method_loop (index + 1) (insert_if (not old) canonical seen)
      (append_if old
        (issue_at (codes "verificationMethod ids must be unique")
          (codes "verificationMethod" ∷ decimal index ∷ codes "id" ∷ []))
        issues)
      ids

-- The loop of `check_relation` over the canonical ids of one relation.
pub relation_loop :
    List Text → Text → ℕ → List Text → List ValidationIssue → List Text → List ValidationIssue
relation_loop known name index seen issues [] = issues
relation_loop known name index seen issues (canonical ∷ ids) =
    let old = contains seen canonical in
    relation_loop known name (index + 1) (insert_if (not old) canonical seen)
      (if old
        then append_if true
            (issue_at (name ++ codes " must not contain duplicate entries")
              (name ∷ decimal index ∷ []))
            issues
        else append_if (not (contains known canonical))
            (issue_at (name ++ codes " references a verificationMethod id that does not exist")
              (name ∷ decimal index ∷ []))
            issues)
      ids

check_relation :
    Text → List Text → Text → Option (List DidKeyId) → List ValidationIssue → List ValidationIssue
unfolding relation_loop
check_relation did known name none issues = issues
check_relation did known name (some values) issues =
    relation_loop known name 0 [] issues (map (λ (v : DidKeyId). canonicalize did v.key_id) values)

-- The values of an endpoint that must differ.
entry_value : ServiceEndpointArrayEntry → JsonValue
entry_value (uri_entry s) = Json.string s
entry_value (object_entry m) = Json.object m

unfoldable pub endpoint_values : ServiceEndpoint → List JsonValue
unfolding entry_value
endpoint_values (uri s) = Json.string s ∷ []
endpoint_values (object m) = Json.object m ∷ []
endpoint_values (array items) = map entry_value items

pub endpoint_loop : ℕ → ℕ → List Text → List ValidationIssue → List Text → List ValidationIssue
endpoint_loop index endpoint_index seen issues [] = issues
endpoint_loop index endpoint_index seen issues (key ∷ keys) =
    let old = contains seen key in
    endpoint_loop index (endpoint_index + 1) (insert_if (not old) key seen)
      (append_if old
        (issue_at (codes "serviceEndpoint values must be unique")
          (codes "service" ∷ decimal index ∷ codes "serviceEndpoint" ∷ decimal endpoint_index ∷ []))
        issues)
      keys

module _ (urls : UrlParser) where
  normalize_service : Service → Service
  normalize_service s = record s {
    service_endpoint = normalize_service_endpoint urls s.service_endpoint;
  }

  normalize_services : Option (List Service) → Option (List Service)
  unfolding normalize_service
  normalize_services none = none
  normalize_services (some services) = some (map normalize_service services)

  unfoldable pub with_normalized_service_endpoints : DidDocument → DidDocument
  unfolding normalize_services
  with_normalized_service_endpoints doc = record doc { service = normalize_services doc.service }

module _ (json_text : JsonValue → Text) where
  service_loop : ℕ → List Text → List ValidationIssue → List Service → List ValidationIssue
  service_loop index seen issues [] = issues
  service_loop index seen issues (s ∷ services) =
      let old = contains seen s.id in
      service_loop (index + 1) (insert_if (not old) s.id seen)
        (endpoint_loop index 0 []
          (append_if old
            (issue_at (codes "service ids must be unique")
              (codes "service" ∷ decimal index ∷ codes "id" ∷ []))
            issues)
          (map json_text (endpoint_values s.service_endpoint)))
        services

  check_services : Option (List Service) → List ValidationIssue → List ValidationIssue
  unfolding service_loop
  check_services none issues = issues
  check_services (some services) issues = service_loop 0 [] issues services

  -- The issues of a document whose endpoints are normalised.
  document_issues : DidDocument → List ValidationIssue
  document_issues doc =
      let did = doc.id.did in
      let ids =
        map (λ (vm : VerificationMethod). canonicalize did vm.id.key_id)
          (or_nil doc.verification_method) in
      let (known, issues) = method_loop 0 [] [] ids in
      check_services doc.service (
        check_relation did known (codes "capabilityDelegation") doc.capability_delegation (
          check_relation did known (codes "capabilityInvocation") doc.capability_invocation (
            check_relation did known (codes "keyAgreement") doc.key_agreement (
              check_relation did known (codes "assertionMethod") doc.assertion_method
                (check_relation did known (codes "authentication") doc.authentication issues)))))

  -- `DidDocument::validate`
  pub validate : UrlParser → DidDocument → Result ValidationError (Unit {0})
  validate urls doc = checked tt (document_issues (with_normalized_service_endpoints urls doc))
