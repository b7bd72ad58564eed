-- ===== src/Domain/Services.antt =====
-- crates/midnight-did-domain/src/did_document.rs: `Service` and the normalisation of its endpoint.
use midnight_did_rs.Common.{not, ◌&&◌, List, [], Text, codes, is_empty, map, Result, ok, ◌>>◌}
use midnight_did_rs.Domain.Validation.{ValidationIssue, ValidationError, checked}
use midnight_did_rs.Domain.Json.{JsonMap}
use midnight_did_rs.Domain.Names.{is_did_url, is_relative_reference}
use midnight_did_rs.Domain.Jwk.{push_if}
use midnight_did_rs.Domain.Uri.{UrlParser, normalize_uri_string, normalize_map}

pub data ServiceEndpointArrayEntry : Type 0 where
  uri_entry : Text → ServiceEndpointArrayEntry
  object_entry : JsonMap → ServiceEndpointArrayEntry

pub data ServiceEndpoint : Type 0 where
  uri : Text → ServiceEndpoint
  object : JsonMap → ServiceEndpoint
  array : List ServiceEndpointArrayEntry → ServiceEndpoint

pub data ServiceType : Type 0 where
  one : Text → ServiceType
  many : List Text → ServiceType

-- `NewService` has the same fields.
pub record Service : Type 0 where
  pub id : Text
  pub type_ : ServiceType
  pub service_endpoint : ServiceEndpoint

-- The issue of an empty type, before the issues `rest`.
type_issues : ServiceType → List ValidationIssue
type_issues (one s) = push_if (is_empty s) (codes "service type must not be empty") []
type_issues (many types) =
    push_if (is_empty types) (codes "service type must be a non-empty array") []

module _ (urls : UrlParser) where
  normalize_entry : ServiceEndpointArrayEntry → ServiceEndpointArrayEntry
  normalize_entry (uri_entry s) = uri_entry (normalize_uri_string urls s)
  normalize_entry (object_entry m) = object_entry (normalize_map urls m)

  unfoldable pub normalize_service_endpoint : ServiceEndpoint → ServiceEndpoint
  unfolding normalize_entry
  normalize_service_endpoint (uri s) = uri (normalize_uri_string urls s)
  normalize_service_endpoint (object m) = object (normalize_map urls m)
  normalize_service_endpoint (array entries) = array (map normalize_entry entries)

  unfoldable pub validate_service : Service → Result ValidationError (Unit {0})
  unfolding type_issues
  validate_service s = checked tt (
      push_if (not (is_did_url s.id) && not (is_relative_reference urls.joins s.id))
        (codes "Service id must be a DID URL or relative reference") (type_issues s.type_))

  -- `Service::new`
  unfoldable pub new_service : Service → Result ValidationError Service
  new_service input = do
    validate_service input
    ok (record input { service_endpoint = normalize_service_endpoint input.service_endpoint })
