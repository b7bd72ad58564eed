-- ===== src/Domain/Document/Runs.antt =====
-- Two documents that `validate` accepts, by evaluation.
use midnight_did_rs.Common.{◌≡◌, refl, text_eq, starts_with, ok}
use midnight_did_rs.Domain.Document.{
  validate, document_issues, check_relation, check_services, service_loop, method_loop,
  relation_loop, endpoint_loop, endpoint_values, entry_value, contains, canonicalize,
  with_normalized_service_endpoints,
}
use midnight_did_rs.Domain.Services.{normalize_service_endpoint}
use midnight_did_rs.Domain.Uri.{normalize_uri_string}
use midnight_did_rs.Tests.Documents.{document, built, no_text, no_urls}

pub document_validates : validate no_text no_urls document ≡ ok tt
unfolding validate document_issues check_relation check_services service_loop method_loop
    relation_loop endpoint_loop endpoint_values entry_value contains canonicalize
    with_normalized_service_endpoints normalize_service_endpoint normalize_uri_string text_eq
    starts_with
document_validates = refl

pub built_validates : validate no_text no_urls built ≡ ok tt
unfolding validate document_issues check_relation check_services method_loop contains canonicalize
    with_normalized_service_endpoints text_eq starts_with
built_validates = refl
