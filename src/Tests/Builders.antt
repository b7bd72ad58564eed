-- ===== src/Tests/Builders.antt =====
-- The document builders at concrete inputs.
use midnight_did_rs.Common.{◌≡◌, refl, true, split, starts_with, text_eq, ok}
use midnight_did_rs.Domain.Names.{is_did_string, parse_did_string}
use midnight_did_rs.Domain.Document.{contains, with_normalized_service_endpoints}
use midnight_did_rs.Domain.Document.Consistent.{IsConsistent}
use midnight_did_rs.Domain.Document.Runs.{document_validates, built_validates}
use midnight_did_rs.Domain.Builder.{new_builder, build, create_did_document}
use midnight_did_rs.Domain.Builder.Built.{
  CarriesBuilder, CarriesParams, build-IsConsistent, create_did_document-IsConsistent,
}
use midnight_did_rs.Domain.Services.{normalize_service_endpoint}
use midnight_did_rs.Domain.Uri.{normalize_uri_string}
use midnight_did_rs.Tests.Documents.{did, document, built, builder, params, no_text, no_urls}

builds : build no_text no_urls builder ≡ ok built
unfolding build new_builder contains parse_did_string is_did_string starts_with split text_eq
    with_normalized_service_endpoints
builds = rw built_validates refl

creates : create_did_document no_text no_urls params ≡ ok document
unfolding create_did_document parse_did_string is_did_string starts_with split text_eq
    with_normalized_service_endpoints normalize_service_endpoint normalize_uri_string
creates = rw document_validates refl

build-IsConsistent_example :
    IsConsistent no_text built
    × CarriesBuilder no_urls built builder
    × (built.id.did ≡ did)
    × (is_did_string did ≡ true)
unfolding new_builder
build-IsConsistent_example = build-IsConsistent no_text no_urls builder built builds

create_did_document-IsConsistent_example :
    IsConsistent no_text document
    × CarriesParams no_urls document params
    × (document.id.did ≡ did)
    × (is_did_string did ≡ true)
create_did_document-IsConsistent_example =
    create_did_document-IsConsistent no_text no_urls params document creates
