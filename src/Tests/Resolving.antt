-- ===== src/Tests/Resolving.antt =====
-- The theorems on resolution at concrete inputs.
use midnight_did_rs.Common.{
  ℕ, ◌+◌, ◌/◌, ◌≡◌, refl, none, some, [], ◌∷◌, ◌++◌, true, decimal, trim_end_matches, Text, codes,
  ok, err, text_eq, trim, starts_with, split_once, split, is_whitespace,
}
use midnight_did_rs.Domain.Json.{empty, contains_key}
use midnight_did_rs.Domain.Jwk.{
  okp, ed25519, json_web_key, public_key_jwk_coordinate_byte_length, new_jwk, validate_jwk,
  collect_issues,
}
use midnight_did_rs.Domain.Codecs.{
  decode_base64url_bytes, decode_base64url, encode_base64url, is_base64url_byte, is_base64url_text,
}
use midnight_did_rs.Domain.Document.{DidDocument, contains, many_contexts, one_controller}
use midnight_did_rs.Domain.Names.{
  extract_key_fragment, is_did_key_id, is_did_string, is_did_url, is_key_fragment, parse_did_key_id,
  parse_did_string, is_relative_reference, has_uri_scheme,
}
use midnight_did_rs.Domain.Methods.{new_method, validate_method}
use midnight_did_rs.Api.Resolution.Ids.{absolute_did_url_reference, verification_method_fragment_id}
use midnight_did_rs.Method.Network.{undeployed, as_wire_str}
use midnight_did_rs.Method.Did.{create_midnight_did_string}
use midnight_did_rs.Runtime.Ledger.{DidLedgerSnapshot, LedgerPublicKeyJwk, default_snapshot}
use midnight_did_rs.Api.Mappers.{assert_midnight_key_profile, public_key_jwk_to_ledger}
use midnight_did_rs.Api.Mappers.Stored.{ledger_jwk_to_domain-public_key_jwk_to_ledger}
use midnight_did_rs.Api.Resolution.Keys.{
  ledger_jwk_to_domain, ledger_verification_method_type_to_domain,
}
use midnight_did_rs.Api.Resolution.Time.{
  timestamp_to_iso, format_iso8601, civil, civil_in, find_year, is_leap, show_civil, find_month,
}
use midnight_did_rs.Api.Resolution.Time.Dates.{Stamps, timestamp_to_iso-Stamps, seconds_of, epoch}
use midnight_did_rs.Api.Resolution.Time.Reading.{read_civil, read_civil-timestamp_to_iso}
use midnight_did_rs.Api.Resolution.State.{Crates, ledger_state_to_did_document}
use midnight_did_rs.Api.Resolution.State.Resolved.{Shows, ledger_state_to_did_document-Shows}
use midnight_did_rs.Tests.Base64.{base64, encode_quads, decode_text, decode_quads}
use midnight_did_rs.Tests.Documents.{key, key_bytes, no_urls}

-- 2024-02-29T23:59:59Z, and what is left of the second.
abbrev leap_day : ℕ
leap_day = 1709251199123

timestamp_to_iso-Stamps_example : Stamps leap_day (timestamp_to_iso leap_day)
timestamp_to_iso-Stamps_example = timestamp_to_iso-Stamps leap_day

written : timestamp_to_iso leap_day ≡ some (codes "2024-02-29T23:59:59Z")
unfolding timestamp_to_iso format_iso8601 civil civil_in find_year is_leap show_civil decimal
    find_month
written = refl

read_civil-timestamp_to_iso_example :
    seconds_of (read_civil (codes "2024-02-29T23:59:59Z")) ≡ epoch + leap_day / 1000
read_civil-timestamp_to_iso_example =
    read_civil-timestamp_to_iso leap_day (codes "2024-02-29T23:59:59Z") written

abbrev stored_key : LedgerPublicKeyJwk
stored_key = record { kty = okp; crv = ed25519; x = encode_quads key_bytes; y = [] }

key_stored : public_key_jwk_to_ledger base64 key ≡ ok stored_key
unfolding public_key_jwk_to_ledger encode_quads contains_key public_key_jwk_coordinate_byte_length
    decode_base64url_bytes decode_base64url decode_text trim_end_matches decode_quads text_eq
    encode_base64url
key_stored = refl

ledger_jwk_to_domain-public_key_jwk_to_ledger_example :
    ledger_jwk_to_domain base64 stored_key ≡ ok (record key { extensions = empty })
unfolding assert_midnight_key_profile
ledger_jwk_to_domain-public_key_jwk_to_ledger_example =
    ledger_jwk_to_domain-public_key_jwk_to_ledger base64 key stored_key refl key_stored

-- A ledger with one method, in one relation.
abbrev published : DidLedgerSnapshot
published = record default_snapshot {
  active = true;
  verification_methods =
      (
        codes "#key-1",
        record { id = codes "#key-1"; typ = json_web_key; public_key_jwk = stored_key },
      )
      ∷ [];
  authentication_relation = codes "#key-1" ∷ [];
}

abbrev crates : Crates
crates = record {
  engine = base64;
  urls = record no_urls { joins = λ _. true };
  decode_hex = λ s. err (codes "no hex");
  strings = λ s. none;
  value = λ s. none;
}

abbrev subject : Text
subject = codes "did:midnight:undeployed:a1"

abbrev shown : DidDocument
shown = record {
  context = many_contexts (
      codes "https://www.w3.org/ns/did/v1"
      ∷ codes "https://w3c.github.io/vc-jws-2020/contexts/v1"
      ∷ []);
  id = record { did = subject };
  also_known_as = none;
  controller = some (one_controller (record { did = subject }));
  verification_method = some (
      record {
        id = record { key_id = subject ++ codes "#key-1" };
        type_ = json_web_key;
        controller = record { did = subject };
        public_key_jwk = key;
      }
      ∷ []);
  authentication = some (record { key_id = codes "#key-1" } ∷ []);
  assertion_method = none;
  key_agreement = none;
  capability_invocation = none;
  capability_delegation = none;
  service = none;
  extra = empty;
}

resolved : ledger_state_to_did_document crates published undeployed (codes "a1") ≡ ok shown
unfolding ledger_state_to_did_document ledger_jwk_to_domain new_jwk validate_jwk collect_issues
    contains_key public_key_jwk_coordinate_byte_length decode_base64url_bytes encode_quads
    decode_base64url decode_text trim_end_matches decode_quads text_eq encode_base64url contains
    ledger_verification_method_type_to_domain new_method absolute_did_url_reference
    verification_method_fragment_id is_whitespace split split_once starts_with trim
    is_base64url_byte is_base64url_text validate_method extract_key_fragment is_did_key_id
    is_did_string is_did_url is_key_fragment parse_did_key_id parse_did_string
    create_midnight_did_string as_wire_str default_snapshot is_relative_reference has_uri_scheme
resolved = refl

ledger_state_to_did_document-Shows_example : Shows subject published shown
unfolding create_midnight_did_string as_wire_str
ledger_state_to_did_document-Shows_example =
    ledger_state_to_did_document-Shows crates published undeployed (codes "a1") shown resolved
