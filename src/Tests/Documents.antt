-- ===== src/Tests/Documents.antt =====
-- The theorems on keys, names and documents at concrete inputs.
use midnight_did_rs.Common.{
  ◌≡◌, ◌↔◌, refl, true, false, none, some, [], ◌∷◌, ◌++◌, Text, codes, starts_with, split, is_ok,
  ap, length, ok, arith,
}
use midnight_did_rs.Domain.Codecs.{Bytes, encode_base64url, decode_base64url_bytes}
use midnight_did_rs.Domain.Codecs.RoundTrip.{
  decode_base64url_bytes_sound, decode_base64url_bytes-encode,
}
use midnight_did_rs.Domain.Codecs.Field.{
  decode_field_element, encode_field_element, be_value, IsMinimal, decode_field_element-encode,
}
use midnight_did_rs.Domain.Json.{JsonValue, empty, contains_key}
use midnight_did_rs.Domain.Jwk.{json_web_key, okp, ed25519, PublicKeyJwk, new_jwk}
use midnight_did_rs.Domain.Jwk.Rules.{Profile, new_jwk_iff}
use midnight_did_rs.Domain.Methods.{NewVerificationMethod, new_method}
use midnight_did_rs.Domain.Methods.Accepted.{method_of, new_method_of_did}
use midnight_did_rs.Domain.Names.{is_did_string, is_key_fragment}
use midnight_did_rs.Domain.Ids.{new_did_key_id, key_fragment, IsKeyId, new_did_key_id_iff}
use midnight_did_rs.Domain.Services.{one, uri}
use midnight_did_rs.Domain.Uri.{UrlParser}
use midnight_did_rs.Domain.Document.{
  DidDocument, one_context, validate, with_normalized_service_endpoints,
}
use midnight_did_rs.Domain.Document.Consistent.{IsConsistent, validate_iff}
use midnight_did_rs.Domain.Builder.{DidDocumentBuilder, CreateDidDocumentParams, new_builder}
use midnight_did_rs.Tests.Base64.{base64, base64-IsBase64, encode_quads}

abbrev pub eight : Bytes
eight = 11 ∷ 7 ∷ 0 ∷ 255 ∷ 128 ∷ 3 ∷ 90 ∷ 1 ∷ []

abbrev pub key_bytes : Bytes
key_bytes = eight ++ (eight ++ (eight ++ eight))

abbrev pub did : Text
did = codes "did:example:alice"

-- No text is a URL, and no text joins one.
abbrev pub no_urls : UrlParser
no_urls = record { parse = λ _. none; joins = λ _. false }

abbrev pub key : PublicKeyJwk
key = record { kty = okp; crv = ed25519; x = encode_quads key_bytes; y = none; extensions = empty }

abbrev pub input : NewVerificationMethod
input = record {
  id = did ++ b'#' ∷ codes "key-1";
  type_ = json_web_key;
  controller = did;
  public_key_jwk = key;
}

abbrev pub document : DidDocument
document = record {
  context = one_context (codes "https://www.w3.org/ns/did/v1");
  id = record { did = did };
  also_known_as = none;
  controller = none;
  verification_method = some (method_of base64 no_urls input ∷ []);
  authentication = some (record { key_id = codes "#key-1" } ∷ []);
  assertion_method = none;
  key_agreement = none;
  capability_invocation = none;
  capability_delegation = none;
  service = some (
      record { id = codes "#web"; type_ = one (codes "Web"); service_endpoint = uri (codes "x") }
      ∷ []);
  extra = empty;
}

abbrev pub no_text : JsonValue → Text
no_text _ = []

validate_iff_example :
    (validate no_text no_urls document ≡ ok tt)
    ↔ IsConsistent no_text (with_normalized_service_endpoints no_urls document)
validate_iff_example = validate_iff no_text no_urls document

new_jwk_iff_example : (new_jwk base64 key ≡ ok key) ↔ (
    (key ≡ key)
    × (contains_key (codes "d") key.extensions ≡ false)
    × Profile base64 key.kty key.crv key.x key.y)
new_jwk_iff_example = new_jwk_iff base64 key key

pub accepted_key : new_jwk base64 key ≡ ok key
unfolding encode_base64url
accepted_key = (new_jwk_iff base64 key key).1 (
  refl,
  unfold contains_key in refl,
  ap is_ok (
      decode_base64url_bytes-encode base64 base64-IsBase64 key_bytes "publicKeyJwk.x" (omega arith)
        (λ h. cc h)),
)

did_is_did : is_did_string did ≡ true
unfolding is_did_string starts_with split
did_is_did = refl

new_method_of_did_example : new_method base64 no_urls input ≡ ok (method_of base64 no_urls input)
unfolding is_key_fragment
new_method_of_did_example =
    new_method_of_did base64 no_urls did (codes "key-1") input key did_is_did refl accepted_key refl
      refl

decode_base64url_bytes_sound_example :
    (encode_base64url base64 key_bytes ≡ encode_base64url base64 key_bytes)
    × (length key_bytes ≡ 32)
decode_base64url_bytes_sound_example =
    decode_base64url_bytes_sound base64 (encode_base64url base64 key_bytes) 32 "x" key_bytes
      (decode_base64url_bytes-encode base64 base64-IsBase64 key_bytes "x" (omega arith) (λ h. cc h))

decode_base64url_bytes-encode_example :
    decode_base64url_bytes base64 (encode_base64url base64 eight) 8 "x" ≡ ok eight
decode_base64url_bytes-encode_example =
    decode_base64url_bytes-encode base64 base64-IsBase64 eight "x" (omega arith) (λ h. cc h)

decode_field_element-encode_example :
    (shortest : Bytes) × (decode_field_element base64 (encode_field_element base64 (0 ∷ 0 ∷ eight))
      ≡ ok shortest)
    × (be_value 0 shortest ≡ be_value 0 (0 ∷ 0 ∷ eight))
    × IsMinimal shortest
decode_field_element-encode_example =
    decode_field_element-encode base64 base64-IsBase64 (0 ∷ 0 ∷ eight) (omega arith)

abbrev pub builder : DidDocumentBuilder
builder = record (new_builder did) { verification_method = method_of base64 no_urls input ∷ [] }

abbrev pub params : CreateDidDocumentParams
params = record {
  context = none;
  id = did;
  also_known_as = none;
  controller = none;
  verification_method = document.verification_method;
  authentication = document.authentication;
  assertion_method = none;
  key_agreement = none;
  capability_invocation = none;
  capability_delegation = none;
  service = document.service;
}

abbrev pub built : DidDocument
built = record document { authentication = none; service = none }

new_did_key_id_iff_example :
    (new_did_key_id (did ++ codes "#key-1") ≡ ok (record { did_url = did ++ codes "#key-1" })) ↔ (
      (did ++ codes "#key-1" ≡ did ++ codes "#key-1")
      × IsKeyId (did ++ codes "#key-1") (key_fragment (record { did_url = did ++ codes "#key-1" })))
new_did_key_id_iff_example =
    new_did_key_id_iff (did ++ codes "#key-1") (record { did_url = did ++ codes "#key-1" })
