-- ===== src/Tests/Dids.antt =====
-- The theorems on DID strings, networks and off-chain states at concrete inputs.
use midnight_did_rs.Common.{
  ◌++◌, trim_end_matches, text_eq, starts_with, split, ◌≡◌, ◌↔◌, ◌<◌, ◌%◌, refl, true, false, none,
  some, [], ◌∷◌, codes, All, map, to_ascii_lowercase, ok, err, arith, ok-injective, subst,
}
use midnight_did_rs.Domain.Codecs.{
  Bytes, IsByte, encode_base64url, decode_base64url, is_base64url_byte,
}
use midnight_did_rs.Method.Network.{
  MidnightNetwork, mainnet, offchain, as_wire_str, from_wire_str, RuntimeNetworkId, as_str,
  runtime_to_domain, domain_to_runtime,
}
use midnight_did_rs.Method.Network.Mapping.{from_wire_str_iff, domain_to_runtime_iff}
use midnight_did_rs.Method.Hex.{HashOutput, ContractAddress, address_to_hex, hash_to_hex}
use midnight_did_rs.Method.Did.{
  MidnightSubjectId, contract, MidnightDidString, subject_to_hex, is_hex64, is_lowercase_hex64,
  is_base64url_segment, create_midnight_did_string, parse_midnight_did_string, parse_midnight_did,
  parse_contract_address, bad_contract_address,
}
use midnight_did_rs.Method.Did.Parsing.{IsMidnightDid}
use midnight_did_rs.Method.Did.Building.{parse_midnight_did_string_iff}
use midnight_did_rs.Method.Did.Subject.{Spells, parse_midnight_did_total}
use midnight_did_rs.Method.Did.RoundTrip.{parse_midnight_did-create, parse_contract_address_total}
use midnight_did_rs.Method.Offchain.Frame.{compact_value_to_bytes, compact_value_from_bytes}
use midnight_did_rs.Method.Offchain.Frame.Canonical.{compact_value_from_bytes_iff}
use midnight_did_rs.Method.Offchain.Keys.{
  ed25519_kind, OffchainVerificationRelationships, relationships_to_mask, mask_to_relationships,
  key_kind_from_jwk, jwk_from_key_kind,
}
use midnight_did_rs.Method.Offchain.Keys.Laws.{
  mask_round_trip, key_kind_from_jwk_of_kind, jwk_from_key_kind_of_jwk,
}
use midnight_did_rs.Method.Offchain.State.{
  create_long_form_offchain_did_string, parse_long_form_offchain_did_string, from_base64url,
  bytes_to_state_hash, create_offchain_did_string, OffchainMidnightDidState,
  EncodedOffchainMidnightDidState, CompactValueCodec, encode_state, decode_state,
  validate_state_shape, offchain_state_encoding,
}
use midnight_did_rs.Method.Offchain.State.Shape.{IsShape, validate_state_shape_iff}
use midnight_did_rs.Method.Offchain.State.Decoding.{decode_state-encode_state}
use midnight_did_rs.Method.Offchain.State.LongForm.{parse_long_form_offchain_did_string-create}
use midnight_did_rs.Tests.Base64.{encode_quads, decode_text, decode_quads, base64, base64-IsBase64}
use midnight_did_rs.Tests.Documents.{key, key_bytes, accepted_key, no_urls}
use midnight_did_rs.Domain.Uri.{UrlParser}
use midnight_did_rs.Tests.Hex.{hex, hex-IsHexCodec, encode_pairs}

abbrev hash : HashOutput
hash = record { bytes = key_bytes }

abbrev subject : MidnightSubjectId
subject = contract (record { hash = hash })

abbrev made : MidnightDidString
made = create_midnight_did_string (subject_to_hex hex subject) mainnet

parse_midnight_did-create_example :
    (parse_midnight_did_string made.value ≡ ok made)
    × (parse_midnight_did hex made ≡ ok (mainnet, subject))
parse_midnight_did-create_example =
    parse_midnight_did-create hex hex-IsHexCodec mainnet subject (refl, (omega arith, refl))

made_parses : parse_midnight_did_string made.value ≡ ok made
made_parses =
    (parse_midnight_did-create hex hex-IsHexCodec mainnet subject (refl, (omega arith, refl))).0

parse_midnight_did_string_iff_example :
    (parse_midnight_did_string made.value ≡ ok made)
    ↔ ((made.value ≡ made.value) × IsMidnightDid made.value)
parse_midnight_did_string_iff_example = parse_midnight_did_string_iff made.value made

parse_midnight_did_total_example :
    (n : MidnightNetwork) × (s : MidnightSubjectId) × (parse_midnight_did hex made ≡ ok (n, s))
    × Spells hex hex-IsHexCodec made.value n s
parse_midnight_did_total_example =
    parse_midnight_did_total hex hex-IsHexCodec made.value made made_parses

parse_contract_address_total_example :
    (is_hex64 (encode_pairs key_bytes) ≡ true
      → (a : ContractAddress) × (parse_contract_address hex (encode_pairs key_bytes) ≡ ok a)
        × (address_to_hex hex a ≡ map to_ascii_lowercase (encode_pairs key_bytes)))
    × (is_hex64 (encode_pairs key_bytes) ≡ false
        → parse_contract_address hex (encode_pairs key_bytes) ≡ err bad_contract_address)
parse_contract_address_total_example =
    parse_contract_address_total hex hex-IsHexCodec (encode_pairs key_bytes)

from_wire_str_iff_example :
    (from_wire_str (codes "mainnet") ≡ some mainnet) ↔ (codes "mainnet" ≡ as_wire_str mainnet)
from_wire_str_iff_example = from_wire_str_iff (codes "mainnet") mainnet

domain_to_runtime_iff_example :
    ((domain_to_runtime mainnet ≡ some RuntimeNetworkId.mainnet)
      ↔ (runtime_to_domain RuntimeNetworkId.mainnet ≡ mainnet))
    × (as_str RuntimeNetworkId.mainnet ≡ as_wire_str (runtime_to_domain RuntimeNetworkId.mainnet))
    × (domain_to_runtime offchain ≡ none)
domain_to_runtime_iff_example = domain_to_runtime_iff mainnet RuntimeNetworkId.mainnet

abbrev frame : Bytes
frame = 0x4d ∷ 0x4f ∷ 0x44 ∷ 0x31 ∷ 0 ∷ 0 ∷ 0 ∷ 1 ∷ 0 ∷ 0 ∷ 0 ∷ 2 ∷ 7 ∷ 9 ∷ []

compact_value_from_bytes_iff_example :
    (compact_value_from_bytes frame ≡ ok ((7 ∷ 9 ∷ []) ∷ []))
    ↔ (compact_value_to_bytes ((7 ∷ 9 ∷ []) ∷ []) ≡ ok frame)
compact_value_from_bytes_iff_example =
    compact_value_from_bytes_iff frame ((7 ∷ 9 ∷ []) ∷ []) (omega arith)

abbrev relationships : OffchainVerificationRelationships
relationships = record {
  authentication = true;
  assertion_method = false;
  key_agreement = true;
  capability_invocation = false;
  capability_delegation = true;
}

mask_round_trip_example :
    (mask_to_relationships (relationships_to_mask relationships) ≡ relationships)
    × (relationships_to_mask relationships < 32)
    × (relationships_to_mask (mask_to_relationships 0xe5) ≡ 0xe5 % 32)
mask_round_trip_example = mask_round_trip relationships 0xe5 (omega arith)

jwk_from_key_kind_of_jwk_example : jwk_from_key_kind base64 ed25519_kind key.x [] ≡ ok key
jwk_from_key_kind_of_jwk_example =
    jwk_from_key_kind_of_jwk base64 key ed25519_kind accepted_key refl
      (unfold key_kind_from_jwk in refl)

made_key : jwk_from_key_kind base64 ed25519_kind key.x [] ≡ ok key
made_key =
    jwk_from_key_kind_of_jwk base64 key ed25519_kind accepted_key refl
      (unfold key_kind_from_jwk in refl)

key_kind_from_jwk_of_kind_example : key_kind_from_jwk key ≡ ok ed25519_kind
key_kind_from_jwk_of_kind_example =
    key_kind_from_jwk_of_kind base64 ed25519_kind key.x [] key made_key

abbrev state : OffchainMidnightDidState
state = record {
  version = 1;
  also_known_as = [];
  verification_method =
      record { id = codes "#key-1"; public_key_jwk = key; relationships = relationships } ∷ [];
  service = [];
}

-- A codec that knows this state only, under one chunk.
abbrev chunks_of : CompactValueCodec
chunks_of = record { to_chunks = λ _. ok ((7 ∷ 9 ∷ []) ∷ []); from_chunks = λ _. ok state }

validate_state_shape_iff_example : (validate_state_shape state ≡ ok tt) ↔ IsShape state
validate_state_shape_iff_example = validate_state_shape_iff state

abbrev encoded : EncodedOffchainMidnightDidState
encoded = record { encoding = offchain_state_encoding; payload = base64.encode frame }

encodes : encode_state base64 chunks_of state ≡ ok encoded
unfolding encode_state validate_state_shape key_kind_from_jwk compact_value_to_bytes
    encode_base64url
encodes = refl

decode_state-encode_state_example : decode_state base64 chunks_of encoded ≡ ok state
decode_state-encode_state_example =
    decode_state-encode_state base64 base64-IsBase64 chunks_of state encoded
      (λ chunks h. (refl, subst (All (All IsByte)) (ok-injective h) (omega arith, tt))) encodes

-- A digest of 32 bytes.
abbrev digest : Bytes → Bytes
digest _ = key_bytes

-- The DID string whose last part is the payload.
abbrev long_did : MidnightDidString
long_did = record {
  value =
      (create_midnight_did_string (encode_pairs key_bytes) offchain).value
      ++ b':' ∷ encode_quads frame;
}

long_form : create_long_form_offchain_did_string base64 hex digest chunks_of state ≡ ok long_did
unfolding create_long_form_offchain_did_string encode_state validate_state_shape key_kind_from_jwk
    compact_value_to_bytes encode_base64url encode_quads from_base64url decode_base64url
    trim_end_matches decode_text decode_quads is_base64url_byte text_eq create_offchain_did_string
    bytes_to_state_hash create_midnight_did_string hash_to_hex encode_pairs as_wire_str
    parse_midnight_did_string starts_with split from_wire_str is_hex64 is_lowercase_hex64
    is_base64url_segment
long_form = refl

parse_long_form_offchain_did_string-create_example :
    (encoded : EncodedOffchainMidnightDidState) × (bytes : Bytes) × (encode_state base64 chunks_of
        state
      ≡ ok encoded)
    × (from_base64url base64 encoded.payload ≡ ok bytes)
    × (parse_long_form_offchain_did_string base64 hex digest long_did.value
        ≡ ok (record {
          did_string = long_did;
          state_hash = bytes_to_state_hash base64 hex digest bytes;
          encoded_state = encoded;
        }))
unfolding bytes_to_state_hash
parse_long_form_offchain_did_string-create_example =
    parse_long_form_offchain_did_string-create base64 hex hex-IsHexCodec digest chunks_of state
      long_did (λ _. (omega arith, refl)) long_form

-- Every text joins a URL.
abbrev some_urls : UrlParser
some_urls = record no_urls { joins = λ _. true }
