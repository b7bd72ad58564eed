-- ===== src/Method/Offchain/State.antt =====
-- crates/midnight-did-method/src/offchain.rs: off-chain states, their encoding, the DID strings
-- built from them and their projection to a DID document. The chunk codec of the runtime crate,
-- the base64 engine and the Blake2s digest are parameters.
pub mod Shape
pub mod Decoding
pub mod LongForm
use midnight_did_rs.Common.{
  ℕ, ◌%◌, Bool, true, false, not, ◌&&◌, ◌||◌, Option, none, some, List, [], ◌∷◌, ◌++◌, String, Text,
  codes, str_len, text_eq, split, length, get_elem?, all, is_empty, map, filter_by,
  is_ascii_alphanumeric, ltb, ◌==◌, if◌then◌else◌, Result, ok, err, ◌>>=◌, ◌>>◌, guard, map_err,
}
use midnight_did_rs.Domain.Codecs.{Bytes, Base64, decode_base64url, encode_base64url}
use midnight_did_rs.Domain.Jwk.{PublicKeyJwk}
use midnight_did_rs.Domain.Names.{strip_hash}
use midnight_did_rs.Method.Network.{offchain}
use midnight_did_rs.Method.Hex.{HexCodec, HashOutput, hash_to_hex}
use midnight_did_rs.Method.Did.{
  MidnightDidString, MidnightDidError, create_midnight_did_string, parse_midnight_did_string,
  parse_offchain_state_hash, or_blank,
}
use midnight_did_rs.Method.Offchain.Errors.{
  OffchainError, codec, did, bad_base64url, non_canonical_base64url, unsupported_encoding,
  not_offchain, missing_encoded_state, state_hash_mismatch, bad_version, too_many_also_known_as,
  no_verification_method, too_many_verification_methods, too_many_services, fragment_required,
  empty_service_field,
}
use midnight_did_rs.Method.Offchain.Frame.{compact_value_to_bytes, compact_value_from_bytes}
use midnight_did_rs.Method.Offchain.Keys.{OffchainVerificationRelationships, key_kind_from_jwk}

abbrev pub max_verification_methods : ℕ
max_verification_methods = 4

abbrev pub max_services : ℕ
max_services = 4

abbrev pub max_also_known_as : ℕ
max_also_known_as = 4

unfoldable pub offchain_state_encoding : Text
offchain_state_encoding = codes "midnight-offchain-did-state-v1.base64url"

pub record OffchainVerificationMethod : Type 0 where
  pub id : Text
  pub public_key_jwk : PublicKeyJwk
  pub relationships : OffchainVerificationRelationships

pub record OffchainService : Type 0 where
  pub id : Text
  pub type_ : Text
  pub service_endpoint : Text

pub record OffchainMidnightDidState : Type 0 where
  pub version : ℕ
  pub also_known_as : List Text
  pub verification_method : List OffchainVerificationMethod
  pub service : List OffchainService

pub record EncodedOffchainMidnightDidState : Type 0 where
  pub encoding : Text
  pub payload : Text

pub record ParsedLongFormOffchainMidnightDid : Type 0 where
  pub did_string : MidnightDidString
  pub state_hash : HashOutput
  pub encoded_state : EncodedOffchainMidnightDidState

-- The trait `CompactValueCodec`.
pub record CompactValueCodec : Type 0 where
  pub to_chunks : OffchainMidnightDidState → Result OffchainError (List Bytes)
  pub from_chunks : List Bytes → Result OffchainError OffchainMidnightDidState

-- `id.starts_with('#')`
abbrev pub is_fragment : Text → Bool
is_fragment [] = false
is_fragment (c ∷ s) = c == b'#'

check_methods : List OffchainVerificationMethod → Result OffchainError (Unit {0})
check_methods [] = ok tt
check_methods (vm ∷ vms) = do
  guard (is_fragment vm.id) fragment_required
  _ ← key_kind_from_jwk vm.public_key_jwk
  check_methods vms

check_services : List OffchainService → Result OffchainError (Unit {0})
check_services [] = ok tt
check_services (s ∷ services) = do
  guard (is_fragment s.id) fragment_required
  guard (not (is_empty s.type_ || is_empty s.service_endpoint)) empty_service_field
  check_services services

unfoldable pub validate_state_shape : OffchainMidnightDidState → Result OffchainError (Unit {0})
unfolding check_methods check_services
validate_state_shape state = do
  guard (not (state.version == 0)) bad_version
  guard (not (ltb max_also_known_as (length state.also_known_as))) too_many_also_known_as
  guard (not (is_empty state.verification_method)) no_verification_method
  guard (not (ltb max_verification_methods (length state.verification_method)))
      too_many_verification_methods
  guard (not (ltb max_services (length state.service))) too_many_services
  check_methods state.verification_method
  check_services state.service

payload_char : ℕ → Bool
payload_char b = is_ascii_alphanumeric b || b == b'-' || b == b'_'

module _ (engine : Base64) where
  unfoldable pub from_base64url : Text → Result OffchainError Bytes
  unfolding payload_char
  from_base64url value = do
    guard (not (is_empty value)) bad_base64url
    guard (not (not (all payload_char value) || str_len value % 4 == 1)) bad_base64url
    decoded ← map_err codec (decode_base64url engine value)
    guard (text_eq (encode_base64url engine decoded) value) non_canonical_base64url
    ok decoded

  module _ (chunks_of : CompactValueCodec) where
    unfoldable pub encode_state :
        OffchainMidnightDidState → Result OffchainError EncodedOffchainMidnightDidState
    encode_state state = do
      validate_state_shape state
      chunks ← chunks_of.to_chunks state
      frame ← compact_value_to_bytes chunks
      ok (record { encoding = offchain_state_encoding; payload = encode_base64url engine frame })

    unfoldable pub decode_state :
        EncodedOffchainMidnightDidState → Result OffchainError OffchainMidnightDidState
    decode_state encoded = do
      guard (text_eq encoded.encoding offchain_state_encoding)
          (unsupported_encoding encoded.encoding)
      frame ← from_base64url encoded.payload
      chunks ← compact_value_from_bytes frame
      state ← chunks_of.from_chunks chunks
      validate_state_shape state
      ok state

-- The `hex` crate, and the 32 bytes of a Blake2s digest.
module _ (engine : Base64) (hex : HexCodec) (blake2s : Bytes → Bytes) where
  unfoldable pub bytes_to_state_hash : Bytes → HashOutput
  bytes_to_state_hash bytes = record { bytes = blake2s bytes }

  unfoldable pub create_offchain_did_string : HashOutput → MidnightDidString
  create_offchain_did_string state_hash =
      create_midnight_did_string (hash_to_hex hex state_hash) offchain

  module _ (chunks_of : CompactValueCodec) where
    unfoldable pub create_offchain_did_string_from_state :
        OffchainMidnightDidState → Result OffchainError MidnightDidString
    create_offchain_did_string_from_state state = do
      encoded ← encode_state engine chunks_of state
      bytes ← from_base64url engine encoded.payload
      ok (create_offchain_did_string (bytes_to_state_hash bytes))

    unfoldable pub create_long_form_offchain_did_string :
        OffchainMidnightDidState → Result OffchainError MidnightDidString
    create_long_form_offchain_did_string state = do
      encoded ← encode_state engine chunks_of state
      bytes ← from_base64url engine encoded.payload
      let short = create_offchain_did_string (bytes_to_state_hash bytes)
      map_err did (parse_midnight_did_string (short.value ++ b':' ∷ encoded.payload))

  unfoldable pub parse_long_form_offchain_did_string :
      Text → Result OffchainError ParsedLongFormOffchainMidnightDid
  parse_long_form_offchain_did_string input = do
    parsed ← map_err did (parse_midnight_did_string input)
    let parts = split b':' input
    guard (text_eq (or_blank (get_elem? parts 2)) (codes "offchain")) not_offchain
    guard (length parts == 5) missing_encoded_state
    state_hash ← map_err did (parse_offchain_state_hash hex (or_blank (get_elem? parts 3)))
    let payload = or_blank (get_elem? parts 4)
    bytes ← from_base64url engine payload
    guard (text_eq (blake2s bytes) state_hash.bytes) state_hash_mismatch
    ok (record {
      did_string = parsed;
      state_hash = state_hash;
      encoded_state = record { encoding = offchain_state_encoding; payload = payload };
    })
