-- ===== src/Method/Offchain/Errors.antt =====
-- crates/midnight-did-method/src/offchain.rs: `OffchainError`.
use midnight_did_rs.Common.{String, Text}
use midnight_did_rs.Domain.Codecs.{CodecError}
use midnight_did_rs.Domain.Validation.{ValidationError}
use midnight_did_rs.Domain.Jwk.{KeyType, CurveType}
use midnight_did_rs.Method.Did.{MidnightDidError}

-- The type of an unsupported key is kept as data, where the code keeps its debug print.
pub data OffchainError : Type 0 where
  codec : CodecError → OffchainError
  did : MidnightDidError → OffchainError
  validation : ValidationError → OffchainError
  bad_base64url non_canonical_base64url short_frame bad_magic too_many_chunks : OffchainError
  chunk_overflow trailing_bytes : OffchainError
  overflow : String → OffchainError
  unsupported_encoding : Text → OffchainError
  not_offchain missing_encoded_state state_hash_mismatch bad_version : OffchainError
  too_many_also_known_as no_verification_method too_many_verification_methods : OffchainError
  too_many_services fragment_required empty_service_field : OffchainError
  unsupported_key_type : KeyType → CurveType → OffchainError
  compact_codec_missing : OffchainError
