-- ===== src/Ffi/Errors.antt =====
-- crates/midnight-did-uniffi/src/error.rs: the flat errors, and the hex texts of 32 bytes.
-- `hex::decode`, with the text of its error, is the parameter `decode_hex`.
use midnight_did_rs.Common.{
  ◌==◌, ◌++◌, Text, codes, decimal, length, Result, ok, ◌>>=◌, ◌>>◌, guard, map_err,
}
use midnight_did_rs.Domain.Codecs.{Bytes}
use midnight_did_rs.Api.Errors.{
  ApiError, verification_error, relation_already_contains, relation_missing, controller_error,
  rotation_orphaned, invalid_secret_key, subject_mismatch, contract_error, validation_error,
  codec_error, ledger_utils_error, midnight_did_error, missing_private_state, invalid_argument,
  encoding, mapping, show_contract, show_validation, show_codec, show_ledger_utils,
  show_midnight_did,
}

pub data FlatError : Type 0 where
  invalid_input contract validation serde not_found : Text → FlatError

-- `From<ApiError>`
unfoldable pub flat_error : ApiError → FlatError
flat_error (verification_error (relation_already_contains relation method_id)) = validation (
    codes "relation "
    ++ (relation ++ (codes " already contains verification method " ++ method_id)))
flat_error (verification_error (relation_missing relation method_id)) = validation (
    codes "relation "
    ++ (relation ++ (codes " does not contain verification method " ++ method_id)))
flat_error (controller_error (rotation_orphaned e)) =
    contract (codes "controller rotation orphaned: " ++ e)
flat_error (controller_error invalid_secret_key) =
    invalid_input (codes "DID controller secret key must be 32 bytes")
flat_error (controller_error (subject_mismatch expected)) =
    validation
      (codes "verificationMethod.controller must equal DID subject (" ++ (expected ++ codes ")"))
flat_error (contract_error e) = contract (show_contract e)
flat_error (validation_error e) = validation (show_validation e)
flat_error (codec_error e) = invalid_input (show_codec e)
flat_error (ledger_utils_error e) = validation (show_ledger_utils e)
flat_error (midnight_did_error e) = validation (show_midnight_did e)
flat_error missing_private_state =
    invalid_input (codes "DID controller private state is missing or malformed")
flat_error (invalid_argument e) = invalid_input e
flat_error (encoding e) = serde e
flat_error (mapping e) = serde e

unfoldable pub decode_hex_32 : (Text → Result Text Bytes) → Text → Text → Result FlatError Bytes
decode_hex_32 decode_hex input param = do
  bytes ←
      map_err (λ (e : Text). invalid_input (codes "hex decode failed: " ++ e)) (decode_hex input)
  guard (length bytes == 32) (
      invalid_input (
        param
        ++ (codes " must be exactly 32 bytes (got " ++ (decimal (length bytes) ++ codes ")"))))
  ok bytes
