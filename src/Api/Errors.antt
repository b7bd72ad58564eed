-- ===== src/Api/Errors.antt =====
-- crates/midnight-did-api/src/error.rs: the errors of the API and their messages.
use midnight_did_rs.Common.{◌++◌, Text, codes, decimal}
use midnight_did_rs.Domain.Codecs.{
  CodecError, invalid_character, invalid_length, unexpected_byte_length, not_canonical,
}
use midnight_did_rs.Domain.Validation.{ValidationError}
use midnight_did_rs.Domain.Ledger.{
  LedgerUtilsError, empty_field, not_a_relative_or_did_url, empty_fragment,
  duplicate_service_type_entries, empty_service_type_entries, empty_service_type,
  invalid_service_type, not_absolute_uri,
}
use midnight_did_rs.Domain.Ledger
use midnight_did_rs.Method.Did.{
  MidnightDidError, bad_contract_address, bad_offchain_state_hash, bad_format, unknown_network,
  bad_method_specific_id, offchain_not_lowercase, bad_offchain_state_encoding,
}

pub data ContractError : Type 0 where
  failed : Text → ContractError
  not_deployed : ContractError
  state_unavailable : ContractError

pub data VerificationError : Type 0 where
  relation_already_contains : Text → Text → VerificationError
  relation_missing : Text → Text → VerificationError

pub data ControllerError : Type 0 where
  rotation_orphaned : Text → ControllerError
  invalid_secret_key : ControllerError
  subject_mismatch : Text → ControllerError

pub data ApiError : Type 0 where
  verification_error : VerificationError → ApiError
  controller_error : ControllerError → ApiError
  contract_error : ContractError → ApiError
  validation_error : ValidationError → ApiError
  codec_error : CodecError → ApiError
  ledger_utils_error : LedgerUtilsError → ApiError
  midnight_did_error : MidnightDidError → ApiError
  missing_private_state : ApiError
  invalid_argument : Text → ApiError
  encoding : Text → ApiError
  mapping : Text → ApiError

-- The messages, `#[error("…")]`.
unfoldable pub show_contract : ContractError → Text
show_contract (failed e) = codes "contract call failed: " ++ e
show_contract not_deployed = codes "contract not deployed"
show_contract state_unavailable = codes "ledger state unavailable"

show_verification : VerificationError → Text
show_verification (relation_already_contains relation method_id) =
    codes "relation " ++ (relation ++ (codes " already contains verification method " ++ method_id))
show_verification (relation_missing relation method_id) =
    codes "relation " ++ (relation ++ (codes " does not contain verification method " ++ method_id))

show_controller : ControllerError → Text
show_controller (rotation_orphaned e) =
    codes "controller rotation finalized but pending state promotion failed: " ++ e
show_controller invalid_secret_key = codes "DID controller secret key must be 32 bytes"
show_controller (subject_mismatch expected) =
    codes "verificationMethod.controller must equal DID subject (" ++ (expected ++ codes ")")

unfoldable pub show_codec : CodecError → Text
show_codec (invalid_character label) =
    codes label ++ codes " contains an invalid base64url character"
show_codec (invalid_length label) = codes label ++ codes " has an invalid unpadded base64url length"
show_codec (unexpected_byte_length label expected actual) =
    codes label
    ++ (codes " must decode to exactly "
        ++ (decimal expected ++ (codes " bytes (got " ++ (decimal actual ++ codes ")"))))
show_codec (not_canonical label) = codes label ++ codes " is not canonical unpadded base64url"

unfoldable pub show_ledger_utils : LedgerUtilsError → Text
show_ledger_utils (empty_field field) = field ++ codes " must not be empty"
show_ledger_utils (not_a_relative_or_did_url field) =
    field ++ codes " must be a DID URL or relative reference"
show_ledger_utils (empty_fragment field) =
    field ++ codes " DID URL must include a non-empty fragment identifier"
show_ledger_utils (Ledger.subject_mismatch field expected) =
    field ++ (codes " DID URL subject must match the current DID (" ++ (expected ++ codes ")"))
show_ledger_utils duplicate_service_type_entries = codes "service type entries must be unique"
show_ledger_utils empty_service_type_entries = codes "service type entries must not be empty"
show_ledger_utils empty_service_type = codes "service type must not be empty"
show_ledger_utils invalid_service_type =
    codes "service type property must be a non-empty string set"
show_ledger_utils (not_absolute_uri field) =
    field ++ codes " must be a valid absolute URI (RFC3986)"

unfoldable pub show_midnight_did : MidnightDidError → Text
show_midnight_did bad_contract_address = codes "Contract address must be 64 hex chars"
show_midnight_did bad_offchain_state_hash = codes "Offchain state hash must use lowercase hex"
show_midnight_did bad_format = codes "Invalid Midnight DID format"
show_midnight_did unknown_network = codes "Unknown network in Midnight DID"
show_midnight_did bad_method_specific_id =
    codes "Invalid method-specific identifier in Midnight DID"
show_midnight_did offchain_not_lowercase =
    codes "Offchain Midnight DID identifiers must use lowercase hex"
show_midnight_did bad_offchain_state_encoding = codes "Invalid offchain Midnight DID state encoding"

unfoldable pub show_validation : ValidationError → Text
show_validation e = codes "validation failed: " ++ e.summary

unfoldable pub show_api : ApiError → Text
unfolding show_contract show_verification show_controller show_codec show_ledger_utils
    show_midnight_did show_validation
show_api (verification_error e) = show_verification e
show_api (controller_error e) = show_controller e
show_api (contract_error e) = show_contract e
show_api (validation_error e) = show_validation e
show_api (codec_error e) = show_codec e
show_api (ledger_utils_error e) = show_ledger_utils e
show_api (midnight_did_error e) = show_midnight_did e
show_api missing_private_state =
    codes
      "DID controller private state is missing or malformed; import the controller secret before using this contract"
show_api (invalid_argument e) = codes "invalid argument: " ++ e
show_api (encoding e) = codes "encoding error: " ++ e
show_api (mapping e) = codes "ledger mapping error: " ++ e
