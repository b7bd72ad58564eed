-- ===== src/Runtime/Call.antt =====
-- crates/midnight-did-runtime/src/contract_call.rs: the envelope of a circuit invocation.
-- `serde_json` is the parameter `codec`.
use midnight_did_rs.Common.{◌≡◌, Text, Result, ok}
use midnight_did_rs.Domain.Codecs.{Bytes}
use midnight_did_rs.Runtime.HexCheck.{
  SchnorrJubjubDigest, SchnorrJubjubSignature, new_point, new_digest, new_signature,
}
use midnight_did_rs.Runtime.Ledger.{
  LedgerVerificationMethod, LedgerSchnorrJubjubVerificationMethod, LedgerService,
  LedgerVerificationMethodRelation, MapMutation, SetMutation,
}

pub data DidContractCall : Type 0 where
  read_ledger : DidContractCall
  rotate_controller_key : Bytes → DidContractCall
  recover_controller_key : Bytes → DidContractCall
  set_verification_method : LedgerVerificationMethod → MapMutation → DidContractCall
  remove_verification_method : Text → DidContractCall
  set_schnorr_jubjub_verification_method :
      LedgerSchnorrJubjubVerificationMethod → MapMutation → DidContractCall
  remove_schnorr_jubjub_verification_method : Text → DidContractCall
  verify_schnorr_jubjub_digest_signature :
      Text → SchnorrJubjubDigest → SchnorrJubjubSignature → DidContractCall
  set_verification_method_relation :
      LedgerVerificationMethodRelation → Text → SetMutation → DidContractCall
  set_service : LedgerService → MapMutation → DidContractCall
  remove_service : Text → DidContractCall
  set_also_known_as : Text → SetMutation → DidContractCall
  deactivate : DidContractCall

-- `serde_json::to_vec`, and `serde_json::from_slice` with the text of its error.
pub record JsonCodec : Type 0 where
  pub to_vec : DidContractCall → Bytes
  pub from_slice : Bytes → Result Text DidContractCall

-- A call whose values their constructors accept. The fields are private, so every call is one.
abbrev pub IsGated : DidContractCall → Type 0
IsGated (set_schnorr_jubjub_verification_method method mutation) =
    new_point method.public_key ≡ ok method.public_key
IsGated (verify_schnorr_jubjub_digest_signature id digest signature) =
    (new_digest digest ≡ ok digest) × (new_signature signature.bytes_hex ≡ ok signature)
IsGated _ = Unit {0}

-- What `serde_json` promises of derived traits: a value that was written is read back.
pub record IsJsonCodec (codec : JsonCodec) : Type 0 where
  pub from_slice-to_vec :
      (call : DidContractCall) → IsGated call → codec.from_slice (codec.to_vec call) ≡ ok call
