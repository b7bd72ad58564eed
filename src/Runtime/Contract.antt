-- ===== src/Runtime/Contract.antt =====
-- crates/midnight-did-runtime/src/contract_wrapper.rs: `Contract` over any backend.
use midnight_did_rs.Common.{Text}
use midnight_did_rs.Common.Actions.{Action}
use midnight_did_rs.Domain.Codecs.{Bytes}
use midnight_did_rs.Method.Network.{MidnightNetwork}
use midnight_did_rs.Method.Hex.{HexCodec, ContractAddress, address_to_hex}
use midnight_did_rs.Runtime.HexCheck.{SchnorrJubjubDigest, SchnorrJubjubSignature}
use midnight_did_rs.Runtime.Ledger.{
  DidLedgerSnapshot, LedgerVerificationMethod, LedgerSchnorrJubjubVerificationMethod, LedgerService,
  LedgerVerificationMethodRelation, MapMutation, SetMutation,
}
use midnight_did_rs.Runtime.Call.{DidContractCall, JsonCodec}
use midnight_did_rs.Runtime.Call
use midnight_did_rs.Runtime.Backend.{Backend, BackendError, FinalizedTxData, encode_call}

pub record Contract (β : Type 0) : Type 0 where
  pub backend : Backend β
  pub address : ContractAddress
  pub network : MidnightNetwork

unfoldable pub contract_address : HexCodec → {β : Type 0} → Contract β → Text
contract_address hex contract = address_to_hex hex contract.address

module _ (codec : JsonCodec) {β : Type 0} (contract : Contract β) where
  unfoldable pub read_snapshot : Action β BackendError DidLedgerSnapshot
  read_snapshot = contract.backend.read_snapshot

  unfoldable pub submit : DidContractCall → Action β BackendError FinalizedTxData
  submit call = contract.backend.submit_tx (record { bytes = encode_call codec call })

  unfoldable pub rotate_controller_key : Bytes → Action β BackendError FinalizedTxData
  unfolding submit
  rotate_controller_key new_controller_public_key =
      submit (Call.rotate_controller_key new_controller_public_key)

  unfoldable pub recover_controller_key : Bytes → Action β BackendError FinalizedTxData
  unfolding submit
  recover_controller_key new_controller_public_key =
      submit (Call.recover_controller_key new_controller_public_key)

  unfoldable pub set_verification_method :
      LedgerVerificationMethod → MapMutation → Action β BackendError FinalizedTxData
  unfolding submit
  set_verification_method method mutation = submit (Call.set_verification_method method mutation)

  unfoldable pub remove_verification_method : Text → Action β BackendError FinalizedTxData
  unfolding submit
  remove_verification_method id = submit (Call.remove_verification_method id)

  unfoldable pub set_schnorr_jubjub_verification_method :
      LedgerSchnorrJubjubVerificationMethod → MapMutation → Action β BackendError FinalizedTxData
  unfolding submit
  set_schnorr_jubjub_verification_method method mutation =
      submit (Call.set_schnorr_jubjub_verification_method method mutation)

  unfoldable pub remove_schnorr_jubjub_verification_method :
      Text → Action β BackendError FinalizedTxData
  unfolding submit
  remove_schnorr_jubjub_verification_method id =
      submit (Call.remove_schnorr_jubjub_verification_method id)

  unfoldable pub verify_schnorr_jubjub_digest_signature :
      Text → SchnorrJubjubDigest → SchnorrJubjubSignature → Action β BackendError FinalizedTxData
  unfolding submit
  verify_schnorr_jubjub_digest_signature id digest signature =
      submit (Call.verify_schnorr_jubjub_digest_signature id digest signature)

  unfoldable pub set_verification_method_relation :
      LedgerVerificationMethodRelation → Text → SetMutation → Action β BackendError FinalizedTxData
  unfolding submit
  set_verification_method_relation relation id mutation =
      submit (Call.set_verification_method_relation relation id mutation)

  unfoldable pub set_service : LedgerService → MapMutation → Action β BackendError FinalizedTxData
  unfolding submit
  set_service service mutation = submit (Call.set_service service mutation)

  unfoldable pub remove_service : Text → Action β BackendError FinalizedTxData
  unfolding submit
  remove_service id = submit (Call.remove_service id)

  unfoldable pub set_also_known_as : Text → SetMutation → Action β BackendError FinalizedTxData
  unfolding submit
  set_also_known_as alias_uri mutation = submit (Call.set_also_known_as alias_uri mutation)

  unfoldable pub deactivate : Action β BackendError FinalizedTxData
  unfolding submit
  deactivate = submit Call.deactivate
