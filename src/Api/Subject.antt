-- ===== src/Api/Subject.antt =====
-- crates/midnight-did-api/src/subject.rs: the DID of a contract, and ids bound to it.
use midnight_did_rs.Common.{Text, Result, map_err}
use midnight_did_rs.Domain.Ledger.{BoundIdField, normalize_bound_fragment_id}
use midnight_did_rs.Method.Network.{MidnightNetwork}
use midnight_did_rs.Method.Hex.{HexCodec, ContractAddress, address_to_hex}
use midnight_did_rs.Method.Did.{create_midnight_did_string}
use midnight_did_rs.Runtime.Contract.{Contract}
use midnight_did_rs.Api.Errors.{ApiError, ledger_utils_error}

module _ (hex : HexCodec) where
  unfoldable pub get_did_subject_for : ContractAddress → MidnightNetwork → Text
  get_did_subject_for address network =
      (create_midnight_did_string (address_to_hex hex address) network).value

  unfoldable pub get_did_subject : {β : Type 0} → Contract β → Text
  get_did_subject contract =
      (create_midnight_did_string (address_to_hex hex contract.address) contract.network).value

  unfoldable pub normalize_bound_fragment_id_for :
      {β : Type 0} → Contract β → Text → BoundIdField → Result ApiError Text
  normalize_bound_fragment_id_for contract value field =
      map_err ledger_utils_error
        (normalize_bound_fragment_id value field (get_did_subject contract))
