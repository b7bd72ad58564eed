-- ===== src/Api/Entries.antt =====
-- crates/midnight-did-api/src/service_operations.rs and document_operations.rs: services, aliases
-- and deactivation.
use midnight_did_rs.Common.{Bool, List, Text, codes, some, map_err}
use midnight_did_rs.Common.Actions.{Action, ◌>>=◌, done, map_action_err}
use midnight_did_rs.Domain.Services.{Service, ServiceEndpoint}
use midnight_did_rs.Domain.Uri.{UrlParser}
use midnight_did_rs.Domain.Ledger.{short_service_id, assert_absolute_uri}
use midnight_did_rs.Method.Hex.{HexCodec}
use midnight_did_rs.Runtime.Ledger.{MapMutation, SetMutation}
use midnight_did_rs.Runtime.Call.{JsonCodec}
use midnight_did_rs.Runtime.Backend.{FinalizedTxData}
use midnight_did_rs.Runtime.Contract.{Contract, set_service, set_also_known_as}
use midnight_did_rs.Runtime.Contract
use midnight_did_rs.Api.Errors.{ApiError, ledger_utils_error}
use midnight_did_rs.Api.Subject.{normalize_bound_fragment_id_for}
use midnight_did_rs.Api.Mappers.{service_to_ledger}
use midnight_did_rs.Api.MethodOperations.{map_backend_err}

-- The crates that these operations call: the URL parser, `serde_json` and `hex`.
pub record Externals : Type 0 where
  pub hex : HexCodec
  pub codec : JsonCodec
  pub urls : UrlParser
  pub parses : Text → Bool
  pub json_strings : List Text → Text
  pub json_endpoint : ServiceEndpoint → Text

module _ (ext : Externals) {β : Type 0} (contract : Contract β) where
  unfoldable pub add_service : Service → Action β ApiError FinalizedTxData
  add_service s = do
    ledger ← done (service_to_ledger ext.hex contract ext.urls ext.json_strings ext.json_endpoint s)
    map_action_err map_backend_err (set_service ext.codec contract ledger MapMutation.insert)

  unfoldable pub update_service : Service → Action β ApiError FinalizedTxData
  update_service s = do
    ledger ← done (service_to_ledger ext.hex contract ext.urls ext.json_strings ext.json_endpoint s)
    map_action_err map_backend_err (set_service ext.codec contract ledger MapMutation.update)

  unfoldable pub remove_service : Text → Action β ApiError FinalizedTxData
  remove_service id = do
    normalized ← done (normalize_bound_fragment_id_for ext.hex contract id short_service_id)
    map_action_err map_backend_err (Contract.remove_service ext.codec contract normalized)

  unfoldable pub add_also_known_as : Text → Action β ApiError FinalizedTxData
  add_also_known_as alias_uri = do
    alias ← done (
        map_err ledger_utils_error
          (assert_absolute_uri ext.parses alias_uri (some (codes "aliasUri"))))
    map_action_err map_backend_err (set_also_known_as ext.codec contract alias SetMutation.insert)

  unfoldable pub remove_also_known_as : Text → Action β ApiError FinalizedTxData
  remove_also_known_as alias_uri = do
    alias ← done (
        map_err ledger_utils_error
          (assert_absolute_uri ext.parses alias_uri (some (codes "aliasUri"))))
    map_action_err map_backend_err (set_also_known_as ext.codec contract alias SetMutation.remove)

  unfoldable pub deactivate : Action β ApiError FinalizedTxData
  deactivate = map_action_err map_backend_err (Contract.deactivate ext.codec contract)
