-- ===== src/Api/MethodOperations.antt =====
-- crates/midnight-did-api/src/verification_method_operations.rs: verification methods and their
-- relations on the ledger.
pub mod Purge
pub mod Guards
use midnight_did_rs.Common.{
  Bool, true, false, not, List, [], ◌∷◌, Text, codes, map, if◌then◌else◌, Result, ok, err, guard,
}
use midnight_did_rs.Common.Actions.{Action, ◌>>=◌, ◌>>◌, done, map_action_err}
use midnight_did_rs.Domain.Codecs.{Base64}
use midnight_did_rs.Domain.Jwk.{
  VerificationMethodRelation, undefined, authentication, assertion_method, key_agreement,
  capability_invocation, capability_delegation,
}
use midnight_did_rs.Domain.Methods.{VerificationMethod}
use midnight_did_rs.Domain.Ledger.{method_id}
use midnight_did_rs.Method.Hex.{HexCodec}
use midnight_did_rs.Runtime.HexCheck.{SchnorrJubjubDigest, SchnorrJubjubSignature}
use midnight_did_rs.Runtime.Ledger.{DidLedgerSnapshot, MapMutation, SetMutation, relation_contains}
use midnight_did_rs.Runtime.Call.{JsonCodec}
use midnight_did_rs.Runtime.Backend.{BackendError, FinalizedTxData, show_backend}
use midnight_did_rs.Runtime.Contract.{
  Contract, read_snapshot, set_verification_method, set_verification_method_relation,
  set_schnorr_jubjub_verification_method,
}
use midnight_did_rs.Runtime.Contract
use midnight_did_rs.Api.Errors.{
  ApiError, contract_error, failed, verification_error, relation_already_contains, relation_missing,
}
use midnight_did_rs.Api.Subject.{normalize_bound_fragment_id_for}
use midnight_did_rs.Api.Mappers.{
  SchnorrJubjubVerificationMethod, verification_method_to_ledger,
  schnorr_jubjub_verification_method_to_ledger, ledger_verification_method_relation_for,
}

abbrev pub verification_method_relations : List VerificationMethodRelation
verification_method_relations =
    authentication ∷ assertion_method ∷ key_agreement ∷ capability_invocation
    ∷ capability_delegation ∷ []

pub record VerificationMethodRelationMembership : Type 0 where
  pub relation : VerificationMethodRelation
  pub member : Bool

unfoldable pub verification_method_relation_memberships :
    DidLedgerSnapshot → Text → List VerificationMethodRelationMembership
verification_method_relation_memberships state normalized_method_id =
    map
      (λ (r : VerificationMethodRelation). record {
        relation = r;
        member =
            relation_contains state (ledger_verification_method_relation_for r)
              normalized_method_id;
      })
      verification_method_relations

-- `{relation:?}`
unfoldable pub debug_relation : VerificationMethodRelation → Text
debug_relation undefined = codes "Undefined"
debug_relation authentication = codes "Authentication"
debug_relation assertion_method = codes "AssertionMethod"
debug_relation key_agreement = codes "KeyAgreement"
debug_relation capability_invocation = codes "CapabilityInvocation"
debug_relation capability_delegation = codes "CapabilityDelegation"

unfoldable pub assert_verification_method_relation_absent :
    DidLedgerSnapshot → VerificationMethodRelation → Text → Result ApiError (Unit {0})
unfolding debug_relation
assert_verification_method_relation_absent state r id =
    if relation_contains state (ledger_verification_method_relation_for r) id
    then err (verification_error (relation_already_contains (debug_relation r) id))
    else ok tt

unfoldable pub assert_verification_method_relation_present :
    DidLedgerSnapshot → VerificationMethodRelation → Text → Result ApiError (Unit {0})
unfolding debug_relation
assert_verification_method_relation_present state r id =
    if relation_contains state (ledger_verification_method_relation_for r) id
    then ok tt
    else err (verification_error (relation_missing (debug_relation r) id))

unfoldable pub map_backend_err : BackendError → ApiError
map_backend_err e = contract_error (failed (show_backend e))

module _ (codec : JsonCodec) (hex : HexCodec) {β : Type 0} (contract : Contract β) where
  unfoldable pub remove_present_verification_method_relations :
      List VerificationMethodRelationMembership → Text → Action β ApiError (Unit {0})
  unfolding map_backend_err
  remove_present_verification_method_relations [] id = done (ok tt)
  remove_present_verification_method_relations (entry ∷ memberships) id =
      let rest = remove_present_verification_method_relations memberships id in
      if not entry.member
      then rest
      else map_action_err map_backend_err (
          set_verification_method_relation codec contract
            (ledger_verification_method_relation_for entry.relation) id SetMutation.remove)
        >>= λ _. rest

  unfoldable pub purge_verification_method_from_all_relations : Text → Action β ApiError (Unit {0})
  unfolding map_backend_err
  purge_verification_method_from_all_relations id = do
    state ← map_action_err map_backend_err (read_snapshot codec contract)
    remove_present_verification_method_relations (verification_method_relation_memberships state id)
        id

  unfoldable pub add_verification_method :
      Base64 → VerificationMethod → Action β ApiError FinalizedTxData
  unfolding map_backend_err
  add_verification_method engine vm = do
    ledger ← done (verification_method_to_ledger hex contract engine vm)
    map_action_err map_backend_err
        (set_verification_method codec contract ledger MapMutation.insert)

  unfoldable pub update_verification_method :
      Base64 → VerificationMethod → Action β ApiError FinalizedTxData
  unfolding map_backend_err
  update_verification_method engine vm = do
    ledger ← done (verification_method_to_ledger hex contract engine vm)
    map_action_err map_backend_err
        (set_verification_method codec contract ledger MapMutation.update)

  unfoldable pub remove_verification_method : Text → Action β ApiError FinalizedTxData
  unfolding map_backend_err
  remove_verification_method id = do
    normalized ← done (normalize_bound_fragment_id_for hex contract id method_id)
    purge_verification_method_from_all_relations normalized
    map_action_err map_backend_err (Contract.remove_verification_method codec contract normalized)

  unfoldable pub add_schnorr_jubjub_verification_method :
      SchnorrJubjubVerificationMethod → Action β ApiError FinalizedTxData
  unfolding map_backend_err
  add_schnorr_jubjub_verification_method vm = do
    ledger ← done (schnorr_jubjub_verification_method_to_ledger hex contract vm)
    map_action_err map_backend_err
        (set_schnorr_jubjub_verification_method codec contract ledger MapMutation.insert)

  unfoldable pub update_schnorr_jubjub_verification_method :
      SchnorrJubjubVerificationMethod → Action β ApiError FinalizedTxData
  unfolding map_backend_err
  update_schnorr_jubjub_verification_method vm = do
    ledger ← done (schnorr_jubjub_verification_method_to_ledger hex contract vm)
    map_action_err map_backend_err
        (set_schnorr_jubjub_verification_method codec contract ledger MapMutation.update)

  unfoldable pub remove_schnorr_jubjub_verification_method :
      Text → Action β ApiError FinalizedTxData
  unfolding map_backend_err
  remove_schnorr_jubjub_verification_method id = do
    normalized ← done (normalize_bound_fragment_id_for hex contract id method_id)
    purge_verification_method_from_all_relations normalized
    map_action_err map_backend_err
        (Contract.remove_schnorr_jubjub_verification_method codec contract normalized)

  unfoldable pub verify_schnorr_jubjub_digest_signature :
      Text → SchnorrJubjubDigest → SchnorrJubjubSignature → Action β ApiError FinalizedTxData
  unfolding map_backend_err
  verify_schnorr_jubjub_digest_signature id digest signature = do
    normalized ← done (normalize_bound_fragment_id_for hex contract id method_id)
    map_action_err map_backend_err
        (Contract.verify_schnorr_jubjub_digest_signature codec contract normalized digest signature)

  unfoldable pub add_verification_method_relation :
      VerificationMethodRelation → Text → Action β ApiError FinalizedTxData
  unfolding map_backend_err
  add_verification_method_relation r id = do
    normalized ← done (normalize_bound_fragment_id_for hex contract id method_id)
    state ← map_action_err map_backend_err (read_snapshot codec contract)
    done (assert_verification_method_relation_absent state r normalized)
    map_action_err map_backend_err (
        set_verification_method_relation codec contract (ledger_verification_method_relation_for r)
          normalized SetMutation.insert)

  unfoldable pub remove_verification_method_relation :
      VerificationMethodRelation → Text → Action β ApiError FinalizedTxData
  unfolding map_backend_err
  remove_verification_method_relation r id = do
    normalized ← done (normalize_bound_fragment_id_for hex contract id method_id)
    state ← map_action_err map_backend_err (read_snapshot codec contract)
    done (assert_verification_method_relation_present state r normalized)
    map_action_err map_backend_err (
        set_verification_method_relation codec contract (ledger_verification_method_relation_for r)
          normalized SetMutation.remove)
