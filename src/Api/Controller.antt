-- ===== src/Api/Controller.antt =====
-- crates/midnight-did-api/src/controller_operations.rs: replacing the controller's key.
-- The state is the private-state store's and the backend's.
pub mod Rotation
pub mod InMemory
use midnight_did_rs.Common.{Text, Result, ok, err}
use midnight_did_rs.Common.Actions.{Action, ◌>>=◌, ◌>>◌, done}
use midnight_did_rs.Domain.Codecs.{Bytes}
use midnight_did_rs.Runtime.Call.{JsonCodec}
use midnight_did_rs.Runtime.Backend.{BackendError, FinalizedTxData, show_backend}
use midnight_did_rs.Runtime.Contract.{Contract}
use midnight_did_rs.Runtime.Contract
use midnight_did_rs.Api.Errors.{
  ApiError, controller_error, rotation_orphaned, contract_error, failed, show_api,
}
use midnight_did_rs.Api.PrivateState.{
  active, DidPrivateState, PrivateStateStore, save_private_state,
  save_pending_controller_private_state, clear_pending_controller_private_state,
}

-- `if let Err(promote_err)`
promoted : Result ApiError (Unit {0}) → Result ApiError (Unit {0})
unfolding show_api
promoted (ok tt) = ok tt
promoted (err e) = err (controller_error (rotation_orphaned (show_api e)))

module _ {σ β : Type 0} (codec : JsonCodec) (contract : Contract β)
    (store : PrivateStateStore σ) where
  on_store : {A : Type 0} → Action σ ApiError A → Action (σ × β) ApiError A
  on_store m (s, b) = let (r, after) = m s in (r, (after, b))

  -- `let _ = clear_pending_controller_private_state(store)`
  best_effort_clear : Action (σ × β) ApiError (Unit {0})
  best_effort_clear (s, b) =
      let (_, after) = clear_pending_controller_private_state store s in (ok tt, (after, b))

  -- The `match` on the result of the circuit.
  finish : Result BackendError FinalizedTxData → Action (σ × β) ApiError FinalizedTxData
  unfolding best_effort_clear show_backend
  finish (ok tx) = done (ok tx)
  finish (err e) = best_effort_clear >> done (err (contract_error (failed (show_backend e))))

  submit_or_clear : Action β BackendError FinalizedTxData → Action (σ × β) ApiError FinalizedTxData
  unfolding finish
  submit_or_clear call (s, b) = let (r, after) = call b in finish r (s, after)

  promote : DidPrivateState → Action σ ApiError (Unit {0})
  unfolding promoted
  promote state s = let (r, after) = save_private_state store state active s in (promoted r, after)

  -- The end of the body, behind a circuit that finalized.
  install : DidPrivateState → FinalizedTxData → Action (σ × β) ApiError FinalizedTxData
  unfolding on_store promote best_effort_clear
  install next tx = do on_store (promote next); best_effort_clear; done (ok tx)

  -- The body that the two operations share.
  replace_key :
      Action β BackendError FinalizedTxData
      → DidPrivateState
      → Action (σ × β) ApiError FinalizedTxData
  unfolding on_store submit_or_clear install
  replace_key call next = do
    on_store (save_pending_controller_private_state store next)
    tx ← submit_or_clear call
    install next tx

  unfoldable pub rotate_controller_key : Bytes → Bytes → Action (σ × β) ApiError FinalizedTxData
  unfolding replace_key
  rotate_controller_key new_secret_key new_controller_public_key =
      replace_key (Contract.rotate_controller_key codec contract new_controller_public_key)
        (record { secret_key = new_secret_key })

  unfoldable pub recover_controller_key : Bytes → Bytes → Action (σ × β) ApiError FinalizedTxData
  unfolding replace_key
  recover_controller_key new_secret_key new_controller_public_key =
      replace_key (Contract.recover_controller_key codec contract new_controller_public_key)
        (record { secret_key = new_secret_key })
