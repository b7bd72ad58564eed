-- ===== src/Api/Did.antt =====
-- crates/midnight-did-api/src/did_operations.rs: creating, patching and deactivating a DID.
pub mod Patch
use midnight_did_rs.Common.{ℕ, List, [], ◌∷◌, ◌++◌, Text, Result, ok}
use midnight_did_rs.Common.Actions.{Action, ◌>>=◌, ◌>>◌, done}
use midnight_did_rs.Domain.Codecs.{Bytes}
use midnight_did_rs.Domain.Services.{Service}
use midnight_did_rs.Method.Hex.{address_to_hex}
use midnight_did_rs.Runtime.Backend.{FinalizedTxData}
use midnight_did_rs.Runtime.Contract.{Contract}
use midnight_did_rs.Api.Errors.{ApiError}
use midnight_did_rs.Api.PrivateState.{
  active, DidPrivateState, PrivateStateStore, bind_private_state_provider, init_private_state,
  save_private_state,
}
use midnight_did_rs.Api.Controller.{rotate_controller_key, recover_controller_key}
use midnight_did_rs.Api.Entries.{
  Externals, add_also_known_as, remove_also_known_as, add_service, update_service, remove_service,
  deactivate,
}

pub record DidDocumentPatch : Type 0 where
  pub also_known_as_added : List Text
  pub also_known_as_removed : List Text
  pub services_added : List Service
  pub services_updated : List Service
  pub services_removed : List Text

-- One loop of `apply_patch`, which pushes the result of each operation.
each :
    {β A : Type 0}
    → (A → Action β ApiError FinalizedTxData)
    → List A
    → List FinalizedTxData
    → Action β ApiError (List FinalizedTxData)
each op [] results = done (ok results)
each op (a ∷ rest) results = op a >>= λ tx. each op rest (results ++ tx ∷ [])

module _ (ext : Externals) {β : Type 0} (contract : Contract β) where
  unfoldable pub apply_patch : DidDocumentPatch → Action β ApiError (List FinalizedTxData)
  unfolding each
  apply_patch patch = do
    r1 ← each (add_also_known_as ext contract) patch.also_known_as_added []
    r2 ← each (remove_also_known_as ext contract) patch.also_known_as_removed r1
    r3 ← each (add_service ext contract) patch.services_added r2
    r4 ← each (update_service ext contract) patch.services_updated r3
    each (remove_service ext contract) patch.services_removed r4

  module _ {σ : Type 0} (store : PrivateStateStore σ) where
    unfoldable pub create_did : Bytes → Action σ ApiError DidPrivateState
    create_did secret_key s =
        init_private_state store secret_key
          (bind_private_state_provider store (address_to_hex ext.hex contract.address) s)

    unfoldable pub rotate_controller_key_with_derivation :
        Bytes → (Bytes → Bytes) → Action (σ × β) ApiError FinalizedTxData
    rotate_controller_key_with_derivation new_secret_key derive_public_key =
        rotate_controller_key ext.codec contract store new_secret_key
          (derive_public_key new_secret_key)

    unfoldable pub recover_controller_key_with_derivation :
        Bytes → (Bytes → Bytes) → Action (σ × β) ApiError FinalizedTxData
    recover_controller_key_with_derivation new_secret_key derive_public_key =
        recover_controller_key ext.codec contract store new_secret_key
          (derive_public_key new_secret_key)

    abbrev zero_key : Bytes
    zero_key =
        0 ∷ 0 ∷ 0 ∷ 0 ∷ 0 ∷ 0 ∷ 0 ∷ 0 ∷ 0 ∷ 0 ∷ 0 ∷ 0 ∷ 0 ∷ 0 ∷ 0 ∷ 0 ∷ 0 ∷ 0 ∷ 0 ∷ 0 ∷ 0 ∷ 0 ∷ 0
        ∷ 0 ∷ 0 ∷ 0 ∷ 0 ∷ 0 ∷ 0 ∷ 0 ∷ 0 ∷ 0 ∷ []

    -- The actions on the backend and on the store, on the pair of their states.
    on_backend : {A : Type 0} → Action β ApiError A → Action (σ × β) ApiError A
    on_backend m (s, b) = let (r, after) = m b in (r, (s, after))

    on_slots : {A : Type 0} → Action σ ApiError A → Action (σ × β) ApiError A
    on_slots m (s, b) = let (r, after) = m s in (r, (after, b))

    unfoldable pub deactivate_and_clear : Action (σ × β) ApiError FinalizedTxData
    unfolding on_backend on_slots
    deactivate_and_clear = do
      result ← on_backend (deactivate ext contract)
      on_slots (save_private_state store (record { secret_key = zero_key }) active)
      done (ok result)
