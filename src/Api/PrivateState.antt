-- ===== src/Api/PrivateState.antt =====
-- crates/midnight-did-api/src/private_state.rs: the slots that hold a controller's secret key.
-- A store is any implementation of the trait `PrivateStateStore`, over states `σ`.
pub mod Memory
pub mod Promotion
use midnight_did_rs.Common.{
  ℕ, Bool, true, false, not, Option, none, some, List, [], ◌∷◌, ◌++◌, Text, codes, length, ◌==◌,
  if◌then◌else◌, Result, ok, err, guard,
}
use midnight_did_rs.Common.Actions.{Action, ◌>>=◌, ◌>>◌, done}
use midnight_did_rs.Domain.Codecs.{Bytes}
use midnight_did_rs.Api.Errors.{
  ApiError, controller_error, invalid_secret_key, invalid_argument, missing_private_state,
}

pub data PrivateStateSlot : Type 0 where
  active : PrivateStateSlot
  pending : PrivateStateSlot

unfoldable pub slot_as_str : PrivateStateSlot → Text
slot_as_str active = codes "midnightDIDPrivateState"
slot_as_str pending = codes "midnightDIDPendingControllerPrivateState"

pub record DidPrivateState : Type 0 where
  pub secret_key : Bytes

pub data PrivateStateError : Type 0 where
  contract_address_not_set : PrivateStateError
  backend : Text → PrivateStateError

unfoldable pub to_string : PrivateStateError → Text
to_string contract_address_not_set = codes "Contract address not set"
to_string (backend e) = codes "private state store error: " ++ e

-- The trait `PrivateStateStore`.
pub record PrivateStateStore (σ : Type 0) : Type 0 where
  pub set_contract_address : Text → σ → σ
  pub get : PrivateStateSlot → Action σ PrivateStateError (Option DidPrivateState)
  pub set : PrivateStateSlot → DidPrivateState → Action σ PrivateStateError (Unit {0})
  pub remove : PrivateStateSlot → Action σ PrivateStateError (Unit {0})

unfoldable pub from_bytes : Bytes → Result ApiError DidPrivateState
from_bytes bytes =
    if not (length bytes == 32)
    then err (controller_error invalid_secret_key)
    else ok (record { secret_key = bytes })

unfoldable pub is_contract_address_unset : PrivateStateError → Bool
is_contract_address_unset contract_address_not_set = true
is_contract_address_unset (backend e) = false

-- The `match` of `restore_private_state` on what the store returned.
unfoldable pub restored :
    Result PrivateStateError (Option DidPrivateState) → Result ApiError (Option DidPrivateState)
unfolding is_contract_address_unset to_string
restored (ok value) = ok value
restored (err e) =
    if is_contract_address_unset e then ok none else err (invalid_argument (to_string e))

-- `map_err(|err| ApiError::InvalidArgument(err.to_string()))`
unfoldable pub stored : Result PrivateStateError (Unit {0}) → Result ApiError (Unit {0})
unfolding to_string
stored (ok tt) = ok tt
stored (err e) = err (invalid_argument (to_string e))

-- The `match` of `init_private_state` on the result of the write.
unfoldable pub initialized :
    DidPrivateState → Result PrivateStateError (Unit {0}) → Result ApiError DidPrivateState
unfolding is_contract_address_unset to_string
initialized state (ok tt) = ok state
initialized state (err e) =
    if is_contract_address_unset e then ok state else err (invalid_argument (to_string e))

abbrev not_finalized : Text
not_finalized =
    codes
      "Pending controller private state can only be recovered after confirming the key-rotation transaction finalized"

-- The `match` of `require_private_state`.
unfoldable pub found_state :
    {σ : Type 0} → Option DidPrivateState → Action σ ApiError DidPrivateState
found_state (some state) = done (ok state)
found_state none = done (err missing_private_state)

module _ {σ : Type 0} (store : PrivateStateStore σ) where
  unfoldable pub bind_private_state_provider : Text → σ → σ
  bind_private_state_provider address s = store.set_contract_address address s

  unfoldable pub restore_private_state :
      PrivateStateSlot → Action σ ApiError (Option DidPrivateState)
  unfolding restored
  restore_private_state slot s = let (r, after) = store.get slot s in (restored r, after)

  unfoldable pub require_private_state : PrivateStateSlot → Action σ ApiError DidPrivateState
  unfolding restore_private_state found_state
  require_private_state slot = restore_private_state slot >>= found_state

  unfoldable pub save_private_state :
      DidPrivateState → PrivateStateSlot → Action σ ApiError (Unit {0})
  unfolding stored
  save_private_state state slot s = let (r, after) = store.set slot state s in (stored r, after)

  unfoldable pub init_private_state : Bytes → Action σ ApiError DidPrivateState
  unfolding restore_private_state initialized
  init_private_state new_secret_key = restore_private_state active >>= found
    where
      fresh : DidPrivateState
      fresh = record { secret_key = new_secret_key }

      found : Option DidPrivateState → Action σ ApiError DidPrivateState
      found (some existing) = done (ok existing)
      found none = λ s. let (r, after) = store.set active fresh s in (initialized fresh r, after)

  unfoldable pub save_pending_controller_private_state :
      DidPrivateState → Action σ ApiError (Unit {0})
  unfolding save_private_state
  save_pending_controller_private_state state = save_private_state state pending

  unfoldable pub clear_pending_controller_private_state : Action σ ApiError (Unit {0})
  unfolding stored
  clear_pending_controller_private_state s =
      let (r, after) = store.remove pending s in (stored r, after)

  unfoldable pub recover_pending_controller_private_state : Bool → Action σ ApiError DidPrivateState
  unfolding require_private_state save_private_state clear_pending_controller_private_state
  recover_pending_controller_private_state rotation_finalized = do
    done (guard rotation_finalized (invalid_argument not_finalized))
    found ← require_private_state pending
    save_private_state found active
    clear_pending_controller_private_state
    done (ok found)
