-- ===== src/Api/Controller/InMemory.antt =====
-- Key replacement over the in-memory store that needs no address.
use midnight_did_rs.Common.{◌≡◌, refl, false, Option, none, some, Text, Result, ok, err}
use midnight_did_rs.Common.Actions.{Action, resume}
use midnight_did_rs.Domain.Codecs.{Bytes}
use midnight_did_rs.Runtime.Call.{JsonCodec}
use midnight_did_rs.Runtime.Backend.{BackendError, FinalizedTxData, show_backend}
use midnight_did_rs.Runtime.Contract.{Contract}
use midnight_did_rs.Runtime.Contract
use midnight_did_rs.Api.Errors.{ApiError, contract_error, failed}
use midnight_did_rs.Api.PrivateState.{
  active, pending, DidPrivateState, save_private_state, stored,
  save_pending_controller_private_state, clear_pending_controller_private_state,
}
use midnight_did_rs.Api.PrivateState.Memory.{Slots, InMemoryInner, in_memory, write, check_address}
use midnight_did_rs.Api.Controller.{
  rotate_controller_key, recover_controller_key, on_store, best_effort_clear, submit_or_clear,
  promote, promoted, finish, install, replace_key,
}

-- A store that needs no address.
abbrev pub lenient : Option Text → Slots → InMemoryInner
lenient address slots = record {
  contract_address = address;
  require_address = false;
  slots = slots;
}

-- What the answer of the backend makes of the slots and of the result.
abbrev pub Settled : Type 0 → Type 0
Settled β = Result ApiError FinalizedTxData × (InMemoryInner × β)

abbrev pub settle :
    {β : Type 0}
    → DidPrivateState
    → Option Text
    → Slots
    → Result BackendError FinalizedTxData × β
    → Settled β
settle next address slots (ok tx, b) = (
  ok tx,
  (
    lenient address
        (write pending none (write active (some next) (write pending (some next) slots))),
    b,
  ),
)
settle next address slots (err e, b) = (
  err (contract_error (failed (show_backend e))),
  (lenient address (write pending none (write pending (some next) slots)), b),
)

module _ {β : Type 0} (codec : JsonCodec) (contract : Contract β) where
  finished :
      (next : DidPrivateState) (address : Option Text) (slots : Slots)
      (out : Result BackendError FinalizedTxData × β)
      → resume (install codec contract in_memory next) (
          finish codec contract in_memory out.0
            (lenient address (write pending (some next) slots), out.1))
        ≡ settle next address slots out
  unfolding finish install promote promoted on_store best_effort_clear save_private_state stored
      clear_pending_controller_private_state in_memory check_address
  finished next address slots (ok tx, b) = refl
  finished next address slots (err e, b) = refl

  replace_key-settle :
      (call : Action β BackendError FinalizedTxData) (next : DidPrivateState)
      (address : Option Text) (slots : Slots) (b : β)
      → replace_key codec contract in_memory call next (lenient address slots, b)
        ≡ settle next address slots (call b)
  unfolding replace_key on_store save_pending_controller_private_state save_private_state stored
      in_memory check_address submit_or_clear
  replace_key-settle call next address slots b = finished next address slots (call b)

  -- A key replacement over this store settles: the answer of the backend decides the result, and
  -- no key is left pending.
  pub rotate_controller_key-settle :
      (secret public : Bytes) (address : Option Text) (slots : Slots) (b : β)
      → (rotate_controller_key codec contract in_memory secret public (lenient address slots, b)
          ≡ settle
              (record { secret_key = secret })
              address
              slots
              (Contract.rotate_controller_key codec contract public b))
        × (recover_controller_key codec contract in_memory secret public (lenient address slots, b)
            ≡ settle
                (record { secret_key = secret })
                address
                slots
                (Contract.recover_controller_key codec contract public b))
  unfolding rotate_controller_key recover_controller_key
  rotate_controller_key-settle secret public address slots b = (
    replace_key-settle (Contract.rotate_controller_key codec contract public)
        (record { secret_key = secret }) address slots b,
    replace_key-settle (Contract.recover_controller_key codec contract public)
        (record { secret_key = secret }) address slots b,
  )
