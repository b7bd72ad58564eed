-- ===== src/Api/Controller/Rotation.antt =====
-- What a key replacement leaves in the store, for every store that keeps its slots apart.
use midnight_did_rs.Common.{◌≡◌, some, Result, ok, err}
use midnight_did_rs.Runtime.Contract.{Contract}
use midnight_did_rs.Runtime.Contract
use midnight_did_rs.Api.Errors.{
  ApiError, controller_error, rotation_orphaned, contract_error, failed, invalid_argument,
}
use midnight_did_rs.Api.PrivateState.{active, pending, DidPrivateState}
use midnight_did_rs.Api.PrivateState.Memory.{Slots}

-- What each result means for the keys: `next` is the new key.
abbrev pub Outcome : {Tx : Type 0} → DidPrivateState → Result ApiError Tx → Slots → Slots → Type 0
-- The new key is active.
Outcome next (ok tx) before after = after active ≡ some next
-- The transaction is final and the promotion failed; the new key is still pending.
Outcome next (err (controller_error (rotation_orphaned e))) before after = after pending ≡ some next
-- The circuit failed; the active key is the old one.
Outcome next (err (contract_error (failed e))) before after = after active ≡ before active
-- The pending key was not written; the active key is the old one.
Outcome next (err (invalid_argument e)) before after = after active ≡ before active
-- There is no other error.
Outcome next (err _) before after = ⊥
