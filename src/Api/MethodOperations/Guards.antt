-- ===== src/Api/MethodOperations/Guards.antt =====
-- The guards of the two operations that change a relation, on the recording backend.
use midnight_did_rs.Common.{◌≡◌, refl, Bool, true, false, Text, Result, ok, err}
use midnight_did_rs.Domain.Codecs.{Bytes}
use midnight_did_rs.Domain.Jwk.{VerificationMethodRelation}
use midnight_did_rs.Domain.Ledger.{method_id}
use midnight_did_rs.Method.Network.{MidnightNetwork}
use midnight_did_rs.Method.Hex.{HexCodec, ContractAddress}
use midnight_did_rs.Runtime.Ledger.{SetMutation, relation_contains}
use midnight_did_rs.Runtime.Call.{DidContractCall, JsonCodec, IsJsonCodec, read_ledger}
use midnight_did_rs.Runtime.Call
use midnight_did_rs.Runtime.Backend.{RecordingBackend, FinalizedTxData, recording, push_call}
use midnight_did_rs.Runtime.Contract.{Contract, read_snapshot, set_verification_method_relation}
use midnight_did_rs.Api.Errors.{
  ApiError, verification_error, relation_already_contains, relation_missing,
}
use midnight_did_rs.Api.Subject.{normalize_bound_fragment_id_for}
use midnight_did_rs.Api.Mappers.{ledger_verification_method_relation_for}
use midnight_did_rs.Api.MethodOperations.{
  debug_relation, assert_verification_method_relation_absent,
  assert_verification_method_relation_present, add_verification_method_relation,
  remove_verification_method_relation,
}
use midnight_did_rs.Api.MethodOperations.Purge.{on_recording, submitted}

-- What an operation returns, and the backend behind it.
abbrev pub Outcome : Type 0
Outcome = Result ApiError FinalizedTxData × RecordingBackend

-- The call was recorded.
abbrev pub Recorded : DidContractCall → RecordingBackend → Outcome → Type 0
Recorded call b out = (tx : FinalizedTxData) × (out ≡ (ok tx, push_call call b))

-- What adding and removing a method come to, by whether the relation contains it. Both read the
-- ledger first.
abbrev pub Guarded :
    Bool → VerificationMethodRelation → Text → RecordingBackend → Outcome → Outcome → Type 0
Guarded true r id b added removed =
    (added ≡ (
      err (verification_error (relation_already_contains (debug_relation r) id)),
      push_call read_ledger b,
    ))
    × Recorded
        (Call.set_verification_method_relation (ledger_verification_method_relation_for r) id
          SetMutation.remove)
        (push_call read_ledger b) removed
Guarded false r id b added removed =
    Recorded
      (Call.set_verification_method_relation (ledger_verification_method_relation_for r) id
        SetMutation.insert)
      (push_call read_ledger b) added
    × (removed ≡ (
      err (verification_error (relation_missing (debug_relation r) id)),
      push_call read_ledger b,
    ))

module _ (codec : JsonCodec) (blake2b : Bytes → Bytes) (encode_hex : Bytes → Text)
    (lawful : IsJsonCodec codec) (hex : HexCodec) (address : ContractAddress)
    (network : MidnightNetwork) where
  abbrev contract : Contract RecordingBackend
  contract = on_recording codec blake2b encode_hex address network

  -- With a serialiser that reads back what it writes, and for an id that normalises, exactly one
  -- of adding a method to a relation and removing it from there succeeds on the recording backend:
  -- where the relation contains the id, adding fails and says so and removing is recorded; where
  -- it does not, adding is recorded and removing fails and says so. Both read the ledger first,
  -- and a failure records nothing else.
  pub verification_method_relation-Guarded :
      (r : VerificationMethodRelation) (id normalized : Text) (b : RecordingBackend)
      → normalize_bound_fragment_id_for hex contract id method_id ≡ ok normalized
      → Guarded
          (relation_contains b.snapshot (ledger_verification_method_relation_for r) normalized)
          r
          normalized
          b
          (add_verification_method_relation codec hex contract r id b)
          (remove_verification_method_relation codec hex contract r id b)
  unfolding add_verification_method_relation remove_verification_method_relation
      assert_verification_method_relation_absent assert_verification_method_relation_present
      read_snapshot recording set_verification_method_relation
  verification_method_relation-Guarded r id normalized b h =
      guarded (relation_contains b.snapshot (ledger_verification_method_relation_for r) normalized)
        refl
    where
      ledger_read : RecordingBackend
      ledger_read = push_call read_ledger b

      guarded :
          (t : Bool)
          → relation_contains b.snapshot (ledger_verification_method_relation_for r) normalized ≡ t
          → Guarded t r normalized b
              (add_verification_method_relation codec hex contract r id b)
              (remove_verification_method_relation codec hex contract r id b)
      guarded true e =
          let (tx, s) =
            submitted codec blake2b encode_hex lawful hex address network
              (Call.set_verification_method_relation (ledger_verification_method_relation_for r)
                normalized SetMutation.remove)
              ledger_read tt in
          (rw (h, e) refl, (tx, rw (h, e) s))
      guarded false e =
          let (tx, s) =
            submitted codec blake2b encode_hex lawful hex address network
              (Call.set_verification_method_relation (ledger_verification_method_relation_for r)
                normalized SetMutation.insert)
              ledger_read tt in
          ((tx, rw (h, e) s), rw (h, e) refl)
