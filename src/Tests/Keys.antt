-- ===== src/Tests/Keys.antt =====
-- The theorems on private states at concrete inputs.
use midnight_did_rs.Common.{true, none, some, codes}
use midnight_did_rs.Api.PrivateState.{active, pending, recover_pending_controller_private_state}
use midnight_did_rs.Api.PrivateState.Memory.{InMemoryInner, in_memory, write}
use midnight_did_rs.Api.PrivateState.Memory.Answers.{
  Reads, Writes, in_memory_answers, in_memory-IsStore,
}
use midnight_did_rs.Api.PrivateState.Promotion.{
  Recovered, recover_pending_controller_private_state_outcome,
}
use midnight_did_rs.Method.Network.{undeployed}
use midnight_did_rs.Runtime.Backend.{RecordingBackend, recording}
use midnight_did_rs.Runtime.Contract.{Contract}
use midnight_did_rs.Tests.Documents.{key_bytes}
use midnight_did_rs.Tests.Calls.{codec}

-- A contract on the recording backend; the hash of a transaction is its bytes.
abbrev pub ledger : Contract RecordingBackend
ledger = record {
  backend = recording codec (λ bytes. bytes) (λ bytes. bytes);
  address = record { hash = record { bytes = key_bytes } };
  network = undeployed;
}

-- A store with a key that waits for its promotion.
abbrev waiting : InMemoryInner
waiting = record {
  contract_address = some (codes "address");
  require_address = true;
  slots = write pending (some (record { secret_key = key_bytes })) (λ _. none);
}

recover_pending_controller_private_state_outcome_example :
    let (r, after) = recover_pending_controller_private_state in_memory true waiting in
    Recovered true r (in_memory-IsStore.contents waiting) (in_memory-IsStore.contents after)
recover_pending_controller_private_state_outcome_example =
    recover_pending_controller_private_state_outcome in_memory in_memory-IsStore true waiting

in_memory_answers_example :
    Reads active waiting (in_memory.get active waiting)
    × Writes active
        (some (record { secret_key = key_bytes }))
        waiting
        (in_memory.set active (record { secret_key = key_bytes }) waiting)
    × Writes active none waiting (in_memory.remove active waiting)
in_memory_answers_example = in_memory_answers active (record { secret_key = key_bytes }) waiting
