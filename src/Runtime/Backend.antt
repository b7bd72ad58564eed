-- ===== src/Runtime/Backend.antt =====
-- crates/midnight-did-runtime/src/backend.rs: the trait `Backend`, the recording backend and the
-- read-only one. `read_state` only hands out the raw state of the compact runtime and is left out.
pub mod Recording
use midnight_did_rs.Common.{
  ℕ, List, [], ◌∷◌, ◌++◌, Text, codes, length, take, Result, ok, err, map_err,
}
use midnight_did_rs.Common.Actions.{Action}
use midnight_did_rs.Domain.Codecs.{Bytes}
use midnight_did_rs.Runtime.Ledger.{DidLedgerSnapshot, default_snapshot}
use midnight_did_rs.Runtime.Call.{DidContractCall, read_ledger, JsonCodec}

pub record BuiltTx : Type 0 where
  pub bytes : Bytes

pub record FinalizedTxData : Type 0 where
  pub tx_hash : Text
  pub block_height : ℕ

pub data BackendError : Type 0 where
  network : Text → BackendError
  decode : Text → BackendError
  read_only : BackendError
  other : Text → BackendError

-- `Display`
unfoldable pub show_backend : BackendError → Text
show_backend (network m) = codes "backend network failure: " ++ m
show_backend (decode m) = codes "backend decode failure: " ++ m
show_backend read_only = codes "backend is read-only"
show_backend (other m) = codes "backend error: " ++ m

-- The trait `Backend`, over the backend's states.
pub record Backend (β : Type 0) : Type 0 where
  pub submit_tx : BuiltTx → Action β BackendError FinalizedTxData
  pub read_snapshot : Action β BackendError DidLedgerSnapshot

module _ (codec : JsonCodec) where
  -- `DidContractCall::encode` and `DidContractCall::decode`
  unfoldable pub encode_call : DidContractCall → Bytes
  encode_call call = codec.to_vec call

  unfoldable pub decode_call : Bytes → Result BackendError DidContractCall
  decode_call bytes =
      map_err (λ (e : Text). decode (codes "DidContractCall: " ++ e)) (codec.from_slice bytes)

pub record RecordingBackend : Type 0 where
  pub calls : List DidContractCall
  pub snapshot : DidLedgerSnapshot

unfoldable pub new_recording : RecordingBackend
new_recording = record { calls = []; snapshot = default_snapshot }

unfoldable pub with_snapshot : DidLedgerSnapshot → RecordingBackend
with_snapshot snapshot = record { calls = []; snapshot = snapshot }

unfoldable pub set_snapshot : DidLedgerSnapshot → RecordingBackend → RecordingBackend
set_snapshot snapshot backend = record backend { snapshot = snapshot }

-- `calls.push(call)`
abbrev pub push_call : DidContractCall → RecordingBackend → RecordingBackend
push_call call backend = record backend { calls = backend.calls ++ call ∷ [] }

-- Blake2b and `hex::encode` are the parameters `blake2b` and `encode_hex`.
module _ (codec : JsonCodec) (blake2b : Bytes → Bytes) (encode_hex : Bytes → Text) where
  synth_tx_hash : Bytes → Text
  synth_tx_hash bytes = encode_hex (take 8 (blake2b bytes))

  -- The rest of `submit_tx`, behind the decoding.
  record_call :
      Bytes
      → Result BackendError DidContractCall
      → Action RecordingBackend BackendError FinalizedTxData
  unfolding synth_tx_hash
  record_call bytes (err e) backend = (err e, backend)
  record_call bytes (ok call) backend =
      let after = push_call call backend in
      (ok (record { tx_hash = synth_tx_hash bytes; block_height = length after.calls }), after)

  unfoldable pub recording : Backend RecordingBackend
  unfolding record_call decode_call
  recording = record {
    submit_tx = λ tx. record_call tx.bytes (decode_call codec tx.bytes);
    read_snapshot = λ backend. (ok backend.snapshot, push_call read_ledger backend);
  }

-- `ResolverBackend`, whose state is its snapshot.
unfoldable pub resolver : Backend DidLedgerSnapshot
resolver = record {
  submit_tx = λ tx snapshot. (err read_only, snapshot);
  read_snapshot = λ snapshot. (ok snapshot, snapshot);
}
