-- ===== src/Ffi/Calls.antt =====
-- crates/midnight-did-uniffi/src/api.rs and handle.rs: the five functions. The state of a handle is
-- that of its store and its recording backend; the lock makes each call one step. `serde_json`'s
-- printer, with the text of its error, is the parameter `to_json`.
pub mod Session
pub mod Replacing
use midnight_did_rs.Common.{
  ℕ, Option, none, some, List, [], ◌∷◌, ◌++◌, Text, codes, replicate, Result, ok, err, map_err,
}
use midnight_did_rs.Common.Actions.{Action, resume, ◌>>=◌, ◌>>◌, done, map_action_err}
use midnight_did_rs.Domain.Codecs.{Bytes}
use midnight_did_rs.Domain.Document.{DidDocument}
use midnight_did_rs.Domain.Metadata.{DidDocumentMetadata}
use midnight_did_rs.Method.Network.{testnet}
use midnight_did_rs.Method.Hex.{HexCodec, ContractAddress}
use midnight_did_rs.Method.Did.{MidnightDidError, parse_contract_address}
use midnight_did_rs.Runtime.Backend.{RecordingBackend, FinalizedTxData, recording, new_recording}
use midnight_did_rs.Runtime.Contract.{Contract}
use midnight_did_rs.Api.Errors.{ApiError}
use midnight_did_rs.Api.PrivateState.{DidPrivateState}
use midnight_did_rs.Api.PrivateState.Memory.{InMemoryInner, in_memory, new}
use midnight_did_rs.Api.Subject.{get_did_subject}
use midnight_did_rs.Api.Controller
use midnight_did_rs.Api.Entries.{Externals}
use midnight_did_rs.Api.Entries
use midnight_did_rs.Api.Did
use midnight_did_rs.Api.Resolution.State.{Crates, ResolvedMidnightDid, resolve}
use midnight_did_rs.Ffi.Errors.{FlatError, serde, not_found, flat_error, decode_hex_32}

-- `DEFAULT_ADDRESS`
abbrev pub default_address : Text
default_address = replicate 64 b'c'

-- The mutable part of `DidServiceHandle`.
abbrev pub Handle : Type 0
Handle = InMemoryInner × RecordingBackend

-- `DidServiceHandle::new`: the state, and the address that `expect` takes out.
unfoldable pub new_handle : Handle
new_handle = (new, new_recording)

unfoldable pub handle_address : HexCodec → Result MidnightDidError ContractAddress
handle_address hex = parse_contract_address hex default_address

-- The envelopes `CreateDidResponse`, `RotateResponse` and `ResolveResponse`.
pub data Response : Type 0 where
  created : Text → Text → Response
  finalized : Text → Text → ℕ → Response
  resolution : DidDocument → DidDocumentMetadata → Response

-- The calls of the API on the store, on the backend, and on both.
abbrev on_store : {A : Type 0} → Action InMemoryInner ApiError A → Action Handle FlatError A
on_store m (s, b) = let (r, after) = map_action_err flat_error m s in (r, (after, b))

abbrev on_backend : {A : Type 0} → Action RecordingBackend ApiError A → Action Handle FlatError A
on_backend m (s, b) = let (r, after) = map_action_err flat_error m b in (r, (s, after))

module _ (ext : Externals) (crates : Crates) (blake2b : Bytes → Bytes) (encode_hex : Bytes → Text)
    (to_json : Response → Result Text Text) (address : ContractAddress) where
  -- The contract of the handle.
  abbrev pub deployed : Contract RecordingBackend
  deployed = record {
    backend = recording ext.codec blake2b encode_hex;
    address = address;
    network = testnet;
  }

  -- `Ok(serde_json::to_string(&response)?)`
  abbrev pub respond : Response → Result FlatError Text
  respond response = map_err serde (to_json response)

  abbrev respond_tx : Text → FinalizedTxData → Action Handle FlatError Text
  respond_tx did_subject tx = done (respond (finalized did_subject tx.tx_hash tx.block_height))

  abbrev bytes_32 : Text → Text → Action Handle FlatError Bytes
  bytes_32 input param = done (decode_hex_32 crates.decode_hex input param)

  unfoldable pub create_did : Text → Text → Action Handle FlatError Text
  create_did seed_hex controller_public_key_hex = do
    seed ← bytes_32 seed_hex (codes "seed_hex")
    _ ← bytes_32 controller_public_key_hex (codes "controller_public_key_hex")
    _ ← on_store (Did.create_did ext deployed in_memory seed)
    done (respond (created (get_did_subject ext.hex deployed) controller_public_key_hex))

  unfoldable pub rotate_controller_key : Text → Text → Text → Action Handle FlatError Text
  rotate_controller_key did_subject new_secret_key_hex new_controller_public_key_hex = do
    new_sk ← bytes_32 new_secret_key_hex (codes "new_secret_key_hex")
    new_pk ← bytes_32 new_controller_public_key_hex (codes "new_controller_public_key_hex")
    tx ←
        map_action_err flat_error
          (Controller.rotate_controller_key ext.codec deployed in_memory new_sk new_pk)
    respond_tx did_subject tx

  unfoldable pub recover_controller_key : Text → Text → Text → Action Handle FlatError Text
  recover_controller_key did_subject new_secret_key_hex new_controller_public_key_hex = do
    new_sk ← bytes_32 new_secret_key_hex (codes "new_secret_key_hex")
    new_pk ← bytes_32 new_controller_public_key_hex (codes "new_controller_public_key_hex")
    tx ←
        map_action_err flat_error
          (Controller.recover_controller_key ext.codec deployed in_memory new_sk new_pk)
    respond_tx did_subject tx

  -- The `match` on what was resolved.
  resolved_response : Text → Option ResolvedMidnightDid → Result FlatError Text
  resolved_response did_subject none =
      err (not_found (codes "no live DID state for subject " ++ did_subject))
  resolved_response did_subject (some r) =
      respond (resolution r.did_document r.did_document_metadata)

  unfoldable pub resolve_did : Text → Action Handle FlatError Text
  unfolding resolved_response
  resolve_did did_subject = do
    found ← on_backend (resolve crates ext.hex deployed)
    done (resolved_response did_subject found)

  unfoldable pub deactivate : Text → Action Handle FlatError Text
  deactivate did_subject = do
    tx ← on_backend (Entries.deactivate ext deployed)
    respond_tx did_subject tx
