-- ===== src/Ffi/Calls/Replacing.antt =====
-- What a key replacement does on a handle.
use midnight_did_rs.Common.{suc, take, ◌≡◌, refl, ap, none, some, Text, length, codes, Result, ok}
use midnight_did_rs.Common.Actions.{Action, resume, done, map_action_err}
use midnight_did_rs.Domain.Codecs.{Bytes}
use midnight_did_rs.Method.Hex.{ContractAddress}
use midnight_did_rs.Runtime.Call.{DidContractCall, IsJsonCodec}
use midnight_did_rs.Runtime.Call
use midnight_did_rs.Runtime.Backend.{
  RecordingBackend, FinalizedTxData, BackendError, encode_call, push_call,
}
use midnight_did_rs.Runtime.Backend.Recording.{submit_tx-encode_call}
use midnight_did_rs.Runtime.Contract
use midnight_did_rs.Api.PrivateState.{active, pending}
use midnight_did_rs.Api.PrivateState.Memory.{in_memory, write}
use midnight_did_rs.Api.Controller.InMemory.{lenient, settle, rotate_controller_key-settle}
use midnight_did_rs.Api.Controller
use midnight_did_rs.Api.Errors.{ApiError}
use midnight_did_rs.Api.Entries.{Externals}
use midnight_did_rs.Api.Resolution.State.{Crates}
use midnight_did_rs.Ffi.Errors.{FlatError, flat_error, decode_hex_32}
use midnight_did_rs.Ffi.Calls.{
  Handle, Response, finalized, deployed, respond, rotate_controller_key, recover_controller_key,
}
use midnight_did_rs.Ffi.Calls.Session.{Kept, Session, lenient_store, Session-Kept}

module _ (ext : Externals) (crates : Crates) (blake2b : Bytes → Bytes) (encode_hex : Bytes → Text)
    (to_json : Response → Result Text Text) (address : ContractAddress) where
  -- The key is active, none is pending, and the call is recorded behind the others; the answer is
  -- the printed envelope of the transaction.
  abbrev pub Replaces :
      DidContractCall → Text → Bytes → Handle → Result FlatError Text × Handle → Type 0
  Replaces call did secret h out =
      (tx : FinalizedTxData) × (out.0
        ≡ respond ext crates blake2b encode_hex to_json address
            (finalized did tx.tx_hash tx.block_height))
      × (out.1.0.slots active ≡ some (record { secret_key = secret }))
      × (out.1.0.slots pending ≡ none)
      × (out.1.1 ≡ push_call call h.1)
      × (tx.block_height ≡ suc (length h.1.calls))
      × (tx.tx_hash ≡ encode_hex (take 8 (blake2b (encode_call ext.codec call))))

  -- The envelope behind a replacement that settled.
  abbrev answer : Text → Result ApiError FinalizedTxData × Handle → Result FlatError Text × Handle
  answer did (r, h) =
      resume
        (λ (tx : FinalizedTxData). done (
          respond ext crates blake2b encode_hex to_json address
            (finalized did tx.tx_hash tx.block_height)))
        (map_action_err flat_error (λ (_ : Handle). (r, h)) h)

  replaced :
      (m : Action Handle ApiError FinalizedTxData) (call : DidContractCall) (did : Text)
      (secret : Bytes) (h : Handle) (out : Result BackendError FinalizedTxData × RecordingBackend)
      (tx : FinalizedTxData)
      → Kept h
      → m (lenient h.0.contract_address h.0.slots, h.1)
        ≡ settle (record { secret_key = secret }) h.0.contract_address h.0.slots out
      → out ≡ (ok tx, push_call call h.1)
      → tx.block_height ≡ suc (length h.1.calls)
      → tx.tx_hash ≡ encode_hex (take 8 (blake2b (encode_call ext.codec call)))
      → Replaces call did secret h (answer did (m h))
  unfolding write
  replaced m call did secret (s, b) out tx (q, p) settled submitted height hash =
      let stored =
        ap (λ t. m (t, b)) (lenient_store ext crates blake2b encode_hex to_json address s q) in
      rw (stored, settled, submitted) (tx, refl, refl, refl, refl, height, hash)

  module _ (lawful : IsJsonCodec ext.codec) where
    -- With a serialiser that reads back what it writes, and for hex texts that read as 32 bytes, a
    -- rotation and a recovery on a handle that any calls have led to replace the key: the new
    -- secret key is active and none is pending, the circuit with the new public key is recorded
    -- behind all earlier calls, at a height one above their number, and the answer is what
    -- printing the envelope of that transaction gives, with the hash of the call.
    pub replacement-Replaces :
        {h : Handle}
        → Session ext crates blake2b encode_hex to_json address h
        → (did secret_hex public_hex : Text) (secret public : Bytes)
        → decode_hex_32 crates.decode_hex secret_hex (codes "new_secret_key_hex") ≡ ok secret
        → decode_hex_32 crates.decode_hex public_hex (codes "new_controller_public_key_hex")
          ≡ ok public
        → Replaces (Call.rotate_controller_key public) did secret h (
            rotate_controller_key ext crates blake2b encode_hex to_json address did secret_hex
              public_hex h)
          × Replaces (Call.recover_controller_key public) did secret h (
              recover_controller_key ext crates blake2b encode_hex to_json address did secret_hex
                public_hex h)
    unfolding rotate_controller_key recover_controller_key Contract.rotate_controller_key
        Contract.recover_controller_key Contract.submit
    replacement-Replaces {h} session did secret_hex public_hex secret public ds dp =
        let kept = Session-Kept ext crates blake2b encode_hex to_json address session in
        let contract = deployed ext crates blake2b encode_hex to_json address in
        let (rotated, recovered) =
          rotate_controller_key-settle ext.codec contract secret public h.0.contract_address
            h.0.slots h.1 in
        let (tx, e, height, hash) =
          submit_tx-encode_call ext.codec blake2b encode_hex lawful
            (Call.rotate_controller_key public) h.1 tt in
        let (ty, f, later, digest) =
          submit_tx-encode_call ext.codec blake2b encode_hex lawful
            (Call.recover_controller_key public) h.1 tt in
        rw (ds, dp)
          (
            replaced (Controller.rotate_controller_key ext.codec contract in_memory secret public)
                (Call.rotate_controller_key public) did secret h _ tx kept rotated e height hash,
            replaced (Controller.recover_controller_key ext.codec contract in_memory secret public)
                (Call.recover_controller_key public) did secret h _ ty kept recovered f later
                digest,
          )
