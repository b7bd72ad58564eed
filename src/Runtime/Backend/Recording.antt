-- ===== src/Runtime/Backend/Recording.antt =====
-- What the recording backend records.
use midnight_did_rs.Common.{
  suc, ◌<◌, ◌≡◌, refl, sym, ap, ◌∙◌, List, [], ◌∷◌, ◌++◌, append_assoc, append-nil, take, Text,
  length, length-append, Result, ok, err, arith,
}
use midnight_did_rs.Domain.Codecs.{Bytes}
use midnight_did_rs.Runtime.Ledger.{DidLedgerSnapshot}
use midnight_did_rs.Runtime.Call.{DidContractCall, read_ledger, JsonCodec, IsJsonCodec, IsGated}
use midnight_did_rs.Runtime.Backend.{
  BuiltTx, FinalizedTxData, BackendError, RecordingBackend, recording, push_call, encode_call,
  decode_call, record_call, synth_tx_hash, set_snapshot,
}

module _ (codec : JsonCodec) (blake2b : Bytes → Bytes) (encode_hex : Bytes → Text) where
  -- A use of the recording backend.
  pub data Step : RecordingBackend → RecordingBackend → Type 0 where
    submit :
        (tx : BuiltTx) (b : RecordingBackend)
        → Step b ((recording codec blake2b encode_hex).submit_tx tx b).1
    read : (b : RecordingBackend) → Step b ((recording codec blake2b encode_hex).read_snapshot b).1
    set : (snapshot : DidLedgerSnapshot) (b : RecordingBackend) → Step b (set_snapshot snapshot b)

  pub data Reach (b : RecordingBackend) : RecordingBackend → Type 0 where
    here : Reach b b
    next : {c d : RecordingBackend} → Reach b c → Step c d → Reach b d

  -- The later log continues the earlier one.
  abbrev pub Extends : RecordingBackend → RecordingBackend → Type 0
  Extends b c = (new : List DidContractCall) × (c.calls ≡ b.calls ++ new)

  record_call-Extends :
      (bytes : Bytes) (r : Result BackendError DidContractCall) (b : RecordingBackend)
      → Extends b (record_call codec blake2b encode_hex bytes r b).1
  unfolding record_call
  record_call-Extends bytes (ok call) b = (call ∷ [], refl)
  record_call-Extends bytes (err e) b = ([], sym (append-nil b.calls))

  Step-Extends : {b c : RecordingBackend} → Step b c → Extends b c
  unfolding recording set_snapshot
  Step-Extends (submit tx b) = record_call-Extends tx.bytes (decode_call codec tx.bytes) b
  Step-Extends (read b) = (read_ledger ∷ [], refl)
  Step-Extends (set snapshot b) = ([], sym (append-nil b.calls))

  -- The log of the recording backend only grows: whatever is submitted, read or set, every call
  -- that was recorded stays recorded, in its place.
  pub Reach-Extends : {b c : RecordingBackend} → Reach b c → Extends b c
  Reach-Extends {b} here = ([], sym (append-nil b.calls))
  Reach-Extends {b} (next r s) =
      let (new, e) = Reach-Extends r in
      let (more, f) = Step-Extends s in
      (
        new ++ more,
        f ∙ ap (λ (l : List DidContractCall). l ++ more) e ∙ append_assoc b.calls new more,
      )

  height_of :
      (bytes : Bytes) (r : Result BackendError DidContractCall) (b : RecordingBackend)
      → (tx : FinalizedTxData) → (record_call codec blake2b encode_hex bytes r b).0 ≡ ok tx
      → (tx.block_height ≡ suc (length b.calls))
        × (length (record_call codec blake2b encode_hex bytes r b).1.calls ≡ suc (length b.calls))
  unfolding record_call
  height_of bytes (ok call) b tx h =
      let long = length-append b.calls (call ∷ []) in (ground (arith, long), omega (arith, long))
  height_of bytes (err e) b tx h = absurd (cc h)

  -- Block heights increase: of two transactions that the recording backend finalizes the later one
  -- has the greater height, whatever is submitted, read or set in between.
  pub submit_tx_heights :
      (first second : BuiltTx) (tx1 tx2 : FinalizedTxData) (b c : RecordingBackend)
      → ((recording codec blake2b encode_hex).submit_tx first b).0 ≡ ok tx1
      → Reach ((recording codec blake2b encode_hex).submit_tx first b).1 c
      → ((recording codec blake2b encode_hex).submit_tx second c).0 ≡ ok tx2
      → tx1.block_height < tx2.block_height
  unfolding recording
  submit_tx_heights first second tx1 tx2 b c h1 r h2 =
      let (e1, l1) = height_of first.bytes (decode_call codec first.bytes) b tx1 h1 in
      let (e2, l2) = height_of second.bytes (decode_call codec second.bytes) c tx2 h2 in
      let (new, grown) = Reach-Extends r in
      let long = ap (λ (l : List DidContractCall). length l) grown ∙ length-append _ new in
      omega (arith, e1, l1, e2, long)

  module _ (lawful : IsJsonCodec codec) where
    -- A call that is submitted is recorded behind the others.
    pub submit_tx-encode_call :
        (call : DidContractCall) (b : RecordingBackend)
        → IsGated call
        → (tx : FinalizedTxData) × ((recording codec blake2b encode_hex).submit_tx
              (record { bytes = encode_call codec call })
              b
            ≡ (ok tx, push_call call b))
          × (tx.block_height ≡ suc (length b.calls))
          × (tx.tx_hash ≡ encode_hex (take 8 (blake2b (encode_call codec call))))
    unfolding synth_tx_hash recording record_call decode_call encode_call
    submit_tx-encode_call call b g = (
      record {
        tx_hash = synth_tx_hash codec blake2b encode_hex (codec.to_vec call);
        block_height = length (b.calls ++ call ∷ []);
      },
      rw (lawful.from_slice-to_vec call g) refl,
      omega (arith, length-append b.calls (call ∷ [])),
      refl,
    )
