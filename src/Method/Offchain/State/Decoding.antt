-- ===== src/Method/Offchain/State/Decoding.antt =====
-- `encode` and `decode` of an off-chain state.
use midnight_did_rs.Common.{
  ◌≡◌, ◌≢◌, true, List, [], Text, text_eq_refl, all, All, ok, >>=-eq-ok, arith,
}
use midnight_did_rs.Domain.Codecs.{
  Bytes, IsByte, Base64, IsBase64, is_base64url_byte, encode_base64url,
}
use midnight_did_rs.Domain.Codecs.RoundTrip.{encode_len, encode-ne-nil, decode_base64url-encode}
use midnight_did_rs.Method.Offchain.Frame.{compact_value_to_bytes}
use midnight_did_rs.Method.Offchain.Frame.Canonical.{
  compact_value_from_bytes_iff, compact_value_to_bytes-IsByte,
}
use midnight_did_rs.Method.Offchain.State.{
  OffchainMidnightDidState, EncodedOffchainMidnightDidState, CompactValueCodec, payload_char,
  from_base64url, encode_state, decode_state, validate_state_shape, offchain_state_encoding,
}

payload_chars : (s : Text) → all is_base64url_byte s ≡ true → all payload_char s ≡ true
unfolding payload_char is_base64url_byte
payload_chars s h = h

module _ (engine : Base64) (lawful : IsBase64 engine) where
  -- A payload that was written is read back.
  from_base64url-encode :
      (bytes : Bytes)
      → All IsByte bytes
      → bytes ≢ []
      → from_base64url engine (encode_base64url engine bytes) ≡ ok bytes
  unfolding from_base64url encode_base64url
  from_base64url-encode bytes hb hn = ground (
    arith,
    decode_base64url-encode engine lawful bytes hb,
    payload_chars (engine.encode bytes) (lawful.encode_alphabet bytes hb),
    encode_len engine lawful bytes hb,
    encode-ne-nil engine lawful bytes hb hn,
    text_eq_refl (engine.encode bytes),
  )

  module _ (chunks_of : CompactValueCodec) where
    -- With a base64 engine that does what its crate documents, an off-chain state that `encode`
    -- accepts is what `decode` reads from its encoding, for a chunk codec whose chunks of this
    -- state are bytes and are read back as the state.
    pub decode_state-encode_state :
        (state : OffchainMidnightDidState) (encoded : EncodedOffchainMidnightDidState)
        → ((chunks : List Bytes)
            → chunks_of.to_chunks state ≡ ok chunks
            → (chunks_of.from_chunks chunks ≡ ok state) × All (All IsByte) chunks)
        → encode_state engine chunks_of state ≡ ok encoded
        → decode_state engine chunks_of encoded ≡ ok state
    unfolding encode_state decode_state
    decode_state-encode_state state encoded law h =
        let (_, shape, h1) = >>=-eq-ok (validate_state_shape state) _ h in
        let (chunks, c, h2) = >>=-eq-ok (chunks_of.to_chunks state) _ h1 in
        let (frame, f, h3) = >>=-eq-ok (compact_value_to_bytes chunks) _ h2 in
        let (back, bytes) = law chunks c in
        let (framed, full) = compact_value_to_bytes-IsByte chunks frame bytes f in
        let read = from_base64url-encode frame framed full in
        let unframed = (compact_value_from_bytes_iff frame chunks framed).1 f in
        ground (arith, text_eq_refl offchain_state_encoding)
