-- ===== src/Method/Offchain/State/LongForm.antt =====
-- Long-form DID strings of off-chain states.
use midnight_did_rs.Common.{
  ◌≡◌, refl, sym, ap, ◌∙◌, subst, true, List, [], ◌∷◌, ◌++◌, Text, codes, split, text_eq,
  text_eq_refl, Result, ok, err, map_err, >>=-eq-ok, ok-injective, arith,
}
use midnight_did_rs.Domain.Codecs.{Bytes, Base64}
use midnight_did_rs.Method.Network.{offchain, as_wire_str}
use midnight_did_rs.Method.Hex.{HexCodec, IsHexCodec, IsHash, hash_to_hex}
use midnight_did_rs.Method.Did.{
  MidnightDidString, create_midnight_did_string, parse_midnight_did_string,
  parse_offchain_state_hash, is_hex64, is_base64url_segment,
}
use midnight_did_rs.Method.Did.Parsing.{split-prefix, parse_midnight_did_string_sound}
use midnight_did_rs.Method.Did.Building.{accept_long, long_parts, long_text, is_hex64_of_lower}
use midnight_did_rs.Method.Did.RoundTrip.{encoded_lower, hash_from-to}
use midnight_did_rs.Method.Offchain.Errors.{did}
use midnight_did_rs.Method.Offchain.Frame.{compact_value_to_bytes}
use midnight_did_rs.Method.Offchain.State.{
  OffchainMidnightDidState, EncodedOffchainMidnightDidState, CompactValueCodec, payload_char,
  from_base64url, encode_state, validate_state_shape, offchain_state_encoding, bytes_to_state_hash,
  create_offchain_did_string, create_long_form_offchain_did_string,
  parse_long_form_offchain_did_string,
}

long_split :
    (id state : Text)
    → is_hex64 id ≡ true
    → is_base64url_segment state ≡ true
    → split b':' ((create_midnight_did_string id offchain).value ++ b':' ∷ state)
      ≡ codes "did" ∷ codes "midnight" ∷ codes "offchain" ∷ id ∷ state ∷ []
unfolding as_wire_str
long_split id state h s =
    ap (split b':') (long_text id state)
    ∙ split-prefix (as_wire_str offchain ++ b':' ∷ (id ++ b':' ∷ state))
    ∙ ap (λ (t : List Text). codes "did" ∷ codes "midnight" ∷ t) (long_parts offchain id state h s)

map_err-ok : {D E A : Type 0} (f : D → E) (r : Result D A) {a : A} → map_err f r ≡ ok a → r ≡ ok a
map_err-ok f (ok b) h = ground arith
map_err-ok f (err e) h = absurd (cc h)

module _ (engine : Base64) where
  segment_of_payload :
      (payload bytes : Text)
      → from_base64url engine payload ≡ ok bytes
      → is_base64url_segment payload ≡ true
  unfolding from_base64url payload_char is_base64url_segment
  segment_of_payload payload bytes h = ground arith

  encoded_as :
      (chunks_of : CompactValueCodec) (state : OffchainMidnightDidState)
      → (encoded : EncodedOffchainMidnightDidState)
      → encode_state engine chunks_of state ≡ ok encoded
      → record { encoding = offchain_state_encoding; payload = encoded.payload } ≡ encoded
  unfolding encode_state
  encoded_as chunks_of state encoded h =
      let (_, shape, h1) = >>=-eq-ok (validate_state_shape state) _ h in
      let (chunks, c, h2) = >>=-eq-ok (chunks_of.to_chunks state) _ h1 in
      let (frame, f, h3) = >>=-eq-ok (compact_value_to_bytes chunks) _ h2 in
      let same = ok-injective h3 in
      subst
        (λ (e : EncodedOffchainMidnightDidState).
          ◌≡◌ {A = EncodedOffchainMidnightDidState}
            (record { encoding = offchain_state_encoding; payload = e.payload }) e)
        same refl

  module _ (hex : HexCodec) (lawful : IsHexCodec hex) (blake2s : Bytes → Bytes) where
    parse_built :
        (payload bytes : Text)
        → IsHash (bytes_to_state_hash engine hex blake2s bytes)
        → from_base64url engine payload ≡ ok bytes
        → let hash = bytes_to_state_hash engine hex blake2s bytes in
          let long = (create_offchain_did_string engine hex blake2s hash).value ++ b':' ∷ payload in
          parse_long_form_offchain_did_string engine hex blake2s long
          ≡ ok (record {
            did_string = record { value = long };
            state_hash = hash;
            encoded_state = record { encoding = offchain_state_encoding; payload = payload };
          })
    unfolding parse_long_form_offchain_did_string create_offchain_did_string
        parse_offchain_state_hash bytes_to_state_hash text_eq
    parse_built payload bytes w h =
        let hash = bytes_to_state_hash engine hex blake2s bytes in
        let id = hash_to_hex hex hash in
        let lower = encoded_lower hex lawful hash w in
        let segment = segment_of_payload payload bytes h in
        let accepted = accept_long id payload lower segment in
        let parts = long_split id payload (is_hex64_of_lower id lower) segment in
        rw (accepted, parts, lower, hash_from-to hex lawful hash w, h, text_eq_refl (blake2s bytes))
          refl

    -- With a hex codec that does what its crate documents and a digest of 32 bytes, a long-form
    -- DID that was created from an off-chain state is parsed: to the DID itself, to the digest of
    -- the payload bytes as its state hash, and to the encoding of that state.
    pub parse_long_form_offchain_did_string-create :
        (chunks_of : CompactValueCodec) (state : OffchainMidnightDidState) (d : MidnightDidString)
        → ((bytes : Bytes) → IsHash (bytes_to_state_hash engine hex blake2s bytes))
        → create_long_form_offchain_did_string engine hex blake2s chunks_of state ≡ ok d
        → (encoded : EncodedOffchainMidnightDidState) × (bytes : Bytes) × (encode_state engine
              chunks_of state
            ≡ ok encoded)
          × (from_base64url engine encoded.payload ≡ ok bytes)
          × (parse_long_form_offchain_did_string engine hex blake2s d.value
              ≡ ok (record {
                did_string = d;
                state_hash = bytes_to_state_hash engine hex blake2s bytes;
                encoded_state = encoded;
              }))
    unfolding create_long_form_offchain_did_string
    parse_long_form_offchain_did_string-create chunks_of state d hashes h =
        let (encoded, e, h1) = >>=-eq-ok (encode_state engine chunks_of state) _ h in
        let (bytes, f, h2) = >>=-eq-ok (from_base64url engine encoded.payload) _ h1 in
        let long =
          (create_offchain_did_string engine hex blake2s
            (bytes_to_state_hash engine hex blake2s bytes)).value
          ++ b':' ∷ encoded.payload in
        let same =
          (parse_midnight_did_string_sound long
            (map_err-ok did (parse_midnight_did_string long) h2)).0 in
        let built = parse_built encoded.payload bytes (hashes bytes) f in
        (
          encoded,
          bytes,
          e,
          f,
          ap (parse_long_form_offchain_did_string engine hex blake2s) same ∙ built ∙ (λ i.
              ok (record {
                did_string = record { value = sym same i };
                state_hash = bytes_to_state_hash engine hex blake2s bytes;
                encoded_state = encoded_as chunks_of state encoded e i;
              })),
        )
