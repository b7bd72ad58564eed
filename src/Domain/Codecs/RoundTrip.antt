-- ===== src/Domain/Codecs/RoundTrip.antt =====
-- What `decode_base64url` and `decode_base64url_bytes` accept, and what they return.
use midnight_did_rs.Common.{
  ℕ, ◌%◌, ◌<◌, ◌≡◌, ◌≢◌, refl, ◌∙◌, true, false, [], ◌∷◌, ◌++◌, String, Text, codes, str_len,
  str_len-ascii, text_eq_iff, text_eq_refl, trim_end_matches, trim_end_matches-Lacks,
  trim_end_matches-append, Lacks-of_all, length, all, All, is_empty, &&-eq-true, ok, arith, ok_or,
}
use midnight_did_rs.Domain.Codecs.{
  Bytes, IsByte, Base64, IsBase64, is_base64url_byte, is_base64url_text, invalid_character,
  decode_padded, decode_base64url, encode_base64url, decode_base64url_bytes,
}

ascii : (s : Text) → all is_base64url_byte s ≡ true → All (λ c. c < 128) s
unfolding is_base64url_byte
ascii [] h = tt
ascii (c ∷ s) h =
    let (hc, hs) = &&-eq-true (is_base64url_byte c) (all is_base64url_byte s) h in
    (ground arith, ascii s hs)

str_len_of_base64url : (s : Text) → all is_base64url_byte s ≡ true → str_len s ≡ length s
str_len_of_base64url s h = str_len-ascii s (ascii s h)

trim_padding :
    (s pad : Text)
    → all is_base64url_byte s ≡ true
    → trim_end_matches b'=' pad ≡ []
    → trim_end_matches b'=' (s ++ pad) ≡ s
trim_padding s pad h p =
    trim_end_matches-append b'=' s pad p
    ∙ trim_end_matches-Lacks b'=' s
        (Lacks-of_all b'=' is_base64url_byte s (unfold is_base64url_byte in refl) h)

padding_two : trim_end_matches b'=' (codes "==") ≡ []
unfolding trim_end_matches
padding_two = refl

padding_one : trim_end_matches b'=' (codes "=") ≡ []
unfolding trim_end_matches
padding_one = refl

not_empty : (s : Text) → 0 < length s → is_empty s ≡ false
not_empty [] h = absurd (omega arith)
not_empty (c ∷ s) h = refl

module _ (engine : Base64) where
  -- On text of the alphabet, padding and trimming cancel.
  pub decode_base64url_lem :
      (s : Text)
      → all is_base64url_byte s ≡ true
      → str_len s % 4 ≢ 1
      → decode_base64url engine s ≡ ok_or (engine.decode s) (invalid_character "value")
  unfolding decode_base64url decode_padded
  decode_base64url_lem s h n = ground (
    arith,
    trim_padding s (codes "==") h padding_two,
    trim_padding s (codes "=") h padding_one,
    trim_end_matches-Lacks b'=' s
        (Lacks-of_all b'=' is_base64url_byte s (unfold is_base64url_byte in refl) h),
  )

  -- A text that `decode_base64url_bytes` accepts is the canonical encoding of the bytes returned,
  -- which have the length asked for.
  pub decode_base64url_bytes_sound :
      (input : Text) (expected_length : ℕ) (label : String) (bytes : Bytes)
      → decode_base64url_bytes engine input expected_length label ≡ ok bytes
      → (encode_base64url engine bytes ≡ input) × (length bytes ≡ expected_length)
  unfolding decode_base64url_bytes
  decode_base64url_bytes_sound input n label bytes h =
      ground (arith, text_eq_iff (encode_base64url engine bytes) input)

  module _ (lawful : IsBase64 engine) where
    -- The length of the encoding is never 1 modulo 4.
    pub encode_len : (bytes : Bytes) → All IsByte bytes → str_len (engine.encode bytes) % 4 ≢ 1
    encode_len bytes hb =
        let l = lawful.length-encode bytes hb in
        let a = str_len_of_base64url (engine.encode bytes) (lawful.encode_alphabet bytes hb) in
        omega arith

    pub encode-ne-nil :
        (bytes : Bytes)
        → All IsByte bytes
        → bytes ≢ []
        → is_empty (encode_base64url engine bytes) ≡ false
    unfolding encode_base64url
    encode-ne-nil [] hb hn = absurd (hn refl)
    encode-ne-nil (b ∷ bytes) hb hn =
        not_empty (engine.encode (b ∷ bytes)) (omega (arith, lawful.length-encode (b ∷ bytes) hb))

    pub decode_base64url-encode :
        (bytes : Bytes)
        → All IsByte bytes
        → decode_base64url engine (encode_base64url engine bytes) ≡ ok bytes
    unfolding encode_base64url
    decode_base64url-encode bytes hb =
        rw (decode_base64url_lem _ (lawful.encode_alphabet bytes hb) (encode_len bytes hb))
          (rw (lawful.decode-encode bytes hb) refl)

    -- With a base64 engine that does what its crate documents, the canonical encoding of any bytes
    -- but none is accepted, at their own length, and gives the bytes back.
    pub decode_base64url_bytes-encode :
        (bytes : Bytes) (label : String)
        → All IsByte bytes
        → bytes ≢ []
        → decode_base64url_bytes engine (encode_base64url engine bytes) (length bytes) label
          ≡ ok bytes
    unfolding decode_base64url_bytes is_base64url_text encode_base64url
    decode_base64url_bytes-encode bytes label hb hn = ground (
      arith,
      decode_base64url-encode bytes hb,
      lawful.encode_alphabet bytes hb,
      encode_len bytes hb,
      encode-ne-nil bytes hb hn,
      text_eq_refl (encode_base64url engine bytes),
    )
