-- ===== src/Domain/Codecs.antt =====
-- crates/midnight-did-domain/src/crypto_codecs.rs: base64url codecs.
-- The `base64` crate's engine `URL_SAFE_NO_PAD` is the parameter `engine`.
pub mod RoundTrip
pub mod Field
use midnight_did_rs.Common.{
  ℕ, ◌+◌, ◌*◌, ◌/◌, ◌%◌, ◌<◌, ◌≡◌, Bool, true, false, ◌&&◌, ◌||◌, not, Option, none, some, List, [],
  ◌∷◌, ◌++◌, String, Text, codes, str_len, text_eq, trim_end_matches, length, all, All, is_empty,
  is_ascii_alphanumeric, ◌==◌, if◌then◌else◌, Result, ok, err, ◌>>=◌, ◌>>◌, guard, map_err, ok_or,
}

abbrev pub Bytes : Type 0
Bytes = List ℕ

abbrev pub IsByte : ℕ → Type 0
IsByte b = b < 256

-- `Engine::encode` and `Engine::decode` of `URL_SAFE_NO_PAD`.
pub record Base64 : Type 0 where
  pub encode : Bytes → Text
  pub decode : Text → Option Bytes

unfoldable pub is_base64url_byte : ℕ → Bool
is_base64url_byte byte = is_ascii_alphanumeric byte || byte == b'-' || byte == b'_'

-- What the documentation of the engine promises: the URL-safe alphabet, no padding (so `n` bytes
-- are written in `4n / 3` characters, rounded up), and that decoding undoes encoding.
pub record IsBase64 (engine : Base64) : Type 0 where
  pub decode-encode :
      (bytes : Bytes) → All IsByte bytes → engine.decode (engine.encode bytes) ≡ some bytes
  pub encode_alphabet :
      (bytes : Bytes) → All IsByte bytes → all is_base64url_byte (engine.encode bytes) ≡ true
  pub length-encode :
      (bytes : Bytes) → All IsByte bytes → length (engine.encode bytes) ≡ (4 * length bytes + 2) / 3
  pub decode_bytes : (s : Text) (bytes : Bytes) → engine.decode s ≡ some bytes → All IsByte bytes

pub data CodecError : Type 0 where
  invalid_character : String → CodecError
  invalid_length : String → CodecError
  unexpected_byte_length : String → ℕ → ℕ → CodecError
  not_canonical : String → CodecError

unfoldable pub is_base64url_text : Text → Bool
unfolding is_base64url_byte
is_base64url_text value = not (is_empty value) && all is_base64url_byte value

module _ (engine : Base64) where
  unfoldable pub encode_base64url : Bytes → Text
  encode_base64url bytes = engine.encode bytes

  decode_padded : Text → Result CodecError Bytes
  decode_padded padded =
      ok_or (engine.decode (trim_end_matches b'=' padded)) (invalid_character "value")

  unfoldable pub decode_base64url : Text → Result CodecError Bytes
  unfolding decode_padded
  decode_base64url input =
      let r = str_len input % 4 in
      if r == 0
      then decode_padded input
      else if r == 2
      then decode_padded (input ++ codes "==")
      else if r == 3
      then decode_padded (input ++ codes "=")
      else err (invalid_length "value")

  unfoldable pub decode_base64url_bytes : Text → ℕ → String → Result CodecError Bytes
  unfolding is_base64url_text
  decode_base64url_bytes input expected_length label = do
    guard (is_base64url_text input && not (str_len input % 4 == 1)) (invalid_character label)
    bytes ← map_err (λ _. invalid_character label) (decode_base64url input)
    guard (length bytes == expected_length)
        (unexpected_byte_length label expected_length (length bytes))
    guard (text_eq (encode_base64url bytes) input) (not_canonical label)
    ok bytes

  unfoldable pub decode_base64url_bytes_32 : Text → String → Result CodecError Bytes
  decode_base64url_bytes_32 input label = decode_base64url_bytes input 32 label
