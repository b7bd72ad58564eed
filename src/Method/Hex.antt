-- ===== src/Method/Hex.antt =====
-- crates/midnight-did-method/src/hex_ext.rs: 32-byte hashes and their hex texts.
-- The `hex` crate is the parameter `hex`.
use midnight_did_rs.Common.{
  ℕ, ◌*◌, ◌≡◌, Bool, true, not, ◌||◌, ◌&&◌, Option, none, some, Text, str_len, length, all, All,
  map, is_digit, is_ascii_hexdigit, to_ascii_lowercase, leb, ◌==◌, if◌then◌else◌, Result, ok, err,
}
use midnight_did_rs.Domain.Codecs.{Bytes, IsByte}

-- `hex::encode`, and `hex::decode_to_slice` into a slice of half the length.
pub record HexCodec : Type 0 where
  pub encode : Bytes → Text
  pub decode : Text → Option Bytes

abbrev pub is_lowercase_hexdigit : ℕ → Bool
is_lowercase_hexdigit c = is_digit c || (leb b'a' c && leb c b'f')

-- What the crate documents: two lowercase digits for a byte, decoding in either case, and that
-- any even number of hex digits decodes.
pub record IsHexCodec (hex : HexCodec) : Type 0 where
  pub encode_digits :
      (bytes : Bytes) → All IsByte bytes → all is_lowercase_hexdigit (hex.encode bytes) ≡ true
  pub length-encode :
      (bytes : Bytes) → All IsByte bytes → length (hex.encode bytes) ≡ 2 * length bytes
  pub decode-encode :
      (bytes : Bytes) → All IsByte bytes → hex.decode (hex.encode bytes) ≡ some bytes
  pub decode_total :
      (s : Text) (n : ℕ)
      → all is_ascii_hexdigit s ≡ true
      → length s ≡ 2 * n
      → (bytes : Bytes) × (hex.decode s ≡ some bytes)
        × All IsByte bytes
        × (length bytes ≡ n)
        × (hex.encode bytes ≡ map to_ascii_lowercase s)

pub record HashOutput : Type 0 where
  pub bytes : Bytes

-- `ContractAddress(pub HashOutput)`
pub record ContractAddress : Type 0 where
  pub hash : HashOutput

pub data ParseHexError : Type 0 where
  wrong_length : ℕ → ParseHexError
  invalid_hex : ParseHexError

-- The value that `decode_to_slice` fills, or its error.
abbrev hash_of : Option Bytes → Result ParseHexError HashOutput
hash_of none = err invalid_hex
hash_of (some bytes) = ok (record { bytes = bytes })

abbrev address_of : Result ParseHexError HashOutput → Result ParseHexError ContractAddress
address_of (ok h) = ok (record { hash = h })
address_of (err e) = err e

module _ (hex : HexCodec) where
  unfoldable pub hash_from_hex : Text → Result ParseHexError HashOutput
  hash_from_hex s =
      if not (str_len s == 64) then err (wrong_length (str_len s)) else hash_of (hex.decode s)

  unfoldable pub hash_to_hex : HashOutput → Text
  hash_to_hex h = hex.encode h.bytes

  unfoldable pub address_from_hex : Text → Result ParseHexError ContractAddress
  unfolding hash_from_hex
  address_from_hex s = address_of (hash_from_hex s)

  unfoldable pub address_to_hex : ContractAddress → Text
  unfolding hash_to_hex
  address_to_hex a = hash_to_hex a.hash

-- 32 bytes.
abbrev pub IsHash : HashOutput → Type 0
IsHash h = All IsByte h.bytes × (length h.bytes ≡ 32)
