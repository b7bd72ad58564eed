-- ===== src/Runtime/HexCheck.antt =====
-- crates/midnight-did-runtime/src/contract_call.rs: the hex checks of the ledger's values.
pub mod Accepted
use midnight_did_rs.Common.{
  ℕ, ◌+◌, ◌/◌, ◌%◌, Bool, true, false, not, Option, none, some, List, [], ◌∷◌, Text, codes, str_len,
  is_empty, is_ascii_hexdigit, ◌==◌, if◌then◌else◌, Result, ok, err, ◌>>=◌, ◌>>◌, guard,
}

-- What the text of `NotHex` tells: an odd length, or a character and its index.
pub data HexFault : Type 0 where
  odd_length : ℕ → HexFault
  non_hex_character : ℕ → ℕ → HexFault

pub data ValidationError : Type 0 where
  empty : Text → ValidationError
  not_hex : Text → HexFault → ValidationError
  wrong_byte_length : Text → ℕ → ℕ → ValidationError

-- The loop over the characters, behind `idx` of them.
check_digits : Text → ℕ → Text → Result ValidationError (Unit {0})
check_digits field idx [] = ok tt
check_digits field idx (ch ∷ s) =
    let rest = check_digits field (idx + 1) s in
    if not (is_ascii_hexdigit ch) then err (not_hex field (non_hex_character ch idx)) else rest

unfoldable pub validate_hex : Text → Text → Result ValidationError ℕ
unfolding check_digits
validate_hex s field = do
  guard (not (is_empty s)) (empty field)
  guard (str_len s % 2 == 0) (not_hex field (odd_length (str_len s)))
  check_digits field 0 s
  ok (str_len s / 2)

unfoldable pub validate_hex_exact : Text → ℕ → Text → Result ValidationError (Unit {0})
unfolding validate_hex
validate_hex_exact s expected_bytes field = do
  actual ← validate_hex s field
  guard (actual == expected_bytes) (wrong_byte_length field expected_bytes actual)

abbrev pub jubjub_coordinate_bytes : ℕ
jubjub_coordinate_bytes = 32

abbrev pub schnorr_jubjub_signature_bytes : ℕ
schnorr_jubjub_signature_bytes = 96

-- `NewJubjubPointHex` has the same fields.
pub record JubjubPointHex : Type 0 where
  pub x : Text
  pub y : Text

unfoldable pub new_point : JubjubPointHex → Result ValidationError JubjubPointHex
new_point args = do
  validate_hex_exact args.x jubjub_coordinate_bytes (codes "JubjubPointHex.x")
  validate_hex_exact args.y jubjub_coordinate_bytes (codes "JubjubPointHex.y")
  ok args

-- `[String; 4]`
pub record SchnorrJubjubDigest : Type 0 where
  pub limb0 : Text
  pub limb1 : Text
  pub limb2 : Text
  pub limb3 : Text

unfoldable pub new_digest : SchnorrJubjubDigest → Result ValidationError SchnorrJubjubDigest
new_digest limbs = do
  validate_hex_exact limbs.limb0 jubjub_coordinate_bytes (codes "SchnorrJubjubDigest[0]")
  validate_hex_exact limbs.limb1 jubjub_coordinate_bytes (codes "SchnorrJubjubDigest[1]")
  validate_hex_exact limbs.limb2 jubjub_coordinate_bytes (codes "SchnorrJubjubDigest[2]")
  validate_hex_exact limbs.limb3 jubjub_coordinate_bytes (codes "SchnorrJubjubDigest[3]")
  ok limbs

pub record SchnorrJubjubSignature : Type 0 where
  pub bytes_hex : Text

unfoldable pub new_signature : Text → Result ValidationError SchnorrJubjubSignature
new_signature bytes_hex = do
  validate_hex_exact bytes_hex schnorr_jubjub_signature_bytes
      (codes "SchnorrJubjubSignature.bytes_hex")
  ok (record { bytes_hex = bytes_hex })
