-- ===== src/Api/Resolution/Keys.antt =====
-- crates/midnight-did-api/src/resolution.rs: the keys of the ledger as JWKs.
-- `hex::decode`, with the text of its error, is the parameter `decode_hex`.
use midnight_did_rs.Common.{
  ◌-◌, Bool, true, false, not, ◌&&◌, leb, Option, none, some, [], ◌∷◌, ◌++◌, Text, codes, decimal,
  is_empty, length, replicate, Result, ok, ◌>>=◌, ◌>>◌, guard, map_err,
}
use midnight_did_rs.Domain.Codecs.{Bytes, Base64, encode_base64url}
use midnight_did_rs.Domain.Json.{empty}
use midnight_did_rs.Domain.Jwk.{
  KeyType, ec, okp, jubjub, PublicKeyJwk, VerificationMethodType, VerificationMethodRelation,
  new_jwk,
}
use midnight_did_rs.Runtime.Ledger.{
  LedgerPublicKeyJwk, LedgerSchnorrJubjubVerificationMethod, LedgerVerificationMethodRelation,
}
use midnight_did_rs.Api.Errors.{ApiError, mapping, validation_error}

unfoldable pub ledger_verification_method_type_to_domain :
    VerificationMethodType → Result ApiError VerificationMethodType
ledger_verification_method_type_to_domain typ = ok typ

-- `None` for the empty text.
abbrev pub y_value : Text → Option Text
y_value [] = none
y_value (c ∷ s) = some (c ∷ s)

abbrev pub is_okp_key : KeyType → Bool
is_okp_key okp = true
is_okp_key _ = false

module _ (engine : Base64) where
  unfoldable pub ledger_jwk_to_domain : LedgerPublicKeyJwk → Result ApiError PublicKeyJwk
  ledger_jwk_to_domain jwk = do
    guard (not (is_okp_key jwk.kty && not (is_empty jwk.y)))
        (mapping (codes "OKP ledger publicKeyJwk.y must be empty"))
    map_err validation_error (
        new_jwk engine (record {
          kty = jwk.kty;
          crv = jwk.crv;
          x = jwk.x;
          y = y_value jwk.y;
          extensions = empty;
        }))

  module _ (decode_hex : Text → Result Text Bytes) where
    -- `bytes.resize(32, 0u8)` for at most 32 bytes.
    abbrev resize : Bytes → Bytes
    resize bytes = bytes ++ replicate (32 - length bytes) 0

    unfoldable pub decode_jubjub_coordinate : Text → Text → Result ApiError Bytes
    decode_jubjub_coordinate hex_value label = do
      bytes ← map_err (λ (e : Text). mapping (label ++ (codes ": " ++ e))) (decode_hex hex_value)
      guard (leb (length bytes) 32) (
          mapping (
            label
            ++ (codes " does not fit in 32 bytes (got "
                ++ (decimal (length bytes) ++ codes " bytes)"))))
      ok (resize bytes)

    unfoldable pub schnorr_jubjub_pk_to_jwk :
        LedgerSchnorrJubjubVerificationMethod → Result ApiError PublicKeyJwk
    schnorr_jubjub_pk_to_jwk method = do
      x ← decode_jubjub_coordinate method.public_key.x (codes "publicKey.x")
      y ← decode_jubjub_coordinate method.public_key.y (codes "publicKey.y")
      map_err validation_error (
          new_jwk engine (record {
            kty = ec;
            crv = jubjub;
            x = encode_base64url engine x;
            y = some (encode_base64url engine y);
            extensions = empty;
          }))

unfoldable pub ledger_to_domain_relation :
    LedgerVerificationMethodRelation → Option VerificationMethodRelation
ledger_to_domain_relation LedgerVerificationMethodRelation.undefined =
    some VerificationMethodRelation.undefined
ledger_to_domain_relation LedgerVerificationMethodRelation.authentication =
    some VerificationMethodRelation.authentication
ledger_to_domain_relation LedgerVerificationMethodRelation.assertion_method =
    some VerificationMethodRelation.assertion_method
ledger_to_domain_relation LedgerVerificationMethodRelation.key_agreement =
    some VerificationMethodRelation.key_agreement
ledger_to_domain_relation LedgerVerificationMethodRelation.capability_invocation =
    some VerificationMethodRelation.capability_invocation
ledger_to_domain_relation LedgerVerificationMethodRelation.capability_delegation =
    some VerificationMethodRelation.capability_delegation
