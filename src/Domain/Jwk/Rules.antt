-- ===== src/Domain/Jwk/Rules.antt =====
-- What a JWK that passes validation looks like.
use midnight_did_rs.Common.{
  ℕ, ◌≡◌, ◌↔◌, refl, true, false, Option, none, some, List, [], ◌∷◌, String, Text, codes, is_ok, ok,
  ◌>>◌, arith, ap, sym, ◌∙◌,
}
use midnight_did_rs.Domain.Codecs.{Base64, decode_base64url_bytes}
use midnight_did_rs.Domain.Validation.{ValidationIssue, checked}
use midnight_did_rs.Domain.Json.{JsonMap, contains_key}
use midnight_did_rs.Domain.Jwk.{
  KeyType, ec, rsa, oct, okp, CurveType, ed25519, x25519, jubjub, p256, secp256k1, bls12381g1,
  bls12381g2, PublicKeyJwk, collect_issues, validate_jwk, new_jwk,
  public_key_jwk_coordinate_byte_length,
}

module _ (engine : Base64) where
  -- The text is the canonical base64url of exactly `n` bytes.
  abbrev pub Encodes : String → ℕ → Text → Type 0
  Encodes label n t = is_ok (decode_base64url_bytes engine t n label) ≡ true

  -- The profile of a key: which curve it may name, and what its coordinates are.
  abbrev pub Profile : KeyType → CurveType → Text → Option Text → Type 0
  Profile okp ed25519 x none = Encodes "publicKeyJwk.x" 32 x
  Profile okp x25519 x none = Encodes "publicKeyJwk.x" 32 x
  Profile okp bls12381g1 x none = Encodes "publicKeyJwk.x" 48 x
  Profile okp bls12381g2 x none = Encodes "publicKeyJwk.x" 96 x
  Profile ec jubjub x (some y) = Encodes "publicKeyJwk.x" 32 x × Encodes "publicKeyJwk.y" 32 y
  Profile ec p256 x (some y) = Encodes "publicKeyJwk.x" 32 x × Encodes "publicKeyJwk.y" 32 y
  Profile ec secp256k1 x (some y) = Encodes "publicKeyJwk.x" 32 x × Encodes "publicKeyJwk.y" 32 y
  Profile rsa bls12381g1 x (some y) = Unit {0}
  Profile rsa bls12381g2 x (some y) = Unit {0}
  Profile rsa crv x (some y) = Encodes "publicKeyJwk.x" 32 x
  Profile oct bls12381g1 x (some y) = Unit {0}
  Profile oct bls12381g2 x (some y) = Unit {0}
  Profile oct crv x (some y) = Encodes "publicKeyJwk.x" 32 x
  Profile kty crv x y = ⊥

  abbrev fields : KeyType → CurveType → Text → Option Text → JsonMap → PublicKeyJwk
  fields kty crv x y ext = record { kty = kty; crv = crv; x = x; y = y; extensions = ext }

  Profile-of_no_issues :
      (kty : KeyType) (crv : CurveType) (x : Text) (y : Option Text) (ext : JsonMap)
      → collect_issues engine (fields kty crv x y ext) ≡ []
      → (contains_key (codes "d") ext ≡ false) × Profile kty crv x y
  unfolding collect_issues public_key_jwk_coordinate_byte_length
  Profile-of_no_issues okp ed25519 x none ext h = ground arith
  Profile-of_no_issues kty crv x y ext h = ground arith

  no_issues_of_Profile :
      (kty : KeyType) (crv : CurveType) (x : Text) (y : Option Text) (ext : JsonMap)
      → contains_key (codes "d") ext ≡ false
      → Profile kty crv x y
      → collect_issues engine (fields kty crv x y ext) ≡ []
  unfolding collect_issues public_key_jwk_coordinate_byte_length
  no_issues_of_Profile okp ed25519 x none ext d h = ground arith
  no_issues_of_Profile kty crv x y ext d h = ground arith

  pub new_jwk_issues :
      (p : PublicKeyJwk) {q : PublicKeyJwk} → new_jwk engine p ≡ ok q → collect_issues engine p ≡ []
  unfolding new_jwk validate_jwk
  new_jwk_issues p h = go (collect_issues engine p) h
    where
      go : (is : List ValidationIssue) {q : PublicKeyJwk} → (checked tt is >> ok p) ≡ ok q → is ≡ []
      go [] h = refl
      go (i ∷ is) h = cc

  accepted : (p : PublicKeyJwk) → collect_issues engine p ≡ [] → new_jwk engine p ≡ ok p
  unfolding new_jwk validate_jwk
  accepted p h = rw h refl

  new_jwk-eq : (p : PublicKeyJwk) {q : PublicKeyJwk} → new_jwk engine p ≡ ok q → q ≡ p
  unfolding new_jwk validate_jwk
  new_jwk-eq p h = go (collect_issues engine p) h
    where
      go : (is : List ValidationIssue) {q : PublicKeyJwk} → (checked tt is >> ok p) ≡ ok q → q ≡ p
      go [] h = cc
      go (i ∷ is) h = cc

  -- `PublicKeyJwk::new` accepts exactly the keys with no private part and one of these profiles:
  -- OKP keys over Ed25519, X25519 and BLS12-381 with no `y`, EC keys over Jubjub, P-256 and
  -- secp256k1 with both coordinates, each coordinate the canonical base64url of the length of its
  -- curve; and RSA and oct keys over any curve with any `y` and, unless over BLS12-381, where `x`
  -- is not looked at, an `x` of 32 bytes. What it accepts it returns as it was given.
  pub new_jwk_iff :
      (p q : PublicKeyJwk)
      → (new_jwk engine p ≡ ok q)
        ↔ ((q ≡ p) × (contains_key (codes "d") p.extensions ≡ false) × Profile p.kty p.crv p.x p.y)
  new_jwk_iff p q = (
    (λ h.
        let (d, r) = Profile-of_no_issues p.kty p.crv p.x p.y p.extensions (new_jwk_issues p h) in
        (new_jwk-eq p h, d, r)),
    (λ h.
        accepted p (no_issues_of_Profile p.kty p.crv p.x p.y p.extensions h.1 h.2)
        ∙ ap ok (sym h.0)),
  )
