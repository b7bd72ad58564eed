-- ===== src/Tests/Wire.antt =====
-- A format for contract calls that reads back what it writes.
use midnight_did_rs.Common.{
  ℕ, zero, suc, ◌≡◌, refl, ap, Option, none, some, [], ◌∷◌, Text, length, ◌==◌, if◌then◌else◌,
}
use midnight_did_rs.Domain.Codecs.{Bytes}
use midnight_did_rs.Domain.Jwk.{
  KeyType, ec, rsa, oct, okp, CurveType, ed25519, x25519, jubjub, p256, secp256k1, bls12381g1,
  bls12381g2, VerificationMethodType, json_web_key,
}
use midnight_did_rs.Runtime.HexCheck.{SchnorrJubjubDigest, SchnorrJubjubSignature}
use midnight_did_rs.Runtime.Ledger.{
  MapMutation, SetMutation, LedgerVerificationMethodRelation, LedgerPublicKeyJwk,
  LedgerVerificationMethod, LedgerSchnorrJubjubVerificationMethod, LedgerService,
}

-- Writing in front of some bytes, and reading from the front.
pub record Wire (A : Type 0) : Type 0 where
  pub put : A → Bytes → Bytes
  pub get : Bytes → Option (A × Bytes)
  pub get-put : (a : A) (rest : Bytes) → get (put a rest) ≡ some (a, rest)

abbrev pub onto :
    {A B : Type 0} → Option (A × Bytes) → (A → Bytes → Option (B × Bytes)) → Option (B × Bytes)
onto none k = none
onto (some (a, rest)) k = k a rest

abbrev pub first : Bytes → Option (ℕ × Bytes)
first [] = none
first (n ∷ rest) = some (n, rest)

abbrev pub number : Wire ℕ
number = record { put = λ n rest. n ∷ rest; get = first; get-put = λ n rest. refl }

abbrev pub both : {A B : Type 0} → Wire A → Wire B → Wire (A × B)
both {A} {B} v w = record {
  put = λ p rest. v.put p.0 (w.put p.1 rest);
  get = λ bytes. onto (v.get bytes) (λ a r. onto (w.get r) (λ b s. some ((a, b), s)));
  get-put = λ p rest. rw (v.get-put p.0 (w.put p.1 rest), w.get-put p.1 rest) refl;
}

-- Through a type that is written already.
abbrev pub through :
    {A B : Type 0} → Wire A → (f : B → A) → (g : A → B) → ((b : B) → g (f b) ≡ b) → Wire B
through w f g law = record {
  put = λ b rest. w.put (f b) rest;
  get = λ bytes. onto (w.get bytes) (λ a rest. some (g a, rest));
  get-put = λ b rest. rw (w.get-put (f b) rest) (ap (λ c. some (c, rest)) (law b));
}

unfoldable pub put_all : Text → Bytes → Bytes
put_all [] rest = rest
put_all (c ∷ s) rest = c ∷ put_all s rest

unfoldable pub get_all : ℕ → Bytes → Option (Text × Bytes)
get_all zero bytes = some ([], bytes)
get_all (suc n) [] = none
get_all (suc n) (c ∷ bytes) = onto (get_all n bytes) (λ s rest. some (c ∷ s, rest))

pub get-put_all : (s : Text) (rest : Bytes) → get_all (length s) (put_all s rest) ≡ some (s, rest)
unfolding get_all put_all
get-put_all [] rest = refl
get-put_all (c ∷ s) rest = rw (get-put_all s rest) refl

abbrev pub counted : Bytes → Option (Text × Bytes)
counted [] = none
counted (n ∷ rest) = get_all n rest

-- A text behind its length.
abbrev pub text : Wire Text
unfolding get_all put_all
text = record {
  put = λ s rest. length s ∷ put_all s rest;
  get = counted;
  get-put = λ s rest. get-put_all s rest;
}

abbrev pub kty_code : KeyType → ℕ
kty_code ec = 0
kty_code rsa = 1
kty_code oct = 2
kty_code okp = 3

abbrev pub kty_of : ℕ → KeyType
kty_of n = if n == 0 then ec else if n == 1 then rsa else if n == 2 then oct else okp

pub kty_law : (k : KeyType) → kty_of (kty_code k) ≡ k
kty_law ec = refl
kty_law rsa = refl
kty_law oct = refl
kty_law okp = refl

abbrev pub crv_code : CurveType → ℕ
crv_code ed25519 = 0
crv_code x25519 = 1
crv_code jubjub = 2
crv_code p256 = 3
crv_code secp256k1 = 4
crv_code bls12381g1 = 5
crv_code bls12381g2 = 6

abbrev pub crv_of : ℕ → CurveType
crv_of n =
    if n == 0
    then ed25519
    else if n == 1
    then x25519
    else if n == 2
    then jubjub
    else if n == 3
    then p256
    else if n == 4
    then secp256k1
    else if n == 5
    then bls12381g1
    else bls12381g2

pub crv_law : (c : CurveType) → crv_of (crv_code c) ≡ c
crv_law ed25519 = refl
crv_law x25519 = refl
crv_law jubjub = refl
crv_law p256 = refl
crv_law secp256k1 = refl
crv_law bls12381g1 = refl
crv_law bls12381g2 = refl

abbrev pub typ_code : VerificationMethodType → ℕ
typ_code VerificationMethodType.undefined = 0
typ_code json_web_key = 1

abbrev pub typ_of : ℕ → VerificationMethodType
typ_of n = if n == 0 then VerificationMethodType.undefined else json_web_key

pub typ_law : (t : VerificationMethodType) → typ_of (typ_code t) ≡ t
typ_law VerificationMethodType.undefined = refl
typ_law json_web_key = refl

abbrev pub relation_code : LedgerVerificationMethodRelation → ℕ
relation_code LedgerVerificationMethodRelation.undefined = 0
relation_code LedgerVerificationMethodRelation.authentication = 1
relation_code LedgerVerificationMethodRelation.assertion_method = 2
relation_code LedgerVerificationMethodRelation.key_agreement = 3
relation_code LedgerVerificationMethodRelation.capability_invocation = 4
relation_code LedgerVerificationMethodRelation.capability_delegation = 5

abbrev pub relation_of : ℕ → LedgerVerificationMethodRelation
relation_of n =
    if n == 0
    then LedgerVerificationMethodRelation.undefined
    else if n == 1
    then LedgerVerificationMethodRelation.authentication
    else if n == 2
    then LedgerVerificationMethodRelation.assertion_method
    else if n == 3
    then LedgerVerificationMethodRelation.key_agreement
    else if n == 4
    then LedgerVerificationMethodRelation.capability_invocation
    else LedgerVerificationMethodRelation.capability_delegation

pub relation_law : (r : LedgerVerificationMethodRelation) → relation_of (relation_code r) ≡ r
relation_law LedgerVerificationMethodRelation.undefined = refl
relation_law LedgerVerificationMethodRelation.authentication = refl
relation_law LedgerVerificationMethodRelation.assertion_method = refl
relation_law LedgerVerificationMethodRelation.key_agreement = refl
relation_law LedgerVerificationMethodRelation.capability_invocation = refl
relation_law LedgerVerificationMethodRelation.capability_delegation = refl

abbrev pub map_code : MapMutation → ℕ
map_code MapMutation.insert = 0
map_code MapMutation.update = 1

abbrev pub map_of : ℕ → MapMutation
map_of n = if n == 0 then MapMutation.insert else MapMutation.update

pub map_law : (m : MapMutation) → map_of (map_code m) ≡ m
map_law MapMutation.insert = refl
map_law MapMutation.update = refl

abbrev pub set_code : SetMutation → ℕ
set_code SetMutation.insert = 0
set_code SetMutation.remove = 1

abbrev pub set_of : ℕ → SetMutation
set_of n = if n == 0 then SetMutation.insert else SetMutation.remove

pub set_law : (m : SetMutation) → set_of (set_code m) ≡ m
set_law SetMutation.insert = refl
set_law SetMutation.remove = refl

abbrev pub map_mutation : Wire MapMutation
map_mutation = through number map_code map_of map_law

abbrev pub set_mutation : Wire SetMutation
set_mutation = through number set_code set_of set_law

abbrev pub relation : Wire LedgerVerificationMethodRelation
relation = through number relation_code relation_of relation_law

abbrev jwk : Wire LedgerPublicKeyJwk
jwk =
    through
      (both (through number kty_code kty_of kty_law)
        (both (through number crv_code crv_of crv_law) (both text text)))
      (λ k. (k.kty, (k.crv, (k.x, k.y))))
      (λ p. record { kty = p.0; crv = p.1.0; x = p.1.1.0; y = p.1.1.1 }) (λ k. refl)

abbrev pub method : Wire LedgerVerificationMethod
method =
    through (both text (both (through number typ_code typ_of typ_law) jwk))
      (λ m. (m.id, (m.typ, m.public_key_jwk)))
      (λ p. record { id = p.0; typ = p.1.0; public_key_jwk = p.1.1 }) (λ m. refl)

abbrev pub schnorr : Wire LedgerSchnorrJubjubVerificationMethod
schnorr =
    through (both text (both text text)) (λ m. (m.id, (m.public_key.x, m.public_key.y)))
      (λ p. record { id = p.0; public_key = record { x = p.1.0; y = p.1.1 } }) (λ m. refl)

abbrev pub service : Wire LedgerService
service =
    through (both text (both text text)) (λ s. (s.id, (s.typ, s.service_endpoint)))
      (λ p. record { id = p.0; typ = p.1.0; service_endpoint = p.1.1 }) (λ s. refl)

abbrev pub digest : Wire SchnorrJubjubDigest
digest =
    through (both (both text text) (both text text)) (λ d. ((d.limb0, d.limb1), (d.limb2, d.limb3)))
      (λ p. record { limb0 = p.0.0; limb1 = p.0.1; limb2 = p.1.0; limb3 = p.1.1 }) (λ d. refl)

abbrev pub signature : Wire SchnorrJubjubSignature
signature = through text (λ s. s.bytes_hex) (λ t. record { bytes_hex = t }) (λ s. refl)
