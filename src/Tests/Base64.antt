-- ===== src/Tests/Base64.antt =====
-- A base64 engine, three bytes to four characters, that does what the `base64` crate documents.
use midnight_did_rs.Common.{
  ℕ, ◌+◌, ◌-◌, ◌*◌, ◌/◌, ◌%◌, ◌<◌, ◌≡◌, refl, ap, true, Option, none, some, Bool-cases, inl, inr,
  subst, cons_eq, [], ◌∷◌, Text, length, all, All, ltb, ◌==◌, if◌then◌else◌, arith,
}
use midnight_did_rs.Domain.Codecs.{Bytes, IsByte, Base64, IsBase64, is_base64url_byte}

-- The character of 6 bits, and the 6 bits of a character.
abbrev digit : ℕ → ℕ
digit v =
    if ltb v 26
    then v + 65
    else if ltb v 52
    then v + 71
    else if ltb v 62
    then v - 4
    else if v == 62
    then 45
    else 95

abbrev bits : ℕ → ℕ
bits c =
    if ltb c 46
    then 62
    else if ltb c 58
    then c + 4
    else if ltb c 91
    then c - 65
    else if c == 95
    then 63
    else c - 71

unfoldable pub encode_quads : Bytes → Text
encode_quads [] = []
encode_quads (a ∷ []) = digit (a / 4) ∷ digit (a % 4 * 16) ∷ []
encode_quads (a ∷ b ∷ []) = digit (a / 4) ∷ digit (a % 4 * 16 + b / 16) ∷ digit (b % 16 * 4) ∷ []
encode_quads (a ∷ b ∷ c ∷ bytes) =
    digit (a / 4)
    ∷ digit (a % 4 * 16 + b / 16)
    ∷ digit (b % 16 * 4 + c / 64)
    ∷ digit (c % 64)
    ∷ encode_quads bytes

unfoldable pub decode_quads : Text → Bytes
decode_quads [] = []
decode_quads (c ∷ []) = []
decode_quads (c ∷ d ∷ []) = (bits c * 4 + bits d / 16) % 256 ∷ []
decode_quads (c ∷ d ∷ e ∷ []) =
    (bits c * 4 + bits d / 16) % 256 ∷ (bits d % 16 * 16 + bits e / 4) % 256 ∷ []
decode_quads (c ∷ d ∷ e ∷ f ∷ s) =
    (bits c * 4 + bits d / 16) % 256
    ∷ (bits d % 16 * 16 + bits e / 4) % 256
    ∷ (bits e % 4 * 64 + bits f) % 256
    ∷ decode_quads s

unfoldable pub decode_text : Text → Option Bytes
decode_text s = if all is_base64url_byte s then some (decode_quads s) else none

abbrev pub base64 : Base64
base64 = record { encode = encode_quads; decode = decode_text }

bits-digit : (v : ℕ) → v < 64 → bits (digit v) ≡ v
bits-digit v h = ground arith

digit_alphabet : (v : ℕ) → v < 64 → is_base64url_byte (digit v) ≡ true
unfolding is_base64url_byte
digit_alphabet v h = ground arith

alphabet : (bytes : Bytes) → All IsByte bytes → all is_base64url_byte (encode_quads bytes) ≡ true
unfolding encode_quads
alphabet [] h = refl
alphabet (a ∷ []) h =
    rw (digit_alphabet (a / 4) (omega arith), digit_alphabet (a % 4 * 16) (omega arith)) refl
alphabet (a ∷ b ∷ []) h =
    rw
      (
        digit_alphabet (a / 4) (omega arith),
        digit_alphabet (a % 4 * 16 + b / 16) (omega arith),
        digit_alphabet (b % 16 * 4) (omega arith),
      )
      refl
alphabet (a ∷ b ∷ c ∷ bytes) h =
    rw
      (
        digit_alphabet (a / 4) (omega arith),
        digit_alphabet (a % 4 * 16 + b / 16) (omega arith),
        digit_alphabet (b % 16 * 4 + c / 64) (omega arith),
        digit_alphabet (c % 64) (omega arith),
      )
      (alphabet bytes h.1.1.1)

back : (bytes : Bytes) → All IsByte bytes → decode_quads (encode_quads bytes) ≡ bytes
unfolding encode_quads decode_quads
back [] h = refl
back (a ∷ []) h =
    rw (bits-digit (a / 4) (omega arith), bits-digit (a % 4 * 16) (omega arith))
      (ap (λ (x : ℕ). x ∷ []) (omega arith))
back (a ∷ b ∷ []) h =
    rw
      (
        bits-digit (a / 4) (omega arith),
        bits-digit (a % 4 * 16 + b / 16) (omega arith),
        bits-digit (b % 16 * 4) (omega arith),
      )
      (cons_eq (omega arith) (cons_eq (omega arith) refl))
back (a ∷ b ∷ c ∷ bytes) h =
    rw
      (
        bits-digit (a / 4) (omega arith),
        bits-digit (a % 4 * 16 + b / 16) (omega arith),
        bits-digit (b % 16 * 4 + c / 64) (omega arith),
        bits-digit (c % 64) (omega arith),
      )
      (cons_eq (omega arith) (cons_eq (omega arith) (cons_eq (omega arith) (back bytes h.1.1.1))))

decoded_bytes : (s : Text) → All IsByte (decode_quads s)
unfolding decode_quads
decoded_bytes [] = tt
decoded_bytes (c ∷ []) = tt
decoded_bytes (c ∷ d ∷ []) = omega arith
decoded_bytes (c ∷ d ∷ e ∷ []) = omega arith
decoded_bytes (c ∷ d ∷ e ∷ f ∷ s) = (omega arith, (omega arith, (omega arith, decoded_bytes s)))

long : (bytes : Bytes) → length (encode_quads bytes) ≡ (4 * length bytes + 2) / 3
unfolding encode_quads
long [] = omega arith
long (a ∷ []) = omega arith
long (a ∷ b ∷ []) = omega arith
long (a ∷ b ∷ c ∷ bytes) = omega (arith, long bytes)

pub base64-IsBase64 : IsBase64 base64
unfolding decode_text
base64-IsBase64 = record {
  decode-encode = λ bytes h. rw (alphabet bytes h, back bytes h) refl;
  encode_alphabet = alphabet;
  length-encode = λ bytes h. long bytes;
  decode_bytes = λ s bytes h. elim (Bool-cases (all is_base64url_byte s)) [
    | inl t ↦ subst (All IsByte) (ground arith) (decoded_bytes s)
    | inr f ↦ absurd (ground arith)
  ];
}
