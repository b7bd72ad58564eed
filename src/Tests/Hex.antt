-- ===== src/Tests/Hex.antt =====
-- A hex codec that does what the `hex` crate documents.
use midnight_did_rs.Common.{
  ℕ, zero, suc, cons_eq, ◌+◌, ◌-◌, ◌*◌, ◌/◌, ◌%◌, ◌<◌, ◌≡◌, refl, ap, ◌∙◌, true, ◌&&◌, Option, none,
  some, [], ◌∷◌, Text, length, all, All, map, is_ascii_hexdigit, to_ascii_lowercase, ltb, ◌==◌,
  if◌then◌else◌, arith, &&-eq-true,
}
use midnight_did_rs.Domain.Codecs.{Bytes, IsByte}
use midnight_did_rs.Method.Hex.{HexCodec, IsHexCodec, is_lowercase_hexdigit}

abbrev digit : ℕ → ℕ
digit v = if ltb v 10 then v + 48 else v + 87

abbrev bits : ℕ → ℕ
bits c = if ltb c 58 then c - 48 else if ltb c 71 then c - 55 else c - 87

unfoldable pub encode_pairs : Bytes → Text
encode_pairs [] = []
encode_pairs (b ∷ bytes) = digit (b / 16) ∷ digit (b % 16) ∷ encode_pairs bytes

unfoldable pub decode_pairs : Text → Bytes
decode_pairs [] = []
decode_pairs (c ∷ []) = []
decode_pairs (c ∷ d ∷ s) = (bits c * 16 + bits d) ∷ decode_pairs s

unfoldable pub decode_hex : Text → Option Bytes
decode_hex s = if all is_ascii_hexdigit s && length s % 2 == 0 then some (decode_pairs s) else none

abbrev pub hex : HexCodec
hex = record { encode = encode_pairs; decode = decode_hex }

bits-digit : (v : ℕ) → v < 16 → bits (digit v) ≡ v
bits-digit v h = ground arith

digit_lower : (v : ℕ) → v < 16 → is_lowercase_hexdigit (digit v) ≡ true
digit_lower v h = ground arith

lower_hex : (c : ℕ) → is_lowercase_hexdigit c ≡ true → is_ascii_hexdigit c ≡ true
lower_hex c h = ground arith

bits_small : (c : ℕ) → is_ascii_hexdigit c ≡ true → bits c < 16
bits_small c h = ground arith

digit-bits : (c : ℕ) → is_ascii_hexdigit c ≡ true → digit (bits c) ≡ to_ascii_lowercase c
digit-bits c h = ground arith

digits : (bytes : Bytes) → All IsByte bytes → all is_lowercase_hexdigit (encode_pairs bytes) ≡ true
unfolding encode_pairs
digits [] h = refl
digits (b ∷ bytes) h =
    rw (digit_lower (b / 16) (omega arith), digit_lower (b % 16) (omega arith)) (digits bytes h.1)

hex_digits : (bytes : Bytes) → All IsByte bytes → all is_ascii_hexdigit (encode_pairs bytes) ≡ true
unfolding encode_pairs
hex_digits [] h = refl
hex_digits (b ∷ bytes) h =
    rw
      (
        lower_hex (digit (b / 16)) (digit_lower (b / 16) (omega arith)),
        lower_hex (digit (b % 16)) (digit_lower (b % 16) (omega arith)),
      )
      (hex_digits bytes h.1)

long : (bytes : Bytes) → length (encode_pairs bytes) ≡ 2 * length bytes
unfolding encode_pairs
long [] = refl
long (b ∷ bytes) = omega (arith, long bytes)

back : (bytes : Bytes) → All IsByte bytes → decode_pairs (encode_pairs bytes) ≡ bytes
unfolding encode_pairs decode_pairs
back [] h = refl
back (b ∷ bytes) h =
    rw (bits-digit (b / 16) (omega arith), bits-digit (b % 16) (omega arith))
      (cons_eq (omega arith) (back bytes h.1))

even : (l n : ℕ) → l ≡ 2 * n → (l % 2 == 0) ≡ true
even l n h = ground arith

Decoded : Text → ℕ → Type 0
Decoded s n =
    All IsByte (decode_pairs s)
    × (length (decode_pairs s) ≡ n)
    × (encode_pairs (decode_pairs s) ≡ map to_ascii_lowercase s)

decoded : (s : Text) (n : ℕ) → all is_ascii_hexdigit s ≡ true → length s ≡ 2 * n → Decoded s n
unfolding encode_pairs decode_pairs Decoded
decoded [] n h l = (tt, omega arith, refl)
decoded (c ∷ []) n h l = absurd (omega arith)
decoded (c ∷ d ∷ s) zero h l = absurd (omega arith)
decoded (c ∷ d ∷ s) (suc n) h l =
    let (hc, h1) = &&-eq-true (is_ascii_hexdigit c) _ h in
    let (hd, hs) = &&-eq-true (is_ascii_hexdigit d) (all is_ascii_hexdigit s) h1 in
    let (b, e, same) = decoded s n hs (omega arith) in
    let small_c = bits_small c hc in
    let small_d = bits_small d hd in
    let high : (bits c * 16 + bits d) / 16 ≡ bits c = omega (arith, small_c, small_d) in
    let low : (bits c * 16 + bits d) % 16 ≡ bits d = omega (arith, small_c, small_d) in
    (
      (omega (arith, small_c, small_d), b),
      ap suc e,
      cons_eq (ap digit high ∙ digit-bits c hc) (cons_eq (ap digit low ∙ digit-bits d hd) same),
    )

pub hex-IsHexCodec : IsHexCodec hex
unfolding decode_hex Decoded
hex-IsHexCodec = record {
  encode_digits = digits;
  length-encode = λ bytes h. long bytes;
  decode-encode = λ bytes h.
      let l = long bytes in
      rw (hex_digits bytes h, back bytes h, even (length (encode_pairs bytes)) (length bytes) l)
        refl;
  decode_total = λ s n h l.
      let (b, e, same) = decoded s n h l in
      (decode_pairs s, rw (h, even (length s) n l) refl, b, e, same);
}
