-- ===== src/Domain/Codecs/Field.antt =====
-- `decode_field_element` and `encode_field_element`: unsigned integers as big-endian bytes.
use midnight_did_rs.Common.{
  ℕ, zero, suc, ◌+◌, ◌*◌, ◌≡◌, ◌≢◌, refl, [], ◌∷◌, Text, All, ◌==◌, if◌then◌else◌, Result, ok,
  ◌>>=◌, arith,
}
use midnight_did_rs.Domain.Codecs.{
  Bytes, IsByte, Base64, IsBase64, CodecError, decode_base64url, encode_base64url,
}
use midnight_did_rs.Domain.Codecs.RoundTrip.{decode_base64url-encode}

-- The loop over `start`: leading zero bytes are dropped while another byte follows.
strip_zeros : Bytes → Bytes
strip_zeros [] = []
strip_zeros (b ∷ []) = b ∷ []
strip_zeros (b ∷ c ∷ bytes) =
    let rest = strip_zeros (c ∷ bytes) in if b == 0 then rest else b ∷ c ∷ bytes

module _ (engine : Base64) where
  unfoldable pub decode_field_element : Text → Result CodecError Bytes
  decode_field_element s = do bytes ← decode_base64url engine s; ok bytes

  unfoldable pub encode_field_element : Bytes → Text
  unfolding strip_zeros
  encode_field_element [] = encode_base64url engine (0 ∷ [])
  encode_field_element (b ∷ bytes) = encode_base64url engine (strip_zeros (b ∷ bytes))

-- The number that big-endian bytes stand for, behind the number `n` read so far.
abbrev pub be_value : ℕ → Bytes → ℕ
be_value n [] = n
be_value n (b ∷ bytes) = be_value (n * 256 + b) bytes

-- A zero byte comes first only where it is the only byte.
abbrev pub IsMinimal : Bytes → Type 0
IsMinimal [] = ⊥
IsMinimal (b ∷ []) = Unit {0}
IsMinimal (b ∷ c ∷ bytes) = b ≢ 0

-- One round of the loop.
strip_zeros-suc : (b c : ℕ) (bytes : Bytes) → strip_zeros (suc b ∷ c ∷ bytes) ≡ suc b ∷ c ∷ bytes
unfolding strip_zeros
strip_zeros-suc b c bytes = ground arith

strip_zeros-zero :
    (c : ℕ) (bytes : Bytes) → strip_zeros (zero ∷ c ∷ bytes) ≡ strip_zeros (c ∷ bytes)
unfolding strip_zeros
strip_zeros-zero c bytes = refl

be_value-strip_zeros : (bytes : Bytes) → be_value 0 (strip_zeros bytes) ≡ be_value 0 bytes
be_value-strip_zeros [] = unfold strip_zeros in refl
be_value-strip_zeros (b ∷ []) = unfold strip_zeros in refl
be_value-strip_zeros (zero ∷ c ∷ bytes) = rw strip_zeros-zero (be_value-strip_zeros (c ∷ bytes))
be_value-strip_zeros (suc b ∷ c ∷ bytes) = rw strip_zeros-suc

strip_zeros-IsMinimal : (b : ℕ) (bytes : Bytes) → IsMinimal (strip_zeros (b ∷ bytes))
strip_zeros-IsMinimal b [] = unfold strip_zeros in tt
strip_zeros-IsMinimal zero (c ∷ bytes) = rw strip_zeros-zero (strip_zeros-IsMinimal c bytes)
strip_zeros-IsMinimal (suc b) (c ∷ bytes) = rw strip_zeros-suc (omega arith)

strip_zeros-IsByte : (bytes : Bytes) → All IsByte bytes → All IsByte (strip_zeros bytes)
strip_zeros-IsByte [] h = unfold strip_zeros in tt
strip_zeros-IsByte (b ∷ []) h = unfold strip_zeros in h
strip_zeros-IsByte (zero ∷ c ∷ bytes) h = rw strip_zeros-zero (strip_zeros-IsByte (c ∷ bytes) h.1)
strip_zeros-IsByte (suc b ∷ c ∷ bytes) h = rw strip_zeros-suc h

module _ (engine : Base64) (lawful : IsBase64 engine) where
  -- With a base64 engine that does what its crate documents, an unsigned integer comes back from
  -- its field-element text with its value, in the shortest big-endian form; zero, also as no bytes
  -- at all, comes back as one zero byte.
  pub decode_field_element-encode :
      (bytes : Bytes)
      → All IsByte bytes
      → (shortest : Bytes) × (decode_field_element engine (encode_field_element engine bytes)
          ≡ ok shortest)
        × (be_value 0 shortest ≡ be_value 0 bytes)
        × IsMinimal shortest
  unfolding decode_field_element encode_field_element
  decode_field_element-encode [] h =
      (0 ∷ [], rw (decode_base64url-encode engine lawful (0 ∷ []) (omega arith)) refl, refl, tt)
  decode_field_element-encode (b ∷ bytes) h = (
    strip_zeros (b ∷ bytes),
    rw (decode_base64url-encode engine lawful _ (strip_zeros-IsByte (b ∷ bytes) h)) refl,
    be_value-strip_zeros (b ∷ bytes),
    strip_zeros-IsMinimal b bytes,
  )
