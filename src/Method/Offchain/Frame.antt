-- ===== src/Method/Offchain/Frame.antt =====
-- crates/midnight-did-method/src/offchain.rs: the MOD1 frame. `usize` sums cannot wrap, since
-- offsets stay within a slice and a length is below 2 ^ 32.
pub mod Reading
pub mod RoundTrip
pub mod Canonical
use midnight_did_rs.Common.{
  ℕ, zero, suc, ◌+◌, ◌-◌, ◌*◌, ◌/◌, ◌%◌, ◌^◌, Bool, true, false, not, List, [], ◌∷◌, ◌++◌, String,
  text_eq, length, take, drop, ltb, ◌==◌, if◌then◌else◌, Result, ok, err, ◌>>=◌, ◌>>◌, guard,
}
use midnight_did_rs.Domain.Codecs.{Bytes}
use midnight_did_rs.Domain.Codecs.Field.{be_value}
use midnight_did_rs.Method.Offchain.Errors.{
  OffchainError, overflow, short_frame, bad_magic, too_many_chunks, chunk_overflow, trailing_bytes,
}

-- "MOD1"
abbrev pub magic : Bytes
magic = 0x4d ∷ 0x4f ∷ 0x44 ∷ 0x31 ∷ []

abbrev pub header_length : ℕ
header_length = 8

abbrev pub chunk_length_bytes : ℕ
chunk_length_bytes = 4

abbrev pub u32_max : ℕ
u32_max = 0xffff_ffff

unfoldable pub assert_u32 : ℕ → String → Result OffchainError ℕ
assert_u32 value label = if ltb u32_max value then err (overflow label) else ok value

-- `u32::to_be_bytes`
abbrev pub to_be_bytes : ℕ → Bytes
to_be_bytes n = (n / 0x100_0000 % 256) ∷ (n / 0x1_0000 % 256) ∷ (n / 0x100 % 256) ∷ (n % 256) ∷ []

unfoldable pub write_u32 : Bytes → ℕ → Bytes
write_u32 target value = target ++ to_be_bytes value

-- `bytes[offset..offset + len]`
abbrev pub slice : Bytes → ℕ → ℕ → Bytes
slice bytes offset len = take len (drop offset bytes)

unfoldable pub read_u32 : Bytes → ℕ → Result OffchainError ℕ
read_u32 source offset =
    if ltb (length source) (offset + chunk_length_bytes)
    then err short_frame
    else ok (be_value 0 (slice source offset 4))

pub write_chunks : Bytes → List Bytes → Result OffchainError Bytes
write_chunks out [] = ok out
write_chunks out (chunk ∷ chunks) = do
  _ ← assert_u32 (length chunk) "chunk length"
  write_chunks (write_u32 out (length chunk) ++ chunk) chunks

unfoldable pub compact_value_to_bytes : List Bytes → Result OffchainError Bytes
unfolding assert_u32 write_u32 write_chunks
compact_value_to_bytes chunks = do
  _ ← assert_u32 (length chunks) "chunk count"
  write_chunks (write_u32 magic (length chunks)) chunks

-- The rounds left, the offset and the chunks read so far.
pub read_chunks : Bytes → ℕ → ℕ → List Bytes → Result OffchainError (List Bytes × ℕ)
read_chunks bytes zero offset chunks = ok (chunks, offset)
read_chunks bytes (suc rounds) offset chunks = do
  len ← read_u32 bytes offset
  let body = offset + chunk_length_bytes
  guard (not (ltb (length bytes) (body + len))) chunk_overflow
  read_chunks bytes rounds (body + len) (chunks ++ slice bytes body len ∷ [])

-- The check behind the loop.
pub finish : Bytes → List Bytes × ℕ → Result OffchainError (List Bytes)
finish bytes (chunks, offset) = do guard (offset == length bytes) trailing_bytes; ok chunks

unfoldable pub compact_value_from_bytes : Bytes → Result OffchainError (List Bytes)
unfolding read_u32 read_chunks finish
compact_value_from_bytes bytes = do
  guard (not (ltb (length bytes) header_length)) short_frame
  guard (text_eq (take 4 bytes) magic) bad_magic
  chunk_count ← read_u32 bytes 4
  guard (not (ltb ((length bytes - header_length) / chunk_length_bytes) chunk_count))
      too_many_chunks
  read ← read_chunks bytes chunk_count header_length []
  finish bytes read
