-- ===== src/Method/Offchain/Frame/Reading.antt =====
-- What the frame's helpers read and write, in terms of the frame's layout.
use midnight_did_rs.Common.{
  ℕ, ◌≤◌, ◌≡◌, sym, ap, ◌∙◌, List, [], ◌∷◌, ◌++◌, append_assoc, append-nil, length, length-append,
  take, take-length-append, drop-length-append, All, ok, arith,
}
use midnight_did_rs.Domain.Codecs.{Bytes}
use midnight_did_rs.Domain.Codecs.Field.{be_value}
use midnight_did_rs.Method.Offchain.Frame.{
  u32_max, assert_u32, to_be_bytes, write_u32, slice, read_u32, write_chunks,
}

abbrev pub IsShort : Bytes → Type 0
IsShort chunk = length chunk ≤ u32_max

-- The chunks as they stand in a frame: each behind its length.
abbrev pub layout : List Bytes → Bytes
layout [] = []
layout (chunk ∷ chunks) = to_be_bytes (length chunk) ++ (chunk ++ layout chunks)

pub be_value-to_be_bytes : (n : ℕ) → n ≤ u32_max → be_value 0 (to_be_bytes n) ≡ n
be_value-to_be_bytes n h = omega arith

pub slice_at :
    (bytes front mid rest : Bytes)
    → bytes ≡ front ++ (mid ++ rest)
    → slice bytes (length front) (length mid) ≡ mid
slice_at bytes front mid rest e =
    ap (λ (b : Bytes). slice b (length front) (length mid)) e
    ∙ ap (λ (b : Bytes). take (length mid) b) (drop-length-append front (mid ++ rest))
    ∙ take-length-append mid rest

pub read_u32_at :
    (bytes front rest : Bytes) (n : ℕ)
    → n ≤ u32_max
    → bytes ≡ front ++ (to_be_bytes n ++ rest)
    → read_u32 bytes (length front) ≡ ok n
unfolding read_u32
read_u32_at bytes front rest n h e =
    let long = ap (λ (b : Bytes). length b) e ∙ length-append front (to_be_bytes n ++ rest) in
    let read =
      ap (be_value 0) (slice_at bytes front (to_be_bytes n) rest e) ∙ be_value-to_be_bytes n h in
    ground arith

-- What `write_chunks` appends.
pub write_chunks_lem :
    (out : Bytes) (chunks : List Bytes)
    → All IsShort chunks
    → write_chunks out chunks ≡ ok (out ++ layout chunks)
unfolding write_chunks assert_u32 write_u32
write_chunks_lem out [] h = ap ok (sym (append-nil out))
write_chunks_lem out (chunk ∷ chunks) (hc, h) =
    let more = write_chunks_lem ((out ++ to_be_bytes (length chunk)) ++ chunk) chunks h in
    let same =
      append_assoc (out ++ to_be_bytes (length chunk)) chunk (layout chunks)
      ∙ append_assoc out (to_be_bytes (length chunk)) (chunk ++ layout chunks) in
    ground arith

pub write_chunks_sound :
    (out : Bytes) (chunks : List Bytes) {frame : Bytes}
    → write_chunks out chunks ≡ ok frame
    → All IsShort chunks
unfolding write_chunks assert_u32
write_chunks_sound out [] h = tt
write_chunks_sound out (chunk ∷ chunks) {frame} h = (
  ground arith,
  write_chunks_sound (write_u32 out (length chunk) ++ chunk) chunks {frame = frame} (ground arith),
)
