-- ===== src/Method/Offchain/Frame/RoundTrip.antt =====
-- Writing a frame and reading it are inverse to one another.
use midnight_did_rs.Common.{
  ℕ, suc, ◌+◌, ◌*◌, ◌≤◌, ◌≡◌, refl, sym, ap, ◌∙◌, List, [], ◌∷◌, ◌++◌, append_assoc, append-nil,
  text_eq_refl, length, length-append, All, ok, arith,
}
use midnight_did_rs.Domain.Codecs.{Bytes}
use midnight_did_rs.Method.Offchain.Frame.{
  magic, u32_max, to_be_bytes, write_u32, slice, read_u32, read_chunks, compact_value_to_bytes,
  compact_value_from_bytes,
}
use midnight_did_rs.Method.Offchain.Frame.Reading.{
  IsShort, layout, slice_at, read_u32_at, write_chunks_lem, write_chunks_sound,
}

read_step :
    (bytes chunk : Bytes) (rounds offset len : ℕ) (acc : List Bytes)
    → read_u32 bytes offset ≡ ok len
    → slice bytes (offset + 4) len ≡ chunk
    → offset + 4 + len ≤ length bytes
    → read_chunks bytes (suc rounds) offset acc
      ≡ read_chunks bytes rounds (offset + 4 + len) (acc ++ chunk ∷ [])
unfolding read_chunks
read_step bytes chunk rounds offset len acc r s h = ground arith

-- The loop reads back what stands at its offset.
read_layout :
    (bytes front : Bytes) (chunks acc : List Bytes) (offset : ℕ)
    → All IsShort chunks
    → bytes ≡ front ++ layout chunks
    → offset ≡ length front
    → read_chunks bytes (length chunks) offset acc ≡ ok (acc ++ chunks, length bytes)
read_layout bytes front [] acc offset h e o =
    let long = ap (λ (b : Bytes). length b) (e ∙ append-nil front) in
    unfold read_chunks in (ap ok (λ i. (sym (append-nil acc) i, (o ∙ sym long) i)))
read_layout bytes front (chunk ∷ chunks) acc offset (hc, h) e o =
    let here = front ++ to_be_bytes (length chunk) in
    let e' = e ∙ sym (append_assoc front (to_be_bytes (length chunk)) (chunk ++ layout chunks)) in
    let e'' = e' ∙ sym (append_assoc here chunk (layout chunks)) in
    let long = ap (λ (b : Bytes). length b) e'' ∙ length-append (here ++ chunk) (layout chunks) in
    let n = length-append here chunk in
    let m = length-append front (to_be_bytes (length chunk)) in
    let read : read_u32 bytes offset ≡ ok (length chunk) =
      rw o (read_u32_at bytes front (chunk ++ layout chunks) (length chunk) hc e) in
    let after : offset + 4 ≡ length here = omega arith in
    let cut : slice bytes (offset + 4) (length chunk) ≡ chunk =
      rw after (slice_at bytes here chunk (layout chunks) e') in
    let rest =
      read_layout bytes (here ++ chunk) chunks (acc ++ chunk ∷ []) (offset + 4 + length chunk) h e''
        (omega arith) in
    read_step bytes chunk (length chunks) offset (length chunk) acc read cut (omega arith)
    ∙ rest
    ∙ ap (λ (t : List Bytes). ok (t, length bytes)) (append_assoc acc (chunk ∷ []) chunks)

layout_room : (chunks : List Bytes) → 4 * length chunks ≤ length (layout chunks)
layout_room [] = omega arith
layout_room (chunk ∷ chunks) =
    omega (arith, layout_room chunks, length-append chunk (layout chunks))

-- The whole frame, of a count of chunks that fits 32 bits.
abbrev pub frame_of : List Bytes → Bytes
frame_of chunks = magic ++ (to_be_bytes (length chunks) ++ layout chunks)

pub compact_value_to_bytes_lem :
    (chunks : List Bytes)
    → length chunks ≤ u32_max
    → All IsShort chunks
    → compact_value_to_bytes chunks ≡ ok (frame_of chunks)
unfolding compact_value_to_bytes
compact_value_to_bytes_lem chunks c h =
    let wrote = write_chunks_lem (write_u32 magic (length chunks)) chunks h in ground arith

pub compact_value_to_bytes_sound :
    (chunks : List Bytes) {frame : Bytes}
    → compact_value_to_bytes chunks ≡ ok frame
    → (length chunks ≤ u32_max) × All IsShort chunks
unfolding compact_value_to_bytes
compact_value_to_bytes_sound chunks {frame} h = (
  ground arith,
  write_chunks_sound (write_u32 magic (length chunks)) chunks {frame = frame} (ground arith),
)

pub compact_value_from_frame :
    (chunks : List Bytes)
    → length chunks ≤ u32_max
    → All IsShort chunks
    → compact_value_from_bytes (frame_of chunks) ≡ ok chunks
unfolding compact_value_from_bytes
compact_value_from_frame chunks c h =
    let frame = frame_of chunks in
    let room = layout_room chunks in
    let same = text_eq_refl magic in
    let count : read_u32 frame 4 ≡ ok (length chunks) =
      read_u32_at frame magic (layout chunks) (length chunks) c refl in
    let loop = read_layout frame (magic ++ to_be_bytes (length chunks)) chunks [] 8 h refl refl in
    ground arith
