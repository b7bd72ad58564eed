-- ===== src/Method/Offchain/Frame/Canonical.antt =====
-- A frame that is read is the one that writing its chunks gives.
use midnight_did_rs.Common.{
  ℕ, zero, suc, ◌+◌, ◌≤◌, ◌≡◌, ◌↔◌, refl, sym, ap, ap₂, ◌∙◌, subst, List, [], ◌∷◌, ◌++◌,
  append_assoc, append-nil, text_eq_sound, length, take, drop, take-append-drop, length-drop,
  length-take, All, All-append, ◌≢◌, All-take, All-drop, drop_split, drop-length, ok, arith,
  Result-cases, ok-injective, inl, inr,
}
use midnight_did_rs.Domain.Codecs.{Bytes, IsByte}
use midnight_did_rs.Domain.Codecs.Field.{be_value}
use midnight_did_rs.Method.Offchain.Frame.{
  magic, u32_max, to_be_bytes, slice, read_u32, read_chunks, compact_value_to_bytes,
  compact_value_from_bytes,
}
use midnight_did_rs.Method.Offchain.Frame.Reading.{IsShort, layout}
use midnight_did_rs.Method.Offchain.Frame.RoundTrip.{
  frame_of, compact_value_to_bytes_lem, compact_value_to_bytes_sound, compact_value_from_frame,
}

four_bytes :
    (s : Bytes)
    → All IsByte s
    → length s ≡ 4
    → (to_be_bytes (be_value 0 s) ≡ s) × (be_value 0 s ≤ u32_max)
four_bytes (a ∷ b ∷ c ∷ d ∷ []) h l = (ground arith, omega arith)
four_bytes [] h l = absurd (omega arith)
four_bytes (a ∷ []) h l = absurd (omega arith)
four_bytes (a ∷ b ∷ []) h l = absurd (omega arith)
four_bytes (a ∷ b ∷ c ∷ []) h l = absurd (omega arith)
four_bytes (a ∷ b ∷ c ∷ d ∷ e ∷ s) h l = absurd (omega arith)

read_u32_sound :
    (bytes : Bytes) (offset : ℕ) {n : ℕ}
    → All IsByte bytes
    → read_u32 bytes offset ≡ ok n
    → (offset + 4 ≤ length bytes)
      × (n ≤ u32_max)
      × (drop offset bytes ≡ to_be_bytes n ++ drop (offset + 4) bytes)
unfolding read_u32
read_u32_sound bytes offset {n} b h =
    let room : offset + 4 ≤ length bytes = ground arith in
    let value : be_value 0 (slice bytes offset 4) ≡ n = ground arith in
    let len : length (slice bytes offset 4) ≡ 4 =
      length-take 4 (drop offset bytes) (omega (arith, length-drop offset bytes)) in
    let (same, small) =
      four_bytes (slice bytes offset 4)
        (All-take IsByte 4 (drop offset bytes) (All-drop IsByte offset bytes b)) len in
    (
      room,
      omega arith,
      drop_split offset 4 bytes
          ∙ ap (λ (t : Bytes). t ++ drop (offset + 4) bytes)
              (sym same ∙ ap (λ (k : ℕ). to_be_bytes k) value),
    )

-- What the loop read: chunks laid out from the offset on, up to where it ended.
abbrev Read : Bytes → ℕ → ℕ → List Bytes → List Bytes → ℕ → Type 0
Read bytes rounds offset acc chunks final =
    (new : List Bytes) × (chunks ≡ acc ++ new)
    × (length new ≡ rounds)
    × All IsShort new
    × (drop offset bytes ≡ layout new ++ drop final bytes)

read_chunks_sound :
    (bytes : Bytes) (rounds offset : ℕ) (acc chunks : List Bytes) (final : ℕ)
    → All IsByte bytes
    → read_chunks bytes rounds offset acc ≡ ok (chunks, final)
    → Read bytes rounds offset acc chunks final
unfolding read_chunks
read_chunks_sound bytes zero offset acc chunks final b h =
    let same : (acc ≡ chunks) × (offset ≡ final) = ground arith in
    ([], sym same.0 ∙ sym (append-nil acc), refl, tt, ap (λ (k : ℕ). drop k bytes) same.1)
read_chunks_sound bytes (suc rounds) offset acc chunks final b h =
    elim (Result-cases (read_u32 bytes offset)) [
      | inr (e, r) ↦ absurd (ground arith)
      | inl (len, r) ↦
          let (room, small, head) = read_u32_sound bytes offset b r in
          let fits : offset + 4 + len ≤ length bytes = ground arith in
          let chunk = slice bytes (offset + 4) len in
          let size : length chunk ≡ len =
            length-take len (drop (offset + 4) bytes)
              (omega (arith, length-drop (offset + 4) bytes)) in
          let (new, e, n, s, d) =
            read_chunks_sound bytes rounds (offset + 4 + len) (acc ++ chunk ∷ []) chunks final b
              (ground arith) in
          (
            chunk ∷ new,
            e ∙ append_assoc acc (chunk ∷ []) new,
            omega arith,
            (omega arith, s),
            head
                ∙ ap₂ (λ (k : ℕ) (t : Bytes). to_be_bytes k ++ t) (sym size)
                    (drop_split (offset + 4) len bytes
                      ∙ ap (λ (t : Bytes). chunk ++ t) d
                      ∙ sym (append_assoc chunk (layout new) (drop final bytes))),
          )
    ]

from_bytes_sound :
    (bytes : Bytes) (chunks : List Bytes)
    → All IsByte bytes
    → compact_value_from_bytes bytes ≡ ok chunks
    → (length chunks ≤ u32_max) × All IsShort chunks × (frame_of chunks ≡ bytes)
unfolding compact_value_from_bytes
from_bytes_sound bytes chunks b h = elim (Result-cases (read_u32 bytes 4)) [
  | inr (e, r) ↦ absurd (ground arith)
  | inl (count, r) ↦ elim (Result-cases (read_chunks bytes count 8 [])) [
    | inr (e, l) ↦ absurd (ground arith)
    | inl ((read, final), l) ↦
        let tag : take 4 bytes ≡ magic = ground (arith, text_eq_sound (take 4 bytes) magic) in
        let same : (read ≡ chunks) × (final ≡ length bytes) = ground arith in
        let (room, small, head) = read_u32_sound bytes 4 b r in
        let (new, e, n, s, d) = read_chunks_sound bytes count 8 [] read final b l in
        let rest =
          d
          ∙ ap (λ (k : ℕ). layout new ++ drop k bytes) same.1
          ∙ ap (λ (t : Bytes). layout new ++ t) (drop-length bytes)
          ∙ append-nil (layout new) in
        let whole =
          sym (take-append-drop 4 bytes)
          ∙ ap₂ (λ (u v : Bytes). u ++ v) tag
              (head ∙ ap₂ (λ (k : ℕ) (t : Bytes). to_be_bytes k ++ t) (sym n) rest) in
        subst (λ (cs : List Bytes). (length cs ≤ u32_max) × All IsShort cs × (frame_of cs ≡ bytes))
          (sym (sym same.0 ∙ e)) (omega arith, s, sym whole)
  ]
]

-- Writing chunks as a MOD1 frame and reading a frame are inverse: bytes are read as some chunks
-- exactly if writing those chunks gives the bytes. So a frame that was written is read back, and
-- no two byte strings hold the same chunks.
pub compact_value_from_bytes_iff :
    (bytes : Bytes) (chunks : List Bytes)
    → All IsByte bytes
    → (compact_value_from_bytes bytes ≡ ok chunks) ↔ (compact_value_to_bytes chunks ≡ ok bytes)
compact_value_from_bytes_iff bytes chunks b = (
  (λ h.
      let (c, s, e) = from_bytes_sound bytes chunks b h in
      compact_value_to_bytes_lem chunks c s ∙ ap ok e),
  (λ h.
      let (c, s) = compact_value_to_bytes_sound chunks h in
      let e = frame-eq chunks c s h in
      subst (λ (t : Bytes). compact_value_from_bytes t ≡ ok chunks) e
        (compact_value_from_frame chunks c s)),
)
  where
    frame-eq :
        (chunks : List Bytes) {bytes : Bytes}
        → length chunks ≤ u32_max
        → All IsShort chunks
        → compact_value_to_bytes chunks ≡ ok bytes
        → frame_of chunks ≡ bytes
    frame-eq chunks c s h = ok-injective (sym (compact_value_to_bytes_lem chunks c s) ∙ h)

to_be_bytes-IsByte : (n : ℕ) → All IsByte (to_be_bytes n)
to_be_bytes-IsByte n = omega arith

layout-IsByte : (chunks : List Bytes) → All (All IsByte) chunks → All IsByte (layout chunks)
layout-IsByte [] h = tt
layout-IsByte (chunk ∷ chunks) (hc, h) =
    All-append IsByte (to_be_bytes (length chunk)) (chunk ++ layout chunks)
      (to_be_bytes-IsByte (length chunk))
      (All-append IsByte chunk (layout chunks) hc (layout-IsByte chunks h))

-- A frame of chunks of bytes is bytes, and not empty.
pub compact_value_to_bytes-IsByte :
    (chunks : List Bytes) (frame : Bytes)
    → All (All IsByte) chunks
    → compact_value_to_bytes chunks ≡ ok frame
    → All IsByte frame × (frame ≢ [])
compact_value_to_bytes-IsByte chunks frame b h =
    let (c, s) = compact_value_to_bytes_sound chunks h in
    let same = ok-injective (sym (compact_value_to_bytes_lem chunks c s) ∙ h) in
    (
      subst (All IsByte) same (
          All-append IsByte magic (to_be_bytes (length chunks) ++ layout chunks) (omega arith) (
            All-append IsByte (to_be_bytes (length chunks)) (layout chunks)
              (to_be_bytes-IsByte (length chunks)) (layout-IsByte chunks b))),
      λ n. cc (same, n),
    )
