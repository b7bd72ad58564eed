-- ===== src/Method/Did/Subject.antt =====
-- Accepted DID strings decompose into a network and a subject, from which they are built again.
use midnight_did_rs.Common.{
  ◌<◌, ◌≡◌, ◌⊎◌, inl, inr, refl, sym, ap, ◌∙◌, subst, true, List, [], ◌∷◌, ◌++◌, Text, codes, split,
  str_len, str_len-ascii, map, length, all, All, is_ascii_hexdigit, to_ascii_lowercase, ok, ◌==◌,
  arith, &&-eq-true,
}
use mathlib.Core.List.{map-append}
use mathlib.Core.Path.{ap₂}
use midnight_did_rs.Method.Network.{MidnightNetwork, offchain, undeployed, as_wire_str}
use midnight_did_rs.Method.Network.Mapping.{from_wire_str-as_wire_str}
use midnight_did_rs.Method.Hex.{
  HexCodec, IsHexCodec, HashOutput, ContractAddress, IsHash, is_lowercase_hexdigit, hash_from_hex,
  hash_to_hex, address_from_hex, address_to_hex,
}
use midnight_did_rs.Method.Did.{
  MidnightSubjectId, contract, offchain_state, MidnightDidString, is_hex64, is_lowercase_hex64,
  create_midnight_did_string, parse_midnight_did_string, parse_midnight_did, subject_to_hex,
  parse_subject,
}
use midnight_did_rs.Method.Did.Parsing.{
  IsMidnightDid, parse_midnight_did_string_sound, split-prefix,
}
use midnight_did_rs.Method.Did.Building.{short_parts, long_parts, long_text, is_hex64_of_lower}

pub hex_ascii : (s : Text) → all is_ascii_hexdigit s ≡ true → All (λ c. c < 128) s
hex_ascii [] h = tt
hex_ascii (c ∷ s) h = (ground arith, hex_ascii s (ground arith))

pub hex64_length :
    (s : Text) → is_hex64 s ≡ true → (length s ≡ 64) × (all is_ascii_hexdigit s ≡ true)
unfolding is_hex64
hex64_length s h =
    let (a, b) = &&-eq-true (str_len s == 64) (all is_ascii_hexdigit s) h in
    let l = str_len-ascii s (hex_ascii s b) in (ground arith, b)

lowered_hex :
    (s : Text)
    → all is_ascii_hexdigit s ≡ true
    → all is_ascii_hexdigit (map to_ascii_lowercase s) ≡ true
lowered_hex [] h = refl
lowered_hex (c ∷ s) h = ground (arith, lowered_hex s)

length-lowered : (s : Text) → length (map to_ascii_lowercase s) ≡ length s
length-lowered [] = refl
length-lowered (c ∷ s) = omega (arith, length-lowered s)

lowered_twice :
    (s : Text) → map to_ascii_lowercase (map to_ascii_lowercase s) ≡ map to_ascii_lowercase s
lowered_twice [] = refl
lowered_twice (c ∷ s) = ground (arith, lowered_twice s)

pub lowercase_same : (s : Text) → all is_lowercase_hexdigit s ≡ true → map to_ascii_lowercase s ≡ s
lowercase_same [] h = refl
lowercase_same (c ∷ s) h = ground (arith, lowercase_same s)

pub lower_digits : (id : Text) → is_lowercase_hex64 id ≡ true → all is_lowercase_hexdigit id ≡ true
unfolding is_lowercase_hex64
lower_digits id l = (&&-eq-true _ _ l).1

module _ (hex : HexCodec) (lawful : IsHexCodec hex) where
  -- 64 hex digits are the hash whose hex they are, in lower case.
  abbrev pub HexOf : Text → HashOutput → Type 0
  HexOf s h = IsHash h × (hash_to_hex hex h ≡ map to_ascii_lowercase s)

  hash_total :
      (s : Text) → is_hex64 s ≡ true → (h : HashOutput) × (hash_from_hex hex s ≡ ok h) × HexOf s h
  unfolding hash_from_hex hash_to_hex
  hash_total s h =
      let (l, d) = hex64_length s h in
      let (bytes, e, b, n, back) = lawful.decode_total s 32 d (omega arith) in
      let w = str_len-ascii s (hex_ascii s d) in
      (record { bytes = bytes }, ground arith, ((b, n), back))

  lowered_hex64 : (s : Text) → is_hex64 s ≡ true → is_hex64 (map to_ascii_lowercase s) ≡ true
  unfolding is_hex64
  lowered_hex64 s h =
      let (l, d) = hex64_length s h in
      let d' = lowered_hex s d in
      let w = str_len-ascii (map to_ascii_lowercase s) (hex_ascii (map to_ascii_lowercase s) d') in
      ground (arith, length-lowered s)

  pub address_total :
      (s : Text)
      → is_hex64 s ≡ true
      → (a : ContractAddress) × (address_from_hex hex (map to_ascii_lowercase s) ≡ ok a)
        × HexOf s a.hash
  unfolding address_from_hex
  address_total s h =
      let (hash, e, both) = hash_total (map to_ascii_lowercase s) (lowered_hex64 s h) in
      (record { hash = hash }, rw e refl, (both.0, both.1 ∙ lowered_twice s))

  -- The subject of accepted parts, whose hex is the identifier in lower case.
  subject_total :
      (n : MidnightNetwork) (id : Text)
      → is_hex64 id ≡ true
      → (s : MidnightSubjectId) × (parse_subject hex n id ≡ ok s)
        × (subject_to_hex hex s ≡ map to_ascii_lowercase id)
  unfolding parse_subject subject_to_hex
  subject_total offchain id h =
      let (hash, e, both) = hash_total id h in (offchain_state hash, rw e refl, both.1)
  subject_total _ id h =
      let (a, e, both) = address_total id h in
      (contract a, rw e refl, unfold address_to_hex in both.1)

  pub decompose :
      (n : MidnightNetwork) (id : Text) (rest : List Text) (d : MidnightDidString)
      → split b':' d.value ≡ codes "did" ∷ codes "midnight" ∷ as_wire_str n ∷ id ∷ rest
      → {s : MidnightSubjectId} → parse_subject hex n id ≡ ok s
      → parse_midnight_did hex d ≡ ok (n, s)
  unfolding parse_midnight_did
  decompose n id rest d e h = rw (e, from_wire_str-as_wire_str n) (rw h refl)

  -- The text that a network and a subject stand for, up to the case of the hex digits, or the text
  -- itself with a state behind it.
  abbrev pub Spells : Text → MidnightNetwork → MidnightSubjectId → Type 0
  Spells input n s =
      (map to_ascii_lowercase input ≡ (create_midnight_did_string (subject_to_hex hex s) n).value)
      ⊎ ((state : Text) × (input
            ≡ (create_midnight_did_string (subject_to_hex hex s) n).value ++ b':' ∷ state))

  pub short_split :
      (n : MidnightNetwork) (id : Text)
      → is_hex64 id ≡ true
      → split b':' (create_midnight_did_string id n).value
        ≡ codes "did" ∷ codes "midnight" ∷ as_wire_str n ∷ id ∷ []
  unfolding create_midnight_did_string
  short_split n id h =
      split-prefix (as_wire_str n ++ b':' ∷ id)
      ∙ ap (λ (t : List Text). codes "did" ∷ codes "midnight" ∷ t) (short_parts n id h)

  short_spells :
      (n : MidnightNetwork) (id hexed : Text)
      → hexed ≡ map to_ascii_lowercase id
      → map to_ascii_lowercase (create_midnight_did_string id n).value
        ≡ (create_midnight_did_string hexed n).value
  unfolding create_midnight_did_string
  short_spells n id hexed e =
      ap (λ (t : Text). codes "did:midnight:" ++ t)
        (map-append to_ascii_lowercase (as_wire_str n) (b':' ∷ id)
          ∙ ap₂ (λ (u v : Text). u ++ b':' ∷ v) (lower_name n) (sym e))
    where
      lower_name : (n : MidnightNetwork) → map to_ascii_lowercase (as_wire_str n) ≡ as_wire_str n
      lower_name undeployed = unfold as_wire_str in refl
      lower_name _ = unfold as_wire_str in refl

  total :
      (d : MidnightDidString)
      → IsMidnightDid d.value
      → (n : MidnightNetwork) × (s : MidnightSubjectId) × (parse_midnight_did hex d ≡ ok (n, s))
        × Spells d.value n s
  total d (inl (n, id, h, l, e)) =
      let (s, p, back) = subject_total n id h in
      (
        n,
        s,
        decompose n id [] d (ap (split b':') e ∙ short_split n id h) p,
        inl (ap (map to_ascii_lowercase) e ∙ short_spells n id (subject_to_hex hex s) back),
      )
  total d (inr (id, state, l, g, e)) =
      let (s, p, back) = subject_total offchain id (is_hex64_of_lower id l) in
      (
        offchain,
        s,
        decompose offchain id (state ∷ []) d
            (ap (split b':') (e ∙ long_text id state)
              ∙ split-prefix (as_wire_str offchain ++ b':' ∷ (id ++ b':' ∷ state))
              ∙ ap (λ (t : List Text). codes "did" ∷ codes "midnight" ∷ t)
                  (long_parts offchain id state (is_hex64_of_lower id l) g))
            p,
        inr (
          state,
          e
              ∙ ap (λ (t : Text). (create_midnight_did_string t offchain).value ++ b':' ∷ state)
                  (sym (back ∙ lowercase_same id (lower_digits id l))),
        ),
      )

  -- With a hex codec that does what its crate documents, every DID string that the parser accepted
  -- decomposes: `parse_midnight_did` returns a network and a subject, and building their DID gives
  -- the string back in lower case, or the string is what is built with a state segment behind it.
  pub parse_midnight_did_total :
      (input : Text) (d : MidnightDidString)
      → parse_midnight_did_string input ≡ ok d
      → (n : MidnightNetwork) × (s : MidnightSubjectId) × (parse_midnight_did hex d ≡ ok (n, s))
        × Spells input n s
  parse_midnight_did_total input d h =
      let (same, did) = parse_midnight_did_string_sound input h in
      let (n, s, p, r) = total d (subst IsMidnightDid (sym same) did) in
      (n, s, p, subst (λ (t : Text). Spells t n s) same r)
