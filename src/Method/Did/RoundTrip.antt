-- ===== src/Method/Did/RoundTrip.antt =====
-- Building the DID string of a subject and parsing it again.
use midnight_did_rs.Common.{
  ◌≡◌, refl, true, false, [], Text, str_len-ascii, map, to_ascii_lowercase, ok, err, arith,
}
use midnight_did_rs.Method.Network.{MidnightNetwork}
use midnight_did_rs.Method.Hex.{
  HexCodec, IsHexCodec, HashOutput, ContractAddress, IsHash, hash_from_hex, hash_to_hex,
  address_from_hex, address_to_hex,
}
use midnight_did_rs.Method.Did.{
  MidnightSubjectId, contract, offchain_state, is_hex64, is_lowercase_hex64, is_offchain,
  create_midnight_did_string, parse_midnight_did_string, parse_midnight_did, parse_contract_address,
  subject_to_hex, parse_subject, bad_contract_address,
}
use midnight_did_rs.Method.Did.Building.{accept_short, is_hex64_of_lower, lower-upper}
use midnight_did_rs.Method.Did.Subject.{
  hex_ascii, decompose, short_split, lowercase_same, lower_digits, address_total,
}

-- The network that a subject can be on, and the 32 bytes of its hash.
abbrev pub Fits : MidnightNetwork → MidnightSubjectId → Type 0
Fits n (contract a) = (is_offchain n ≡ false) × IsHash a.hash
Fits n (offchain_state h) = (is_offchain n ≡ true) × IsHash h

module _ (hex : HexCodec) (lawful : IsHexCodec hex) where
  pub encoded_lower : (h : HashOutput) → IsHash h → is_lowercase_hex64 (hash_to_hex hex h) ≡ true
  unfolding is_lowercase_hex64 hash_to_hex
  encoded_lower h (b, n) =
      let d = lawful.encode_digits h.bytes b in
      let w =
        str_len-ascii (hex.encode h.bytes)
          (hex_ascii (hex.encode h.bytes) (lower-upper (hex.encode h.bytes) d)) in
      ground (arith, lawful.length-encode h.bytes b)

  pub hash_from-to : (h : HashOutput) → IsHash h → hash_from_hex hex (hash_to_hex hex h) ≡ ok h
  unfolding hash_from_hex hash_to_hex is_lowercase_hex64
  hash_from-to h (b, n) =
      let e = lawful.decode-encode h.bytes b in ground (arith, encoded_lower h (b, n))

  subject_lower :
      (n : MidnightNetwork) (s : MidnightSubjectId)
      → Fits n s
      → is_lowercase_hex64 (subject_to_hex hex s) ≡ true
  unfolding subject_to_hex address_to_hex
  subject_lower n (contract a) (o, h) = encoded_lower a.hash h
  subject_lower n (offchain_state h) (o, w) = encoded_lower h w

  parse_subject-to_hex :
      (n : MidnightNetwork) (s : MidnightSubjectId)
      → Fits n s
      → parse_subject hex n (subject_to_hex hex s) ≡ ok s
  unfolding parse_subject subject_to_hex address_from_hex address_to_hex
  parse_subject-to_hex n (contract a) (o, h) =
      rw
        (
          o,
          lowercase_same (hash_to_hex hex a.hash)
              (lower_digits (hash_to_hex hex a.hash) (encoded_lower a.hash h)),
          hash_from-to a.hash h,
        )
        refl
  parse_subject-to_hex n (offchain_state h) (o, w) = rw (o, hash_from-to h w) refl

  -- With a hex codec that does what its crate documents, the DID string built for a contract
  -- address of 32 bytes on a network other than `offchain`, or for a state hash of 32 bytes on
  -- `offchain`, passes the parser unchanged and decomposes into that network and subject.
  pub parse_midnight_did-create :
      (n : MidnightNetwork) (s : MidnightSubjectId)
      → Fits n s
      → let did = create_midnight_did_string (subject_to_hex hex s) n in
        (parse_midnight_did_string did.value ≡ ok did) × (parse_midnight_did hex did ≡ ok (n, s))
  parse_midnight_did-create n s fits =
      let id = subject_to_hex hex s in
      let lower = subject_lower n s fits in
      let hexed = is_hex64_of_lower id lower in
      (
        accept_short n id hexed (λ _. lower),
        decompose hex lawful n id [] (create_midnight_did_string id n)
            (short_split hex lawful n id hexed) (parse_subject-to_hex n s fits),
      )

  -- With a hex codec that does what its crate documents, `parse_contract_address` accepts exactly
  -- the texts of 64 hex digits, in either case, and the address it returns prints as the input in
  -- lower case.
  pub parse_contract_address_total :
      (input : Text)
      → (is_hex64 input ≡ true
          → (a : ContractAddress) × (parse_contract_address hex input ≡ ok a)
            × (address_to_hex hex a ≡ map to_ascii_lowercase input))
        × (is_hex64 input ≡ false → parse_contract_address hex input ≡ err bad_contract_address)
  unfolding parse_contract_address address_to_hex
  parse_contract_address_total input = (
    (λ h. let (a, e, both) = address_total hex lawful input h in (a, rw (h, e) refl, both.1)),
    (λ h. rw h refl),
  )
