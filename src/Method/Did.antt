-- ===== src/Method/Did.antt =====
-- crates/midnight-did-method/src/midnight_did.rs: DID strings, their parser and their builder.
pub mod Parsing
pub mod Building
pub mod Subject
pub mod RoundTrip
use midnight_did_rs.Common.{
  ℕ, ◌%◌, Bool, true, false, not, ◌&&◌, ◌||◌, Option, none, some, List, [], ◌∷◌, ◌++◌, Text, codes,
  str_len, text_eq, starts_with, split, length, get_elem?, all, is_empty, map, is_ascii_hexdigit,
  is_ascii_alphanumeric, to_ascii_lowercase, ◌==◌, if◌then◌else◌, Result, ok, err, ◌>>=◌, ◌>>◌,
  guard, ok_or, map_err,
}
use midnight_did_rs.Method.Network.{MidnightNetwork, offchain, as_wire_str, from_wire_str}
use midnight_did_rs.Method.Hex.{
  HexCodec, HashOutput, ContractAddress, is_lowercase_hexdigit, hash_from_hex, hash_to_hex,
  address_from_hex, address_to_hex,
}

pub data MidnightSubjectId : Type 0 where
  contract : ContractAddress → MidnightSubjectId
  offchain_state : HashOutput → MidnightSubjectId

pub record MidnightDidString : Type 0 where
  pub value : Text

pub data MidnightDidError : Type 0 where
  bad_contract_address bad_offchain_state_hash bad_format unknown_network : MidnightDidError
  bad_method_specific_id offchain_not_lowercase bad_offchain_state_encoding : MidnightDidError

unfoldable pub is_hex64 : Text → Bool
is_hex64 s = str_len s == 64 && all is_ascii_hexdigit s

unfoldable pub is_lowercase_hex64 : Text → Bool
is_lowercase_hex64 s = str_len s == 64 && all is_lowercase_hexdigit s

unfoldable pub is_base64url_segment : Text → Bool
is_base64url_segment s =
    not (is_empty s)
    && all (λ b. is_ascii_alphanumeric b || b == b'-' || b == b'_') s
    && not (str_len s % 4 == 1)

-- `parts.get(i).copied().unwrap_or("")`
abbrev pub or_blank : Option Text → Text
or_blank none = []
or_blank (some t) = t

-- `matches!(network, MidnightNetwork::Offchain)`
abbrev pub is_offchain : MidnightNetwork → Bool
is_offchain offchain = true
is_offchain _ = false

unfoldable pub create_midnight_did_string : Text → MidnightNetwork → MidnightDidString
create_midnight_did_string id network = record {
  value = codes "did:midnight:" ++ (as_wire_str network ++ b':' ∷ id);
}

-- The state segment of a long-form DID, where there is one.
pub check_state : Option Text → Result MidnightDidError (Unit {0})
unfolding is_base64url_segment
check_state none = ok tt
check_state (some state) = guard (is_base64url_segment state) bad_offchain_state_encoding

-- The checks behind the prefix test, over the parts between the colons.
pub check_parts : Text → List Text → Result MidnightDidError MidnightDidString
unfolding is_hex64 is_lowercase_hex64 check_state
check_parts input parts = do
  let net = or_blank (get_elem? parts 2)
  let on_offchain = text_eq net (codes "offchain")
  guard (if on_offchain then length parts == 4 || length parts == 5 else length parts == 4)
      bad_format
  _ ← ok_or (from_wire_str net) unknown_network
  let identifier = or_blank (get_elem? parts 3)
  guard (is_hex64 identifier) bad_method_specific_id
  guard (not (on_offchain && not (is_lowercase_hex64 identifier))) offchain_not_lowercase
  if on_offchain then check_state (get_elem? parts 4) else ok tt
  ok (record { value = input })

unfoldable pub parse_midnight_did_string : Text → Result MidnightDidError MidnightDidString
unfolding check_parts
parse_midnight_did_string input =
    if not (starts_with input (codes "did:midnight:"))
    then err bad_format
    else check_parts input (split b':' input)

module _ (hex : HexCodec) where
  unfoldable pub subject_to_hex : MidnightSubjectId → Text
  subject_to_hex (contract c) = address_to_hex hex c
  subject_to_hex (offchain_state h) = hash_to_hex hex h

  unfoldable pub parse_contract_address : Text → Result MidnightDidError ContractAddress
  parse_contract_address input = do
    guard (is_hex64 input) bad_contract_address
    map_err (λ _. bad_contract_address) (address_from_hex hex (map to_ascii_lowercase input))

  unfoldable pub parse_offchain_state_hash : Text → Result MidnightDidError HashOutput
  parse_offchain_state_hash input = do
    guard (is_lowercase_hex64 input) bad_offchain_state_hash
    map_err (λ _. bad_offchain_state_hash) (hash_from_hex hex input)

  offchain_subject : Text → Result MidnightDidError MidnightSubjectId
  offchain_subject id_str = do
    hash ← map_err (λ _. bad_offchain_state_hash) (hash_from_hex hex id_str)
    ok (offchain_state hash)

  contract_subject : Text → Result MidnightDidError MidnightSubjectId
  contract_subject id_str = do
    addr ←
        map_err (λ _. bad_contract_address) (address_from_hex hex (map to_ascii_lowercase id_str))
    ok (contract addr)

  -- The subject of a DID on `network` whose identifier is `id_str`.
  pub parse_subject : MidnightNetwork → Text → Result MidnightDidError MidnightSubjectId
  unfolding offchain_subject contract_subject
  parse_subject network id_str =
      if is_offchain network then offchain_subject id_str else contract_subject id_str

  unfoldable pub parse_midnight_did :
      MidnightDidString → Result MidnightDidError (MidnightNetwork × MidnightSubjectId)
  unfolding parse_subject
  parse_midnight_did did = do
    let parts = split b':' did.value
    let net = or_blank (get_elem? parts 2)
    let id_str = or_blank (get_elem? parts 3)
    network ← ok_or (from_wire_str net) unknown_network
    subject ← parse_subject network id_str
    ok (network, subject)
