-- ===== src/Method/Did/Building.antt =====
-- Built DID strings pass the parser, and decompose into what they were built from.
use midnight_did_rs.Common.{
  ◌≡◌, ◌↔◌, inl, inr, refl, sym, ap, ◌∙◌, subst, true, ◌||◌, List, [], ◌∷◌, ◌++◌, Text, codes,
  split, split-append, split-Lacks, Lacks, Lacks-of_all, all, is_ascii_hexdigit,
  is_ascii_alphanumeric, ok, ◌==◌, arith, &&-eq-true, append_assoc,
}
use midnight_did_rs.Method.Network.{MidnightNetwork, offchain, undeployed, as_wire_str}
use midnight_did_rs.Method.Network.Mapping.{from_wire_str-as_wire_str}
use midnight_did_rs.Method.Hex.{is_lowercase_hexdigit}
use midnight_did_rs.Method.Did.{
  MidnightDidString, is_hex64, is_lowercase_hex64, is_base64url_segment, is_offchain,
  create_midnight_did_string, check_parts, parse_midnight_did_string,
}
use midnight_did_rs.Method.Did.Parsing.{
  IsMidnightDid, behind, parse-prefix, parse_midnight_did_string_sound, offchain_name,
}

name-Lacks : (n : MidnightNetwork) → Lacks b':' (as_wire_str n)
unfolding as_wire_str
name-Lacks undeployed = omega arith
name-Lacks _ = omega arith

hex64-Lacks : (id : Text) → is_hex64 id ≡ true → Lacks b':' id
unfolding is_hex64
hex64-Lacks id h = Lacks-of_all b':' is_ascii_hexdigit id refl (&&-eq-true _ _ h).1

pub lower-upper :
    (id : Text) → all is_lowercase_hexdigit id ≡ true → all is_ascii_hexdigit id ≡ true
lower-upper [] h = refl
lower-upper (c ∷ id) h = ground (arith, lower-upper id)

pub is_hex64_of_lower : (id : Text) → is_lowercase_hex64 id ≡ true → is_hex64 id ≡ true
unfolding is_hex64 is_lowercase_hex64
is_hex64_of_lower id h = ground (arith, lower-upper id)

segment-Lacks : (s : Text) → is_base64url_segment s ≡ true → Lacks b':' s
unfolding is_base64url_segment
segment-Lacks s h =
    Lacks-of_all b':' (λ b. is_ascii_alphanumeric b || b == b'-' || b == b'_') s refl (ground arith)

-- The parts of a short DID, and of a long one.
pub short_parts :
    (n : MidnightNetwork) (id : Text)
    → is_hex64 id ≡ true
    → split b':' (as_wire_str n ++ b':' ∷ id) ≡ as_wire_str n ∷ id ∷ []
short_parts n id h =
    split-append b':' (as_wire_str n) id (name-Lacks n)
    ∙ ap (λ (t : List Text). as_wire_str n ∷ t) (split-Lacks b':' id (hex64-Lacks id h))

pub long_parts :
    (n : MidnightNetwork) (id state : Text)
    → is_hex64 id ≡ true
    → is_base64url_segment state ≡ true
    → split b':' (as_wire_str n ++ b':' ∷ (id ++ b':' ∷ state)) ≡ as_wire_str n ∷ id ∷ state ∷ []
long_parts n id state h s =
    split-append b':' (as_wire_str n) (id ++ b':' ∷ state) (name-Lacks n)
    ∙ ap (λ (t : List Text). as_wire_str n ∷ t)
        (split-append b':' id state (hex64-Lacks id h)
          ∙ ap (λ (t : List Text). id ∷ t) (split-Lacks b':' state (segment-Lacks state s)))

check_short :
    (input : Text) (n : MidnightNetwork) (id : Text)
    → is_hex64 id ≡ true
    → (is_offchain n ≡ true → is_lowercase_hex64 id ≡ true)
    → check_parts input (behind (as_wire_str n ∷ id ∷ [])) ≡ ok (record { value = input })
unfolding check_parts
check_short input n id h l =
    let named = from_wire_str-as_wire_str n in
    let same = offchain_name (as_wire_str n) named in ground arith

check_long :
    (input id state : Text)
    → is_lowercase_hex64 id ≡ true
    → is_base64url_segment state ≡ true
    → check_parts input (behind (as_wire_str offchain ∷ id ∷ state ∷ []))
      ≡ ok (record { value = input })
unfolding check_parts
check_long input id state l s =
    let named = from_wire_str-as_wire_str offchain in
    let same = offchain_name (as_wire_str offchain) named in
    let h = is_hex64_of_lower id l in ground arith

pub accept_short :
    (n : MidnightNetwork) (id : Text)
    → is_hex64 id ≡ true
    → (is_offchain n ≡ true → is_lowercase_hex64 id ≡ true)
    → parse_midnight_did_string (create_midnight_did_string id n).value
      ≡ ok (create_midnight_did_string id n)
unfolding create_midnight_did_string
accept_short n id h l =
    parse-prefix (as_wire_str n ++ b':' ∷ id)
    ∙ ap
        (λ (parts : List Text).
          check_parts (codes "did:midnight:" ++ (as_wire_str n ++ b':' ∷ id)) (behind parts))
        (short_parts n id h)
    ∙ check_short _ n id h l

pub long_text :
    (id state : Text)
    → (create_midnight_did_string id offchain).value ++ b':' ∷ state
      ≡ codes "did:midnight:" ++ (as_wire_str offchain ++ b':' ∷ (id ++ b':' ∷ state))
unfolding create_midnight_did_string
long_text id state =
    ap (λ (t : Text). codes "did:midnight:" ++ t)
      (append_assoc (as_wire_str offchain) (b':' ∷ id) (b':' ∷ state))

pub accept_long :
    (id state : Text)
    → is_lowercase_hex64 id ≡ true
    → is_base64url_segment state ≡ true
    → parse_midnight_did_string ((create_midnight_did_string id offchain).value ++ b':' ∷ state)
      ≡ ok (record { value = (create_midnight_did_string id offchain).value ++ b':' ∷ state })
accept_long id state l s =
    subst (λ (t : Text). parse_midnight_did_string t ≡ ok (record { value = t }))
      (sym (long_text id state))
      (parse-prefix (as_wire_str offchain ++ b':' ∷ (id ++ b':' ∷ state))
        ∙ ap
            (λ (parts : List Text).
              check_parts
                (codes "did:midnight:" ++ (as_wire_str offchain ++ b':' ∷ (id ++ b':' ∷ state)))
                (behind parts))
            (long_parts offchain id state (is_hex64_of_lower id l) s)
        ∙ check_long _ id state l s)

accepted :
    (input : Text)
    → IsMidnightDid input
    → parse_midnight_did_string input ≡ ok (record { value = input })
accepted input (inl (n, id, h, l, e)) =
    subst (λ (t : Text). parse_midnight_did_string t ≡ ok (record { value = t })) (sym e)
      (accept_short n id h l)
accepted input (inr (id, state, l, s, e)) =
    subst (λ (t : Text). parse_midnight_did_string t ≡ ok (record { value = t })) (sym e)
      (accept_long id state l s)

-- The parser accepts exactly the DID texts, and returns the text: `did:midnight:<network>:<id>`
-- with 64 hex digits, in lower case where the network is `offchain`, and
-- `did:midnight:offchain:<id>:<state>` with 64 lowercase hex digits and a base64url state.
pub parse_midnight_did_string_iff :
    (input : Text) (d : MidnightDidString)
    → (parse_midnight_did_string input ≡ ok d) ↔ ((d.value ≡ input) × IsMidnightDid input)
parse_midnight_did_string_iff input d = (
  parse_midnight_did_string_sound input,
  λ h. accepted input h.1 ∙ ap ok (λ i. record { value = sym (h.0) i }),
)
