-- ===== src/Method/Did/Parsing.antt =====
-- What `parse_midnight_did_string` accepts.
use midnight_did_rs.Common.{
  ◌≡◌, ◌⊎◌, inl, inr, refl, sym, ap, ◌∙◌, subst, true, some, List, [], ◌∷◌, ◌++◌, Text, codes,
  text_eq, starts_with, starts_with-append, append_assoc, split, split_sound, join, ok, arith,
  Option-cases,
}
use midnight_did_rs.Method.Network.{MidnightNetwork, offchain, as_wire_str, from_wire_str}
use midnight_did_rs.Method.Network.Mapping.{as_wire_str_of_from}
use midnight_did_rs.Method.Did.{
  MidnightDidString, is_hex64, is_lowercase_hex64, is_base64url_segment, is_offchain,
  create_midnight_did_string, check_state, check_parts, parse_midnight_did_string,
}

starts_with_sound : (s p : Text) → starts_with s p ≡ true → (t : Text) × (s ≡ p ++ t)
unfolding starts_with
starts_with_sound s [] h = (s, refl)
starts_with_sound [] (d ∷ p) h = cc
starts_with_sound (c ∷ s) (d ∷ p) h =
    let (t, e) = starts_with_sound s p (ground arith) in (t, ground arith)

pub split-prefix :
    (t : Text)
    → split b':' (codes "did:midnight:" ++ t) ≡ codes "did" ∷ codes "midnight" ∷ split b':' t
unfolding split
split-prefix t = refl

offchain_test : (n : MidnightNetwork) → text_eq (as_wire_str n) (codes "offchain") ≡ is_offchain n
unfolding text_eq as_wire_str
offchain_test offchain = refl
offchain_test _ = refl

pub offchain_name :
    (net : Text) {n : MidnightNetwork}
    → from_wire_str net ≡ some n
    → text_eq net (codes "offchain") ≡ is_offchain n
offchain_name net {n} h =
    subst (λ (t : Text). text_eq t (codes "offchain") ≡ is_offchain n)
      (sym (as_wire_str_of_from net h)) (offchain_test n)

-- What the parts behind `did:midnight:` may be.
abbrev pub Tail : List Text → Type 0
Tail [] = ⊥
Tail (net ∷ []) = ⊥
Tail (net ∷ id ∷ []) =
    (n : MidnightNetwork) × (from_wire_str net ≡ some n)
    × (is_hex64 id ≡ true)
    × (is_offchain n ≡ true → is_lowercase_hex64 id ≡ true)
Tail (net ∷ id ∷ state ∷ []) =
    (from_wire_str net ≡ some offchain)
    × (is_hex64 id ≡ true)
    × (is_lowercase_hex64 id ≡ true)
    × (is_base64url_segment state ≡ true)
Tail (net ∷ id ∷ state ∷ more ∷ parts) = ⊥

abbrev pub behind : List Text → List Text
behind parts = codes "did" ∷ codes "midnight" ∷ parts

short_sound :
    (input net id : Text) {d : MidnightDidString}
    → check_parts input (behind (net ∷ id ∷ [])) ≡ ok d
    → (d.value ≡ input) × Tail (net ∷ id ∷ [])
unfolding check_parts check_state
short_sound input net id h = elim (Option-cases (from_wire_str net)) [
  | inl e ↦ absurd (ground arith)
  | inr (n, e) ↦
      let same = offchain_name net e in (ground arith, (n, e, ground arith, (λ o. ground arith)))
]

offchain_only : (n : MidnightNetwork) → is_offchain n ≡ true → n ≡ offchain
offchain_only offchain h = refl
offchain_only n h = cc

long_sound :
    (input net id state : Text) {d : MidnightDidString}
    → check_parts input (behind (net ∷ id ∷ state ∷ [])) ≡ ok d
    → (d.value ≡ input) × Tail (net ∷ id ∷ state ∷ [])
unfolding check_parts check_state
long_sound input net id state h = elim (Option-cases (from_wire_str net)) [
  | inl e ↦ absurd (ground arith)
  | inr (n, e) ↦
      let same = offchain_name net e in
      (ground arith, (ground (arith, offchain_only n), ground arith, ground arith, ground arith))
]

pub check_parts_sound :
    (input : Text) (parts : List Text) {d : MidnightDidString}
    → check_parts input (behind parts) ≡ ok d
    → (d.value ≡ input) × Tail parts
check_parts_sound input [] h = absurd (none_fit input h)
  where
    none_fit : (input : Text) {d : MidnightDidString} → check_parts input (behind []) ≡ ok d → ⊥
    none_fit input h = unfold check_parts in ground arith
check_parts_sound input (net ∷ []) h = absurd (one_fits input net h)
  where
    one_fits :
        (input net : Text) {d : MidnightDidString}
        → check_parts input (behind (net ∷ [])) ≡ ok d
        → ⊥
    one_fits input net h = unfold check_parts in ground arith
check_parts_sound input (net ∷ id ∷ []) h = short_sound input net id h
check_parts_sound input (net ∷ id ∷ state ∷ []) h = long_sound input net id state h
check_parts_sound input (net ∷ id ∷ state ∷ more ∷ parts) h =
    absurd (too_many input net id state more parts h)
  where
    too_many :
        (input net id state more : Text) (parts : List Text) {d : MidnightDidString}
        → check_parts input (behind (net ∷ id ∷ state ∷ more ∷ parts)) ≡ ok d
        → ⊥
    too_many input net id state more parts h = unfold check_parts in ground arith

-- The text of a DID: `did:midnight:<network>:<id>` with 64 hex digits, in lower case where the
-- network is `offchain`, or `did:midnight:offchain:<id>:<state>` with a base64url state.
abbrev pub IsMidnightDid : Text → Type 0
IsMidnightDid input =
    ((n : MidnightNetwork) × (id : Text) × (is_hex64 id ≡ true)
      × (is_offchain n ≡ true → is_lowercase_hex64 id ≡ true)
      × (input ≡ (create_midnight_did_string id n).value))
    ⊎ ((id : Text) × (state : Text) × (is_lowercase_hex64 id ≡ true)
        × (is_base64url_segment state ≡ true)
        × (input ≡ (create_midnight_did_string id offchain).value ++ b':' ∷ state))

text_of_Tail :
    (t : Text) (parts : List Text)
    → Tail parts
    → join b':' parts ≡ t
    → IsMidnightDid (codes "did:midnight:" ++ t)
unfolding create_midnight_did_string
text_of_Tail t [] tail e = absurd tail
text_of_Tail t (net ∷ []) tail e = absurd tail
text_of_Tail t (net ∷ id ∷ []) (n, w, h, l) e = inl (
  n,
  id,
  h,
  l,
  ap (λ (u : Text). codes "did:midnight:" ++ u)
      (sym e ∙ ap (λ (u : Text). u ++ b':' ∷ id) (as_wire_str_of_from net w)),
)
text_of_Tail t (net ∷ id ∷ state ∷ []) (w, h, l, s) e = inr (
  id,
  state,
  l,
  s,
  ap (λ (u : Text). codes "did:midnight:" ++ u)
      (sym e
        ∙ ap (λ (u : Text). u ++ b':' ∷ (id ++ b':' ∷ state)) (as_wire_str_of_from net w)
        ∙ sym (append_assoc (as_wire_str offchain) (b':' ∷ id) (b':' ∷ state))),
)
text_of_Tail t (net ∷ id ∷ state ∷ more ∷ parts) tail e = absurd tail

-- Behind the prefix the parser looks at the parts.
pub parse-prefix :
    (t : Text)
    → parse_midnight_did_string (codes "did:midnight:" ++ t)
      ≡ check_parts (codes "did:midnight:" ++ t) (behind (split b':' t))
unfolding parse_midnight_did_string check_parts
parse-prefix t =
    rw (starts_with-append (codes "did:midnight:") t, parse_midnight_did_string)
      (rw (split-prefix t) refl)

no_prefix :
    (input : Text) {d : MidnightDidString}
    → parse_midnight_did_string input ≡ ok d
    → starts_with input (codes "did:midnight:") ≡ true
unfolding parse_midnight_did_string
no_prefix input h = ground arith

parts_sound :
    (t : Text) (parts : List Text) {d : MidnightDidString}
    → split b':' t ≡ parts
    → check_parts (codes "did:midnight:" ++ t) (behind parts) ≡ ok d
    → (d.value ≡ codes "did:midnight:" ++ t) × IsMidnightDid (codes "did:midnight:" ++ t)
parts_sound t [] e h = absurd ((check_parts_sound _ [] h).1)
parts_sound t (p ∷ parts) e h =
    let (v, tail) = check_parts_sound _ (p ∷ parts) h in
    (v, text_of_Tail t (p ∷ parts) tail (split_sound b':' t p parts e).0)

pub parse_midnight_did_string_sound :
    (input : Text) {d : MidnightDidString}
    → parse_midnight_did_string input ≡ ok d
    → (d.value ≡ input) × IsMidnightDid input
parse_midnight_did_string_sound input {d} h =
    let (t, e) = starts_with_sound input (codes "did:midnight:") (no_prefix input h) in
    subst (λ (u : Text). (d.value ≡ u) × IsMidnightDid u) (sym e)
      (parts_sound t (split b':' t) refl
        (sym (parse-prefix t) ∙ subst (λ (u : Text). parse_midnight_did_string u ≡ ok d) e h))
