-- ===== src/Domain/Names/Grammar.antt =====
-- How the predicates on DIDs, DID URLs and key ids relate.
use midnight_did_rs.Common.{
  ℕ, ◌+◌, ◌≤◌, ◌≡◌, refl, Bool, true, false, ◌||◌, none, [], ◌∷◌, ◌++◌, Text, codes, str_len,
  starts_with, split_once_append, Lacks, split, length, any, ◌==◌, if◌then◌else◌, arith,
}
use midnight_did_rs.Domain.Names.{
  is_did_url, is_did_string, is_did_key_id, is_key_fragment, extract_key_fragment, strip_hash,
}

-- Every DID is a DID URL.
is_did_string-is_did_url : (s : Text) → is_did_string s ≡ true → is_did_url s ≡ true
unfolding is_did_string is_did_url
is_did_string-is_did_url s h = ground arith

str_len-append : (s t : Text) → str_len (s ++ t) ≡ str_len s + str_len t
str_len-append [] t = omega arith
str_len-append (c ∷ s) t = omega (arith, str_len-append s t)

starts_with-append_right : (s t p : Text) → starts_with s p ≡ true → starts_with (s ++ t) p ≡ true
unfolding starts_with
starts_with-append_right s t [] h = refl
starts_with-append_right [] t (d ∷ p) h = cc
starts_with-append_right (c ∷ s) t (d ∷ p) h = ground (arith, starts_with-append_right s t p)

split_pos : (sep : ℕ) (s : Text) → 1 ≤ length (split sep s)
unfolding split
split_pos sep [] = omega arith
split_pos sep (c ∷ s) = ground (arith, split_pos sep s)

length-split :
    (sep c : ℕ) (s : Text)
    → length (split sep (c ∷ s))
      ≡ (if c == sep then length (split sep s) + 1 else length (split sep s))
unfolding split
length-split sep c s = ground (arith, split_pos sep s)

one_part : (sep : ℕ) → length (split sep []) ≡ 1
unfolding split
one_part sep = refl

split_le-append : (sep : ℕ) (s t : Text) → length (split sep s) ≤ length (split sep (s ++ t))
split_le-append sep [] t = omega (arith, split_pos sep t, one_part sep)
split_le-append sep (c ∷ s) t =
    ground (arith, length-split sep c s, length-split sep c (s ++ t), split_le-append sep s t)

Lacks-of_any : (s : Text) → any (λ c. c == b'/' || c == b'?' || c == b'#') s ≡ false → Lacks b'#' s
Lacks-of_any [] h = tt
Lacks-of_any (c ∷ s) h = (ground arith, Lacks-of_any s (ground arith))

no_strip_hash : (s t : Text) → starts_with s (codes "did:") ≡ true → strip_hash (s ++ t) ≡ none
unfolding starts_with
no_strip_hash [] t h = cc
no_strip_hash (c ∷ s) t h = ground arith

extract_of_did :
    (d f : Text)
    → starts_with d (codes "did:") ≡ true
    → Lacks b'#' d
    → extract_key_fragment (d ++ b'#' ∷ f) ≡ f
unfolding extract_key_fragment
extract_of_did d f h l = ground (
  arith,
  no_strip_hash d (b'#' ∷ f),
  starts_with-append_right d (b'#' ∷ f) (codes "did:"),
  split_once_append b'#' d f,
)

-- A DID, `#` and a key fragment make a key id, whatever the URL parser says.
pub is_did_key_id-append :
    (join_ok : Text → Bool) (d f : Text)
    → is_did_string d ≡ true
    → is_key_fragment f ≡ true
    → is_did_key_id join_ok (d ++ b'#' ∷ f) ≡ true
unfolding is_did_key_id is_did_url is_did_string
is_did_key_id-append join_ok d f hd hf = ground (
  arith,
  Lacks-of_any d,
  extract_of_did d f,
  starts_with-append_right d (b'#' ∷ f) (codes "did:"),
  str_len-append d (b'#' ∷ f),
  split_le-append b':' d (b'#' ∷ f),
)
