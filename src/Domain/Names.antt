-- ===== src/Domain/Names.antt =====
-- crates/midnight-did-domain/src/did_document.rs: DID URLs, DIDs, relative references and key ids.
-- `url::Url::join` is a parameter: whether a text can be joined to a base URL.
pub mod Grammar
use midnight_did_rs.Common.{
  ℕ, Bool, true, false, ◌&&◌, ◌||◌, not, Option, none, some, List, [], ◌∷◌, String, Text, codes,
  str_len, text_eq, starts_with, split_once, split, trim, length, all, any, is_empty,
  is_ascii_alphabetic, is_ascii_alphanumeric, ◌==◌, leb, if◌then◌else◌, Result, ok, err,
}
use midnight_did_rs.Domain.Validation.{ValidationError, issue, from_issues}

-- The loop of `has_uri_scheme` behind the first byte.
scheme_rest : Text → Bool
scheme_rest [] = false
scheme_rest (c ∷ s) =
    let rest = scheme_rest s in
    if c == b':'
    then true
    else if is_ascii_alphanumeric c || c == b'+' || c == b'.' || c == b'-'
    then rest
    else false

unfoldable pub has_uri_scheme : Text → Bool
unfolding scheme_rest
has_uri_scheme [] = false
has_uri_scheme (c ∷ s) = is_ascii_alphabetic c && scheme_rest s

unfoldable pub is_relative_reference : (Text → Bool) → Text → Bool
is_relative_reference join_ok value =
    if is_empty value
    then false
    else if not (text_eq (trim value) value)
    then false
    else if has_uri_scheme value
    then false
    else if starts_with value (codes "//")
    then false
    else join_ok value

key_fragment_char : ℕ → Bool
key_fragment_char c =
    is_ascii_alphanumeric c || c == b'.' || c == b'-' || c == b'_' || c == b':' || c == b'%'

unfoldable pub is_key_fragment : Text → Bool
unfolding key_fragment_char
is_key_fragment value = if is_empty value then false else all key_fragment_char value

-- The text behind the first `#`, or none of it.
behind_hash : Option (Text × Text) → Text
behind_hash none = []
behind_hash (some (before, after)) = after

-- `strip_prefix('#')`
abbrev pub strip_hash : Text → Option Text
strip_hash [] = none
strip_hash (c ∷ rest) = if c == b'#' then some rest else none

unfoldable pub extract_key_fragment : Text → Text
unfolding behind_hash
extract_key_fragment value = elim (strip_hash value) [
  | some rest ↦ rest
  | none ↦ if starts_with value (codes "did:") then behind_hash (split_once b'#' value) else value
]

unfoldable pub is_did_url : Text → Bool
is_did_url value =
    starts_with value (codes "did:") && leb 5 (str_len value) && leb 3 (length (split b':' value))

unfoldable pub is_did_string : Text → Bool
is_did_string value =
    if not (starts_with value (codes "did:")) || not (leb 5 (str_len value))
    then false
    else if not (leb 3 (length (split b':' value)))
    then false
    else not (any (λ c. c == b'/' || c == b'?' || c == b'#') value)

unfoldable pub is_did_key_id : (Text → Bool) → Text → Bool
is_did_key_id join_ok value =
    if not (is_did_url value || is_relative_reference join_ok value)
    then false
    else is_key_fragment (extract_key_fragment value)

-- The private newtypes: a value is the text that `parse` let through.
pub record DidUrl : Type 0 where
  pub url : Text

pub record RelativeUrl : Type 0 where
  pub url : Text

pub record DidString : Type 0 where
  pub did : Text

pub record DidKeyId : Type 0 where
  pub key_id : Text

unfoldable pub parse_did_url : Text → Result ValidationError DidUrl
parse_did_url s =
    if not (is_did_url s)
    then err (from_issues (issue (codes "Invalid DID URL format") ∷ []))
    else ok (record { url = s })

unfoldable pub parse_relative_url : (Text → Bool) → Text → Result ValidationError RelativeUrl
parse_relative_url join_ok s =
    if not (is_relative_reference join_ok s)
    then err (from_issues (issue (codes "Relative URL must be relative to the DID subject") ∷ []))
    else ok (record { url = s })

unfoldable pub parse_did_string : Text → Result ValidationError DidString
parse_did_string s =
    if not (is_did_string s)
    then err (from_issues (issue (codes "Invalid DID format") ∷ []))
    else ok (record { did = s })

unfoldable pub parse_did_key_id : (Text → Bool) → Text → Result ValidationError DidKeyId
parse_did_key_id join_ok s =
    if not (is_did_key_id join_ok s)
    then err
        (from_issues (issue (codes "Invalid DID Key ID format: invalid or missing fragment") ∷ []))
    else ok (record { key_id = s })
