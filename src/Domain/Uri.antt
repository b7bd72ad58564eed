-- ===== src/Domain/Uri.antt =====
-- crates/midnight-did-domain/src/uri.rs: URI normalisation.
-- The `url` crate is the parameter `urls`: its parser, and whether a text joins a base URL.
use midnight_did_rs.Common.{
  ℕ, Bool, false, ◌&&◌, ◌||◌, not, Option, none, some, [], ◌∷◌, ◌++◌, Text, codes, text_eq,
  is_empty, map, is_ascii_alphabetic, is_ascii_alphanumeric, to_ascii_lowercase, ◌==◌,
  if◌then◌else◌, decimal,
}
use midnight_did_rs.Domain.Json.{
  JsonValue, JsonItems, JsonMap, null, bool, number, string, array, object, nil, cons, empty, entry,
}

-- The components that the accessors of `url::Url` return.
pub record Url : Type 0 where
  pub scheme : Text
  pub username : Text
  pub password : Option Text
  pub host : Option Text
  pub port : Option ℕ
  pub path : Text
  pub query : Option Text
  pub fragment : Option Text

pub record UrlParser : Type 0 where
  pub parse : Text → Option Url
  pub joins : Text → Bool

unfoldable pub is_default_port : Text → ℕ → Bool
is_default_port scheme port =
    (text_eq scheme (codes "http") && port == 80)
    || (text_eq scheme (codes "https") && port == 443)
    || (text_eq scheme (codes "ws") && port == 80)
    || (text_eq scheme (codes "wss") && port == 443)

-- The loop of `extract_scheme`, with the characters read so far.
scheme_loop : Text → Text → Option Text
scheme_loop [] before = none
scheme_loop (c ∷ s) before =
    let rest = scheme_loop s (before ++ c ∷ []) in
    if c == b':'
    then some before
    else if not (is_ascii_alphanumeric c || c == b'+' || c == b'.' || c == b'-')
    then none
    else rest

unfoldable pub extract_scheme : Text → Option Text
unfolding scheme_loop
extract_scheme [] = none
extract_scheme (c ∷ s) = if not (is_ascii_alphabetic c) then none else scheme_loop (c ∷ s) []

known_scheme : Text → Bool
known_scheme scheme =
    text_eq scheme (codes "http")
    || text_eq scheme (codes "https")
    || text_eq scheme (codes "ws")
    || text_eq scheme (codes "wss")

ends_with_slash : Text → Bool
ends_with_slash [] = false
ends_with_slash (c ∷ []) = c == b'/'
ends_with_slash (c ∷ d ∷ s) = ends_with_slash (d ∷ s)

abbrev or_empty : Option Text → Text
or_empty none = []
or_empty (some t) = t

auth : Text → Text → Text
auth username password =
    if not (is_empty username)
    then if not (is_empty password)
      then username ++ (codes ":" ++ (password ++ codes "@"))
      else username ++ codes "@"
    else []

port_suffix : Text → Option ℕ → Text
unfolding is_default_port
port_suffix protocol none = []
port_suffix protocol (some p) =
    if not (is_default_port protocol p) then codes ":" ++ decimal p else []

prefixed : Text → Option Text → Text
prefixed mark none = []
prefixed mark (some t) = mark ++ t

pathname : Text → Text → Text
pathname value path = if not (ends_with_slash value) && text_eq path (codes "/") then [] else path

-- The text that is put together from the components.
rebuild : Text → Url → Text
unfolding auth port_suffix prefixed pathname ends_with_slash
rebuild value parsed =
    let protocol = map to_ascii_lowercase parsed.scheme in
    protocol
    ++ (codes "://"
        ++ (auth parsed.username (or_empty parsed.password)
            ++ (map to_ascii_lowercase (or_empty parsed.host)
                ++ (port_suffix protocol parsed.port
                    ++ (pathname value parsed.path
                        ++ (prefixed (codes "?") parsed.query
                            ++ prefixed (codes "#") parsed.fragment))))))

module _ (urls : UrlParser) where
  unfoldable pub normalize_uri_string : Text → Text
  unfolding extract_scheme known_scheme rebuild
  normalize_uri_string value = elim (extract_scheme value) [
    | none ↦ value
    | some scheme ↦
        if not (known_scheme (map to_ascii_lowercase scheme))
        then value
        else elim (urls.parse value) [ none ↦ value | some parsed ↦ rebuild value parsed ]
  ]

  -- `normalize_endpoint_value`, and the same walk of uri.rs, `normalize_unknown`.
  unfoldable mutual
    pub normalize_endpoint_value : JsonValue → JsonValue
    normalize_endpoint_value null = null
    normalize_endpoint_value (bool b) = bool b
    normalize_endpoint_value (number n) = number n
    normalize_endpoint_value (string s) = string (normalize_uri_string s)
    normalize_endpoint_value (array items) = array (normalize_items items)
    normalize_endpoint_value (object m) = object (normalize_map m)

    pub normalize_items : JsonItems → JsonItems
    normalize_items nil = nil
    normalize_items (cons v items) = cons (normalize_endpoint_value v) (normalize_items items)

    pub normalize_map : JsonMap → JsonMap
    normalize_map empty = empty
    normalize_map (entry k v m) = entry k (normalize_endpoint_value v) (normalize_map m)
