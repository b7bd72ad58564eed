-- ===== src/Api/Resolution/Ids.antt =====
-- crates/midnight-did-api/src/resolution.rs: the ids of the ledger as fragments and as DID URLs.
use midnight_did_rs.Common.{
  ℕ, not, ◌&&◌, ◌==◌, [], ◌∷◌, ◌++◌, Text, codes, any, starts_with, trim, if◌then◌else◌,
}

-- `&raw[raw.rfind(sep) + 1..]`
behind_last : ℕ → Text → Text
behind_last sep [] = []
behind_last sep (c ∷ s) =
    let rest = behind_last sep s in
    if any (λ d. d == sep) s then rest else if c == sep then s else c ∷ s

unfoldable pub verification_method_fragment_id : Text → Text
unfolding behind_last
verification_method_fragment_id id =
    let raw = trim id in
    if starts_with raw (codes "did:")
    then (if any (λ c. c == b'#') raw then raw else raw ++ b'#' ∷ behind_last b':' raw)
    else if not (starts_with raw (codes "#"))
        && not (starts_with raw (codes "/"))
        && not (starts_with raw (codes "."))
        && not (starts_with raw (codes "?"))
    then b'#' ∷ raw
    else raw

unfoldable pub absolute_did_url_reference : Text → Text → Text
absolute_did_url_reference did id =
    let normalized = verification_method_fragment_id id in
    if starts_with normalized (codes "did:") then normalized else did ++ normalized
