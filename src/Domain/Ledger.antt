-- ===== src/Domain/Ledger.antt =====
-- crates/midnight-did-domain/src/ledger_utils.rs: the strings that the ledger stores.
-- `serde_json::to_string` of a list of strings is the parameter `json_strings`; sorting and
-- removing repetitions to compare lengths is written as a test for repetitions.
use midnight_did_rs.Common.{
  Bool, false, not, ◌&&◌, ◌||◌, Option, none, some, List, [], ◌∷◌, Text, codes, text_eq, trim,
  starts_with, split_once, is_empty, any, map, if◌then◌else◌, Result, ok, err, ◌>>◌, guard,
}
use midnight_did_rs.Domain.Names.{has_uri_scheme}
use midnight_did_rs.Domain.Services.{ServiceType, one, many}

pub data BoundIdField : Type 0 where
  verification_method_id : BoundIdField
  schnorr_jubjub_verification_method_id : BoundIdField
  service_id : BoundIdField
  method_id : BoundIdField
  short_service_id : BoundIdField

unfoldable pub label : BoundIdField → Text
label verification_method_id = codes "verificationMethod.id"
label schnorr_jubjub_verification_method_id = codes "schnorrJubjubVerificationMethod.id"
label service_id = codes "service.id"
label method_id = codes "methodId"
label short_service_id = codes "serviceId"

pub data LedgerUtilsError : Type 0 where
  empty_field : Text → LedgerUtilsError
  not_a_relative_or_did_url : Text → LedgerUtilsError
  empty_fragment : Text → LedgerUtilsError
  subject_mismatch : Text → Text → LedgerUtilsError
  duplicate_service_type_entries : LedgerUtilsError
  empty_service_type_entries : LedgerUtilsError
  empty_service_type : LedgerUtilsError
  invalid_service_type : LedgerUtilsError
  not_absolute_uri : Text → LedgerUtilsError

-- What follows the first `#`, behind a `#`.
abbrev fragment_of : Text → Option (Text × Text) → Text
fragment_of trimmed none = b'#' ∷ trimmed
fragment_of trimmed (some (before, after)) = b'#' ∷ after

unfoldable pub normalize_fragment_id : Text → Text
normalize_fragment_id value =
    let trimmed = trim value in
    if starts_with trimmed (codes "#")
    then trimmed
    else fragment_of trimmed (split_once b'#' trimmed)

-- The `match` on the first `#` of a DID URL.
did_url_fragment : BoundIdField → Text → Option (Text × Text) → Result LedgerUtilsError Text
unfolding label
did_url_fragment field did none = err (empty_fragment (label field))
did_url_fragment field did (some (did_subject, fragment)) =
    if not (is_empty did_subject) && not (is_empty fragment)
    then if not (text_eq did_subject did)
      then err (subject_mismatch (label field) did)
      else ok (b'#' ∷ fragment)
    else err (empty_fragment (label field))

unfoldable pub normalize_bound_fragment_id :
    Text → BoundIdField → Text → Result LedgerUtilsError Text
unfolding label normalize_fragment_id did_url_fragment
normalize_bound_fragment_id value field expected_did_subject =
    let trimmed = trim value in
    if is_empty trimmed
    then err (empty_field (label field))
    else if starts_with trimmed (codes "//")
    then err (not_a_relative_or_did_url (label field))
    else if starts_with trimmed (codes "#")
    then ok trimmed
    else if starts_with trimmed (codes "did:")
    then did_url_fragment field expected_did_subject (split_once b'#' trimmed)
    else if starts_with trimmed (codes "/")
        || starts_with trimmed (codes ".")
        || starts_with trimmed (codes "?")
    then ok (b'#' ∷ trimmed)
    else if has_uri_scheme trimmed
    then err (not_a_relative_or_did_url (label field))
    else ok (normalize_fragment_id trimmed)

unfoldable pub has_repetition : List Text → Bool
has_repetition [] = false
has_repetition (s ∷ ss) = any (text_eq s) ss || has_repetition ss

module _ (json_strings : List Text → Text) where
  -- The text of the entries that passed the tests.
  ledger_text : List Text → Text
  ledger_text [] = json_strings []
  ledger_text (s ∷ []) = s
  ledger_text (s ∷ t ∷ ss) = json_strings (s ∷ t ∷ ss)

  unfoldable pub service_type_to_ledger : ServiceType → Result LedgerUtilsError Text
  unfolding has_repetition ledger_text
  service_type_to_ledger (one s) = if is_empty (trim s) then err empty_service_type else ok (trim s)
  service_type_to_ledger (many types) = do
    guard (not (is_empty types)) invalid_service_type
    let normalized = map trim types
    guard (not (any is_empty normalized)) empty_service_type_entries
    guard (not (has_repetition normalized)) duplicate_service_type_entries
    ok (ledger_text normalized)

-- `url::Url::parse(alias).is_ok()` is the parameter `parses`.
module _ (parses : Text → Bool) where
  unfoldable pub assert_absolute_uri : Text → Option Text → Result LedgerUtilsError Text
  assert_absolute_uri value field =
      let alias = trim value in
      let field_label = or_alias field in
      if is_empty alias
      then err (empty_field field_label)
      else if not (parses alias)
      then err (not_absolute_uri field_label)
      else ok alias
    where
      or_alias : Option Text → Text
      or_alias none = codes "aliasUri"
      or_alias (some f) = f
