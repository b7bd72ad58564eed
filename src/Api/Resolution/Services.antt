-- ===== src/Api/Resolution/Services.antt =====
-- crates/midnight-did-api/src/resolution.rs: the services of the ledger. `serde_json::from_str` for
-- a list of strings and for any value are the parameters `strings` and `value`.
use midnight_did_rs.Common.{
  not, ◌||◌, Option, some, List, [], ◌∷◌, ◌++◌, Text, codes, is_empty, any, map, starts_with, trim,
  if◌then◌else◌, Result, ok, err, ◌>>=◌, ◌>>◌, guard, map_err, ok_or,
}
use midnight_did_rs.Domain.Json.{JsonValue, JsonItems, nil, cons, string, object, array}
use midnight_did_rs.Domain.Services.{
  Service, ServiceType, one, many, ServiceEndpoint, ServiceEndpointArrayEntry, uri_entry,
  object_entry, new_service,
}
use midnight_did_rs.Domain.Services
use midnight_did_rs.Domain.Uri.{UrlParser}
use midnight_did_rs.Domain.Ledger.{has_repetition}
use midnight_did_rs.Runtime.Ledger.{LedgerService}
use midnight_did_rs.Api.Errors.{ApiError, mapping, validation_error}
use midnight_did_rs.Api.Resolution.Ids.{absolute_did_url_reference}

module _ (strings : Text → Option (List Text)) where
  -- Sorting and removing repetitions to compare lengths is written as a test for repetitions.
  unfoldable pub parse_service_type : Text → Result ApiError ServiceType
  parse_service_type raw =
      let value = trim raw in
      let list = do
        parsed ←
            ok_or (strings value) (mapping (codes "Invalid service type: malformed JSON array"))
        guard (not (is_empty parsed || any (λ s. is_empty (trim s)) parsed))
            (mapping (codes "Invalid service type: expected non-empty unique strings"))
        guard (not (has_repetition (map trim parsed)))
            (mapping (codes "Invalid service type: expected non-empty unique strings"))
        ok (many (map trim parsed))
      in if is_empty value
        then err (mapping (codes "Invalid service type: empty value"))
        else if starts_with value (codes "[")
        then list
        else ok (one value)

parse_entry : JsonValue → Result ApiError ServiceEndpointArrayEntry
parse_entry (string s) = ok (uri_entry s)
parse_entry (object m) = ok (object_entry m)
parse_entry _ = err (mapping (codes "Invalid serviceEndpoint array entry"))

parse_entries : JsonItems → List ServiceEndpointArrayEntry → Result ApiError ServiceEndpoint
unfolding parse_entry
parse_entries nil entries = ok (Services.array entries)
parse_entries (cons value items) entries =
    parse_entry value >>= λ e. parse_entries items (entries ++ e ∷ [])

-- The `match` on the parsed value, in front of the last line.
parse_value : Text → Option JsonValue → Result ApiError ServiceEndpoint
unfolding parse_entries
parse_value trimmed (some (string s)) = ok (Services.uri s)
parse_value trimmed (some (object m)) = ok (Services.object m)
parse_value trimmed (some (array items)) = parse_entries items []
parse_value trimmed _ = ok (Services.uri trimmed)

module _ (value : Text → Option JsonValue) where
  unfoldable pub parse_service_endpoint : Text → Result ApiError ServiceEndpoint
  unfolding parse_value
  parse_service_endpoint raw =
      let trimmed = trim raw in
      if is_empty trimmed
      then err (mapping (codes "Invalid serviceEndpoint: empty value"))
      else parse_value trimmed (value trimmed)

module _ (urls : UrlParser) (strings : Text → Option (List Text))
    (value : Text → Option JsonValue) where
  unfoldable pub parse_ledger_service : LedgerService → Text → Result ApiError Service
  parse_ledger_service svc did = do
    type_ ← parse_service_type strings svc.typ
    service_endpoint ← parse_service_endpoint value svc.service_endpoint
    map_err validation_error (
        new_service urls (record {
          id = absolute_did_url_reference did svc.id;
          type_ = type_;
          service_endpoint = service_endpoint;
        }))
