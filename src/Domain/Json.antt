-- ===== src/Domain/Json.antt =====
-- The values of `serde_json::Value` and of `serde_json::Map`, whose entries are a list.
use midnight_did_rs.Common.{Bool, false, ◌||◌, Text, text_eq}

mutual
  pub data JsonValue : Type 0 where
    null : JsonValue
    bool : Bool → JsonValue
    -- Negative numbers and fractions too, as `serde_json::Number` prints them.
    number : Text → JsonValue
    string : Text → JsonValue
    array : JsonItems → JsonValue
    object : JsonMap → JsonValue

  pub data JsonItems : Type 0 where
    nil : JsonItems
    cons : JsonValue → JsonItems → JsonItems

  pub data JsonMap : Type 0 where
    empty : JsonMap
    entry : Text → JsonValue → JsonMap → JsonMap

unfoldable pub contains_key : Text → JsonMap → Bool
contains_key k empty = false
contains_key k (entry j v m) = text_eq j k || contains_key k m
