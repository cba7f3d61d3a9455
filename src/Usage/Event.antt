-- ===== src/Usage/Event.antt =====
-- `UsageEvent` of crates/hsind/src/usage.rs, and what the module reads of JSON values and of time:
-- the parameter `Json` stands for `serde_json`, `chrono` and SHA-256.
use hsin_rs.Prelude.{
  ℕ, Bool, Option, String, Text, ◌++◌, ◌∷◌, [], and_then, or_else, unwrap_or, decimal,
}
use hsin_rs.Core.Enums.{ClientKind, client_as_str}
use hsin_rs.Core.Usage.{UsageTokenSummary}
use hsin_rs.Ipc.Protocol.{Bytes}

pub record Json : Type 1 where
  pub Value : Type 0
  pub get : String → Value → Option Value
  pub pointer : String → Value → Option Value
  pub as_str : Value → Option Text
  pub as_u64 : Value → Option ℕ
  pub is_null : Value → Bool
  pub from_slice : Bytes → Option Value
  pub Time : Type 0  -- seconds, an i64
  pub epoch : Time
  pub before : Time → Time → Bool
  pub same_time : Time → Time → Bool
  pub time_text : Time → Text
  pub later : Time → Time → Time
  pub is_positive : Time → Bool
  pub as_i64 : Value → Option Time
  pub is_object : Value → Bool
  pub F64 : Type 0
  pub as_f64 : Value → Option F64
  pub is_finite : F64 → Bool
  pub is_percent : F64 → Bool  -- `(0.0..=100.0).contains`
  pub parse_from_rfc3339 : Text → Option Time
  pub digest : Text → Text
  pub digest_bytes : Bytes → Text

pub data UsageDataSource : Type 0 where
  session proxy : UsageDataSource

pub data UsageAttribution : Type 0 where
  exact inferred unattributed : UsageAttribution

pub record UsageEvent (Time : Type 0) : Type 0 where
  pub client : ClientKind
  pub source : UsageDataSource
  pub provider_id : Option Text
  pub provider_name : Text
  pub provider_revision : ℕ  -- u64
  pub model : Text
  pub event_at : Time
  pub tokens : UsageTokenSummary
  pub attribution : UsageAttribution
  pub dedup_key : Text
  pub correlation_key : Option Text

-- `":{}"`
abbrev colon_decimal : ℕ → Text → Text
colon_decimal n rest = b':' ∷ (decimal n ++ rest)

module _ (json : Json) where
  open json use {Value, Time, get, as_str, as_u64, as_i64, parse_from_rfc3339, digest}

  unfoldable pub number : Value → String → ℕ
  number value key = unwrap_or (and_then (get key value) as_u64) 0

  unfoldable pub timestamp : Value → Option Time
  timestamp value =
      or_else (and_then (get "timestamp" value) as_i64)
        (and_then (and_then (get "timestamp" value) as_str) parse_from_rfc3339)

  unfoldable pub token_correlation : ClientKind → Text → UsageTokenSummary → Text
  unfolding decimal
  token_correlation client model t = digest (
      client_as_str client
      ++ (b':'
          ∷ (model
              ++ colon_decimal t.input_tokens (
                  colon_decimal t.cache_write_tokens (
                    colon_decimal t.cache_read_tokens (
                      colon_decimal t.output_tokens
                        (colon_decimal t.reasoning_output_tokens [])))))))
