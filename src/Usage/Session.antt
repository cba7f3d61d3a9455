-- ===== src/Usage/Session.antt =====
-- `parse_claude_session`, `parse_codex_session` and `CodexState` of crates/hsind/src/usage.rs: what one
-- line of a client's session file tells.
pub mod Cumulative
use hsin_rs.Prelude.{
  ℕ, ◌==◌, Bool, true, false, not, ◌&&◌, ◌||◌, Option, none, some, [], ◌∷◌, ◌++◌, take, is_nil,
  String, Text, codes, text_eq, and_then, or_else, unwrap_or, is_some_and, keep_if, if◌then◌else◌,
}
use hsin_rs.Core.Enums.{ClientKind, claude, codex}
use hsin_rs.Core.Usage.{UsageTokenSummary, total_tokens}
use hsin_rs.Usage.Event.{
  Json, UsageEvent, session, unattributed, number, timestamp, token_correlation,
}
use hsin_rs.Usage.Tokens.{openai_tokens, subtract_tokens}

pub record CodexState : Type 0 where
  pub model : Text
  pub cumulative : Option UsageTokenSummary
  pub source : Text
  pub account : Text

abbrev pub default_codex_state : CodexState
default_codex_state = record {
  model = codes "unknown";
  cumulative = none;
  source = [];
  account = [];
}

module _ (json : Json) where
  open json use {Value, Time, get, pointer, as_str, is_null, digest}

  -- `value.get("type").and_then(Value::as_str) == Some(name)`
  unfoldable pub has_type : String → Value → Bool
  unfolding text_eq
  has_type name value =
      is_some_and (and_then (get "type" value) as_str) (λ t. text_eq t (codes name))

  abbrev unattributed_event :
      ClientKind → Text → Time → UsageTokenSummary → Text → Option Text → UsageEvent Time
  unattributed_event client model at tokens dedup correlation = record {
    client = client;
    source = session;
    provider_id = none;
    provider_name = codes "Unattributed";
    provider_revision = 0;
    model = model;
    event_at = at;
    tokens = tokens;
    attribution = unattributed;
    dedup_key = dedup;
    correlation_key = correlation;
  }

  abbrev pub claude_tokens_of : Value → UsageTokenSummary
  claude_tokens_of usage = record {
    input_tokens = number json usage "input_tokens";
    cache_write_tokens = number json usage "cache_creation_input_tokens";
    cache_read_tokens = number json usage "cache_read_input_tokens";
    output_tokens = number json usage "output_tokens";
    reasoning_output_tokens = 0;
    request_count = 1;
  }

  unfoldable pub parse_claude_session : Value → Option (UsageEvent Time)
  unfolding has_type
  parse_claude_session value =
      if not (has_type "assistant" value)
      then none
      else and_then (get "message" value) λ message. and_then (get "usage" message) λ usage.
        and_then (and_then (get "id" message) as_str) λ message_id.
          and_then (and_then (get "model" message) as_str) λ model.
            and_then (timestamp json value) λ at.
              let correlation = digest (codes "claude:" ++ message_id) in
              some (
                unattributed_event claude model at (claude_tokens_of usage) correlation
                  (some correlation))

  abbrev account_of : Value → Text
  account_of value =
      elim (keep_if (λ a. not (is_nil a))
        (and_then (pointer "/payload/creator_account_id" value) as_str)) [
          | none ↦ []
          | some account ↦ take 8 (digest (codes "codex-account:" ++ account))
        ]

  -- `last_token_usage` or `total_token_usage` of a payload
  unfoldable pub usage_of : String → Value → Option Value
  usage_of key payload =
      keep_if (λ usage. not (is_null usage))
        (or_else (and_then (get "info" payload) (get key)) (get key payload))

  unfoldable pub is_token_count : Value → Bool
  unfolding has_type text_eq
  is_token_count value =
      has_type "event_msg" value
      && is_some_and (and_then (pointer "/payload/type" value) as_str)
          (λ t. text_eq t (codes "token_count"))

  -- The tokens of a `token_count` line, and the cumulative count after it.
  abbrev pub counted :
      Option UsageTokenSummary
      → Option Value
      → Option Value
      → Option UsageTokenSummary × Option UsageTokenSummary
  counted cumulative (some last) (some total) =
      (some (openai_tokens json last), some (openai_tokens json total))
  counted cumulative (some last) none = (some (openai_tokens json last), cumulative)
  counted cumulative none none = (none, cumulative)
  counted none none (some total) =
      (some (openai_tokens json total), some (openai_tokens json total))
  counted (some previous) none (some total) =
      (some (subtract_tokens (openai_tokens json total) previous), some (openai_tokens json total))

  abbrev pub codex_event : Text → Value → UsageTokenSummary → Option (UsageEvent Time)
  codex_event model value tokens =
      if total_tokens tokens == 0
      then none
      else and_then (timestamp json value) λ at. some (
          unattributed_event codex model at tokens []
            (some (token_correlation json codex model tokens)))

  abbrev session_meta : Value → CodexState → CodexState
  session_meta value s = record s {
    source = unwrap_or (and_then (pointer "/payload/model_provider" value) as_str) s.source;
    account = account_of value;
  }

  abbrev pub token_count : Value → CodexState → Option (UsageEvent Time) × CodexState
  token_count value s = elim (get "payload" value) [
    | none ↦ (none, s)
    | some payload ↦
        (let (tokens, cumulative) =
            counted s.cumulative (usage_of "last_token_usage" payload)
              (usage_of "total_token_usage" payload) in
          (and_then tokens (codex_event s.model value), record s { cumulative = cumulative }))
  ]

  unfoldable pub turn_model : Value → Option Text
  unfolding has_type
  turn_model value =
      if has_type "turn_context" value
      then and_then (pointer "/payload/model" value) as_str
      else none

  unfoldable pub parse_codex_session : Value → CodexState → Option (UsageEvent Time) × CodexState
  parse_codex_session value s =
      if has_type "session_meta" value
      then (none, session_meta value s)
      else elim (turn_model value) [
        | some model ↦ (none, record s { model = model })
        | none ↦ if is_token_count value then token_count value s else (none, s)
      ]
