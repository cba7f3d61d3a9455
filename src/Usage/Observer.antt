-- ===== src/Usage/Observer.antt =====
-- `ProxyUsageObserver` of crates/hsind/src/usage.rs: the usage that a response through the proxy reports.
pub mod Bounds
pub mod Once
pub mod Boundary
pub mod Reading
pub mod Chunks
pub mod Cut
use hsin_rs.Prelude.{
  ℕ, ◌+◌, ◌*◌, ◌==◌, ltb, Bool, true, false, not, ◌&&◌, ◌||◌, Option, none, some, List, [], ◌∷◌,
  ◌++◌, length, take, drop, is_nil, String, Text, codes, text_eq, starts_with, strip_prefix,
  strip_suffix, unwrap_or, or_else, and_then, is_some, is_some_and, if◌then◌else◌, saturating_add,
  zero, suc,
}
use hsin_rs.Core.Enums.{ClientKind, claude, codex, client_as_str}
use hsin_rs.Core.Usage.{UsageTokenSummary, total_tokens}
use hsin_rs.Ipc.Protocol.{Bytes}
use hsin_rs.Usage.Event.{
  Json, UsageEvent, UsageDataSource, UsageAttribution, exact, number, token_correlation,
}
use hsin_rs.Usage.Tokens.{no_tokens, openai_tokens}
use hsin_rs.Usage.Session.{claude_tokens_of}

abbrev pub max_proxy_observation_bytes : ℕ
max_proxy_observation_bytes = 1024 * 1024

pub record ProxyUsageObserver (Time : Type 0) : Type 0 where
  pub provider_id : Text
  pub provider_name : Text
  pub provider_revision : ℕ  -- u64
  pub client : ClientKind
  pub event_at : Time
  pub is_sse : Bool
  pub buffer : Bytes
  pub exceeded : Bool
  pub recorded : Bool
  pub claude_id : Option Text
  pub claude_model : Option Text
  pub fallback_model : Option Text
  pub claude_tokens : UsageTokenSummary
  pub submitted : List (UsageEvent Time)  -- what went to the collector's `insert_event`, the last first

-- `bytes.windows(n).position(|window| window == pattern)`
unfoldable pub position : Bytes → Bytes → Option ℕ
unfolding starts_with
position pattern [] = none
position pattern (b ∷ bs) =
    let later = and_then (position pattern bs) (λ n. some (suc n)) in
    if starts_with pattern (b ∷ bs) then some 0 else later

unfoldable pub sse_boundary : Bytes → Option (ℕ × ℕ)
unfolding position
sse_boundary bytes =
    or_else (and_then (position (b'\n' ∷ b'\n' ∷ []) bytes) (λ i. some (i, 2)))
      (and_then (position (b'\r' ∷ b'\n' ∷ b'\r' ∷ b'\n' ∷ []) bytes) (λ i. some (i, 4)))

-- `event.split(|byte| *byte == b'\n')`
abbrev pub cons_part : ℕ → List Bytes → List Bytes
cons_part b [] = (b ∷ []) ∷ []
cons_part b (part ∷ parts) = (b ∷ part) ∷ parts

abbrev pub split_parts : Bytes → List Bytes
split_parts [] = [] ∷ []
split_parts (b ∷ bs) =
    let parts = split_parts bs in if b == b'\n' then [] ∷ parts else cons_part b parts

-- The `data:` fields of an event, joined by line feeds.
abbrev pub data_of : List Bytes → Bytes → Bytes
data_of [] fields = fields
data_of (part ∷ parts) fields =
    let line = unwrap_or (strip_suffix (b'\r' ∷ []) part) part in
    elim (strip_prefix (codes "data:") line) [
      | none ↦ data_of parts fields
      | some value ↦ data_of parts (
          (if is_nil fields then fields else fields ++ (b'\n' ∷ []))
          ++ unwrap_or (strip_prefix (codes " ") value) value)
    ]

abbrev pub is_claude : ClientKind → Bool
is_claude claude = true
is_claude codex = false

module _ (json : Json) where
  open json use {Value, Time, get, pointer, as_str, is_null, from_slice, digest}

  abbrev pub Observer : Type 0
  Observer = ProxyUsageObserver Time

  unfoldable pub submit : UsageEvent Time → Observer → Observer
  submit event o = record o { recorded = true; submitted = event ∷ o.submitted }

  abbrev pub event_of : Observer → Text → UsageTokenSummary → Text → Text → UsageEvent Time
  event_of o model tokens dedup_key correlation_key = record {
    client = o.client;
    source = UsageDataSource.proxy;
    provider_id = some o.provider_id;
    provider_name = o.provider_name;
    provider_revision = o.provider_revision;
    model = model;
    event_at = o.event_at;
    tokens = tokens;
    attribution = exact;
    dedup_key = dedup_key;
    correlation_key = some correlation_key;
  }

  abbrev pub model_or : Option Text → Observer → Text
  model_or model o = unwrap_or (or_else model o.fallback_model) (codes "unknown")

  unfoldable pub record_claude : Observer → Observer
  unfolding submit
  record_claude o =
      if o.recorded || total_tokens o.claude_tokens == 0
      then o
      else let tokens = record o.claude_tokens { request_count = 1 } in
        let model = model_or o.claude_model o in
        let correlation : Text = elim o.claude_id [
          | none ↦ token_correlation json o.client model tokens
          | some id ↦ digest (codes "claude:" ++ id)
        ] in
        let o = record o { claude_tokens = tokens } in
        submit (event_of o model tokens correlation correlation) o

  abbrev dedup_of : Observer → Value → Text → Text
  dedup_of o value correlation = elim (and_then (get "id" value) as_str) [
    | none ↦ codes "proxy:" ++ correlation
    | some id ↦ digest (codes "proxy:" ++ (client_as_str o.client ++ (b':' ∷ id)))
  ]

  abbrev pub tokens_of : ClientKind → Value → UsageTokenSummary
  tokens_of client usage =
      if is_claude client then claude_tokens_of json usage else openai_tokens json usage

  unfoldable pub record_openai : Value → Observer → Observer
  unfolding submit
  record_openai value o = if o.recorded then o else elim (get "usage" value) [
    | none ↦ o
    | some usage ↦
        (let tokens = tokens_of o.client usage in
          if total_tokens tokens == 0
          then o
          else let model = model_or (and_then (get "model" value) as_str) o in
            let correlation = token_correlation json o.client model tokens in
            submit (event_of o model tokens (dedup_of o value correlation) correlation) o)
  ]

  abbrev pub message_start : Value → Observer → Observer
  message_start value o = elim (get "message" value) [
    | none ↦ o
    | some message ↦
        (let o = record o {
          claude_id = and_then (get "id" message) as_str;
          claude_model = and_then (get "model" message) as_str;
        } in
          elim (get "usage" message) [
            | none ↦ o
            | some usage ↦ record o {
              claude_tokens = record o.claude_tokens {
                input_tokens = number json usage "input_tokens";
                cache_write_tokens = number json usage "cache_creation_input_tokens";
                cache_read_tokens = number json usage "cache_read_input_tokens";
              };
            }
          ])
  ]

  abbrev pub output_counted : Value → Observer → Observer
  output_counted value o = elim (get "usage" value) [
    | none ↦ o
    | some usage ↦ record o {
      claude_tokens = record o.claude_tokens { output_tokens = number json usage "output_tokens" };
    }
  ]

  abbrev pub message_delta : Value → Observer → Observer
  message_delta value o =
      let o = output_counted value o in
      let done = record_claude o in
      if is_some_and (pointer "/delta/stop_reason" value) (λ v. not (is_null v)) then done else o

  abbrev pub has_kind : Option Text → String → Bool
  has_kind kind name = is_some_and kind (λ t. text_eq t (codes name))

  unfoldable pub parse_json : Value → Observer → Observer
  unfolding record_claude record_openai text_eq
  parse_json value o =
      let kind = and_then (get "type" value) as_str in
      if has_kind kind "message_start"
      then message_start value o
      else if has_kind kind "message_delta"
      then message_delta value o
      else if has_kind kind "message_stop"
      then record_claude o
      else if has_kind kind "response.completed"
      then elim (get "response" value) [ none ↦ o | some response ↦ record_openai response o ]
      else if is_some (get "usage" value)
      then record_openai value o
      else o

  abbrev pub claude_done : Observer → Observer
  claude_done o =
      if is_claude o.client && ltb 0 (total_tokens o.claude_tokens) then record_claude o else o

  abbrev pub consume_event : Bytes → Observer → Observer
  consume_event event o =
      let fields = data_of (split_parts event) [] in
      if text_eq fields (codes "[DONE]")
      then claude_done o
      else elim (from_slice fields) [ none ↦ o | some value ↦ parse_json value o ]

  -- The `while let`, each turn of which shortens the buffer: its length is fuel enough.
  unfoldable pub consume : ℕ → Observer → Observer
  unfolding sse_boundary parse_json
  consume zero o = o
  consume (suc fuel) o = elim (sse_boundary o.buffer) [
    | none ↦ o
    | some (boundary, delimiter) ↦ consume fuel (
        consume_event (take (boundary + delimiter) o.buffer)
          (record o { buffer = drop (boundary + delimiter) o.buffer }))
  ]

  unfoldable pub consume_sse_events : Observer → Observer
  unfolding consume
  consume_sse_events o = consume (length o.buffer) o

  unfoldable pub feed : Bytes → Observer → Observer
  unfolding consume_sse_events
  feed bytes o =
      if o.exceeded || o.recorded
      then o
      else if ltb max_proxy_observation_bytes (saturating_add (length o.buffer) (length bytes))
      then record o { buffer = []; exceeded = true }
      else let o = record o { buffer = o.buffer ++ bytes } in
        if o.is_sse then consume_sse_events o else o

  unfoldable pub finish : Observer → Observer
  unfolding consume_sse_events
  finish o =
      if o.exceeded || o.recorded
      then o
      else if o.is_sse
      then claude_done (consume_sse_events o)
      else elim (from_slice o.buffer) [ none ↦ o | some value ↦ parse_json value o ]
