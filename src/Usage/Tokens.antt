-- ===== src/Usage/Tokens.antt =====
-- Token counts of crates/hsind/src/usage.rs: read from an OpenAI `usage` object, subtracted and added.
use hsin_rs.Prelude.{
  ◌-◌, ltb, Bool, ◌||◌, String, and_then, or_else, unwrap_or, saturating_add, if◌then◌else◌,
}
use hsin_rs.Core.Usage.{UsageTokenSummary}
use hsin_rs.Usage.Event.{Json}

abbrev pub no_tokens : UsageTokenSummary
no_tokens = record {
  input_tokens = 0;
  cache_write_tokens = 0;
  cache_read_tokens = 0;
  output_tokens = 0;
  reasoning_output_tokens = 0;
  request_count = 0;
}

module _ (json : Json) where
  open json use {Value, get, pointer, as_u64}

  unfoldable pub openai_tokens : Value → UsageTokenSummary
  openai_tokens usage =
      let at = λ (p : String). and_then (pointer p usage) as_u64 in
      let key = λ (k : String). and_then (get k usage) as_u64 in
      let total_input = unwrap_or (or_else (key "input_tokens") (key "prompt_tokens")) 0 in
      let cache_read =
        unwrap_or
          (or_else (at "/input_tokens_details/cached_tokens")
            (or_else (at "/prompt_tokens_details/cached_tokens") (key "cached_input_tokens")))
          0 in
      let cache_write = unwrap_or (at "/input_tokens_details/cache_write_tokens") 0 in
      record {
        input_tokens = total_input - cache_read - cache_write;
        cache_write_tokens = cache_write;
        cache_read_tokens = cache_read;
        output_tokens = unwrap_or (or_else (key "output_tokens") (key "completion_tokens")) 0;
        reasoning_output_tokens =
            unwrap_or
              (or_else (at "/output_tokens_details/reasoning_tokens") (
                or_else (at "/completion_tokens_details/reasoning_tokens")
                  (key "reasoning_output_tokens")))
              0;
        request_count = 1;
      }

-- Some count fell: the session started over.
abbrev pub has_reset : UsageTokenSummary → UsageTokenSummary → Bool
has_reset current previous =
    ltb current.input_tokens previous.input_tokens
    || ltb current.cache_write_tokens previous.cache_write_tokens
    || ltb current.cache_read_tokens previous.cache_read_tokens
    || ltb current.output_tokens previous.output_tokens
    || ltb current.reasoning_output_tokens previous.reasoning_output_tokens

unfoldable pub subtract_tokens : UsageTokenSummary → UsageTokenSummary → UsageTokenSummary
subtract_tokens current previous = if has_reset current previous then current else record {
  input_tokens = current.input_tokens - previous.input_tokens;
  cache_write_tokens = current.cache_write_tokens - previous.cache_write_tokens;
  cache_read_tokens = current.cache_read_tokens - previous.cache_read_tokens;
  output_tokens = current.output_tokens - previous.output_tokens;
  reasoning_output_tokens = current.reasoning_output_tokens - previous.reasoning_output_tokens;
  request_count = 1;
}

unfoldable pub add_tokens : UsageTokenSummary → UsageTokenSummary → UsageTokenSummary
add_tokens t v = record {
  input_tokens = saturating_add t.input_tokens v.input_tokens;
  cache_write_tokens = saturating_add t.cache_write_tokens v.cache_write_tokens;
  cache_read_tokens = saturating_add t.cache_read_tokens v.cache_read_tokens;
  output_tokens = saturating_add t.output_tokens v.output_tokens;
  reasoning_output_tokens = saturating_add t.reasoning_output_tokens v.reasoning_output_tokens;
  request_count = saturating_add t.request_count v.request_count;
}
