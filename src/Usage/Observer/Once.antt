-- ===== src/Usage/Observer/Once.antt =====
-- How often the observer of crates/hsind/src/usage.rs submits an event, and what it keeps of a response.
use hsin_rs.Prelude.{
  true-false, ℕ, ◌==◌, Bool, true, false, ◌||◌, is_some, [], length, text_eq, codes, and_then,
  if_ind, option_ind, ◌≡◌, refl, ap, sym, ◌∙◌, arith,
}
use hsin_rs.Core.Usage.{total_tokens}
use hsin_rs.Ipc.Protocol.{Bytes}
use hsin_rs.Usage.Event.{Json, UsageEvent}
use hsin_rs.Usage.Observer.{
  Observer, tokens_of, has_kind, split_parts, data_of, message_start, message_delta, output_counted,
  submit, record_claude, record_openai, parse_json, claude_done, consume_event,
}

-- One event where one is recorded.
abbrev pub counted_as : Bool → ℕ
counted_as true = 1
counted_as false = 0

or_false : (a b : Bool) → (a || b) ≡ false → a ≡ false
or_false true b h = cc
or_false false b h = refl

module _ (json : Json) where
  open json use {Value, Time, get, as_str, from_slice}

  -- What reading a value does to the observer, but for what it learns of the message.
  pub record Step (o after : Observer json) : Type 0 where
    pub buffer : after.buffer ≡ o.buffer
    pub exceeded : after.exceeded ≡ o.exceeded
    pub is_sse : after.is_sse ≡ o.is_sse
    pub once :
        length o.submitted ≡ counted_as o.recorded
        → length after.submitted ≡ counted_as after.recorded
    pub last : o.recorded ≡ true → (after.recorded ≡ true) × (after.submitted ≡ o.submitted)

  abbrev pub stay : (o : Observer json) → Step o o
  stay o = record {
    buffer = refl;
    exceeded = refl;
    is_sse = refl;
    once = λ h. h;
    last = λ h. (h, refl);
  }

  abbrev pub then_step : {o mid after : Observer json} → Step o mid → Step mid after → Step o after
  then_step s t = record {
    buffer = t.buffer ∙ s.buffer;
    exceeded = t.exceeded ∙ s.exceeded;
    is_sse = t.is_sse ∙ s.is_sse;
    once = λ h. t.once (s.once h);
    last = λ h. let (r, same) = s.last h in let (r2, same2) = t.last r in (r2, same2 ∙ same);
  }

  -- What a value tells of a message, without an event.
  learns :
      (o after : Observer json)
      → after.buffer ≡ o.buffer
      → after.exceeded ≡ o.exceeded
      → after.is_sse ≡ o.is_sse
      → after.recorded ≡ o.recorded
      → after.submitted ≡ o.submitted
      → Step o after
  learns o after b e i r s = record {
    buffer = b;
    exceeded = e;
    is_sse = i;
    once = λ h. ap length s ∙ h ∙ ap counted_as (sym r);
    last = λ h. (r ∙ h, s);
  }

  submit-Step :
      (event : UsageEvent Time) (o : Observer json)
      → o.recorded ≡ false
      → Step o (submit json event o)
  unfolding submit
  submit-Step event o open_still = record {
    buffer = refl;
    exceeded = refl;
    is_sse = refl;
    once = λ h. ground (arith, h, ap counted_as open_still);
    last = λ h. absurd (true-false (sym h ∙ open_still));
  }

  record_claude-Step : (o : Observer json) → Step o (record_claude json o)
  unfolding record_claude
  record_claude-Step o =
      if_ind (Step o) (o.recorded || total_tokens o.claude_tokens == 0) (λ done. stay o)
        (λ go_on.
          let counted : Observer json = record o {
            claude_tokens = record o.claude_tokens { request_count = 1 };
          } in
          then_step (learns o counted refl refl refl refl refl)
            (submit-Step _ counted (or_false o.recorded _ go_on)))

  record_openai-Step : (value : Value) (o : Observer json) → Step o (record_openai json value o)
  unfolding record_openai
  record_openai-Step value o =
      if_ind (Step o) o.recorded (λ done. stay o)
        (λ open_still.
          option_ind (Step o) (get "usage" value) (λ n. stay o)
            (λ usage h.
              if_ind (Step o) (total_tokens (tokens_of json o.client usage) == 0)
                (λ nothing. stay o) (λ some_tokens. submit-Step _ o open_still)))

  message_start-Step : (value : Value) (o : Observer json) → Step o (message_start json value o)
  message_start-Step value o =
      option_ind (Step o) (get "message" value) (λ n. stay o)
        (λ message h.
          option_ind (Step o) (get "usage" message) (λ n. learns o _ refl refl refl refl refl)
            (λ usage h. learns o _ refl refl refl refl refl))

  output_counted-Step : (value : Value) (o : Observer json) → Step o (output_counted json value o)
  output_counted-Step value o =
      option_ind (Step o) (get "usage" value) (λ n. stay o)
        (λ usage h. learns o _ refl refl refl refl refl)

  message_delta-Step : (value : Value) (o : Observer json) → Step o (message_delta json value o)
  message_delta-Step value o =
      if_ind (Step o) _
        (λ stopped.
          then_step (output_counted-Step value o)
            (record_claude-Step (output_counted json value o)))
        (λ goes_on. output_counted-Step value o)

  pub parse_json-Step : (value : Value) (o : Observer json) → Step o (parse_json json value o)
  unfolding parse_json
  parse_json-Step value o =
      let kind = and_then (get "type" value) as_str in
      if_ind (Step o) (has_kind json kind "message_start") (λ start. message_start-Step value o)
        (λ other.
          if_ind (Step o) (has_kind json kind "message_delta") (λ delta. message_delta-Step value o)
            (λ other.
              if_ind (Step o) (has_kind json kind "message_stop") (λ stop. record_claude-Step o)
                (λ other.
                  if_ind (Step o) (has_kind json kind "response.completed")
                    (λ completed.
                      option_ind (Step o) (get "response" value) (λ n. stay o)
                        (λ response h. record_openai-Step response o))
                    (λ other.
                      if_ind (Step o) (is_some (get "usage" value))
                        (λ usage. record_openai-Step value o) (λ nothing. stay o)))))

  pub claude_done-Step : (o : Observer json) → Step o (claude_done json o)
  claude_done-Step o = if_ind (Step o) _ (λ some_tokens. record_claude-Step o) (λ nothing. stay o)

  pub consume_event-Step : (event : Bytes) (o : Observer json) → Step o (consume_event json event o)
  unfolding text_eq
  consume_event-Step event o =
      if_ind (Step o) (text_eq (data_of (split_parts event) []) (codes "[DONE]"))
        (λ done. claude_done-Step o)
        (λ other.
          option_ind (Step o) (from_slice (data_of (split_parts event) [])) (λ n. stay o)
            (λ value h. parse_json-Step value o))
