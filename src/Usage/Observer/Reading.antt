-- ===== src/Usage/Observer/Reading.antt =====
-- What the observer of crates/hsind/src/usage.rs learns from an event does not depend on what its buffer holds.
use hsin_rs.Prelude.{
  ltb, ◌==◌, Bool, true, false, ◌&&◌, ◌||◌, Option, none, some, is_some, is_some_and, and_then, [],
  not, text_eq, codes, if◌then◌else◌, ◌≡◌, refl, ap, ◌∙◌,
}
use hsin_rs.Core.Usage.{total_tokens}
use hsin_rs.Ipc.Protocol.{Bytes}
use hsin_rs.Usage.Event.{Json}
use hsin_rs.Usage.Observer.{
  Observer, tokens_of, has_kind, split_parts, data_of, message_start, message_delta, output_counted,
  record_claude, record_openai, submit, parse_json, claude_done, is_claude, consume_event,
}

-- A map of the results is one of each branch.
if_map :
    {A B : Type 0} (f : A → B) (t : Bool) {x y : A} {u v : B}
    → u ≡ f x
    → v ≡ f y
    → (if t then u else v) ≡ f (if t then x else y)
if_map f true h k = h
if_map f false h k = k

option_map :
    {A B C : Type 0} (f : A → B) (o : Option C) {x : A} {u : B} {y : C → A} {v : C → B}
    → u ≡ f x
    → ((c : C) → v c ≡ f (y c))
    → elim o [ none ↦ u | some c ↦ v c ] ≡ f (elim o [ none ↦ x | some c ↦ y c ])
option_map f none h k = h
option_map f (some c) h k = k c

module _ (json : Json) (bytes : Bytes) where
  open json use {Value, get, pointer, as_str, is_null, from_slice}

  abbrev pub with_buffer : Observer json → Observer json
  with_buffer o = record o { buffer = bytes }

  record_claude-with_buffer :
      (o : Observer json) → record_claude json (with_buffer o) ≡ with_buffer (record_claude json o)
  unfolding record_claude submit
  record_claude-with_buffer o =
      if_map with_buffer (o.recorded || total_tokens o.claude_tokens == 0) refl refl

  record_openai-with_buffer :
      (value : Value) (o : Observer json)
      → record_openai json value (with_buffer o) ≡ with_buffer (record_openai json value o)
  unfolding record_openai submit
  record_openai-with_buffer value o = if_map with_buffer o.recorded refl (
      option_map with_buffer (get "usage" value) refl
        (λ usage. if_map with_buffer (total_tokens (tokens_of json o.client usage) == 0) refl refl))

  message_start-with_buffer :
      (value : Value) (o : Observer json)
      → message_start json value (with_buffer o) ≡ with_buffer (message_start json value o)
  message_start-with_buffer value o =
      option_map with_buffer (get "message" value) refl
        (λ message. option_map with_buffer (get "usage" message) refl (λ usage. refl))

  output_counted-with_buffer :
      (value : Value) (o : Observer json)
      → output_counted json value (with_buffer o) ≡ with_buffer (output_counted json value o)
  output_counted-with_buffer value o =
      option_map with_buffer (get "usage" value) refl (λ usage. refl)

  message_delta-with_buffer :
      (value : Value) (o : Observer json)
      → message_delta json value (with_buffer o) ≡ with_buffer (message_delta json value o)
  message_delta-with_buffer value o =
      if_map with_buffer (is_some_and (pointer "/delta/stop_reason" value) (λ v. not (is_null v)))
        (ap (record_claude json) (output_counted-with_buffer value o)
          ∙ record_claude-with_buffer (output_counted json value o))
        (output_counted-with_buffer value o)

  parse_json-with_buffer :
      (value : Value) (o : Observer json)
      → parse_json json value (with_buffer o) ≡ with_buffer (parse_json json value o)
  unfolding parse_json
  parse_json-with_buffer value o =
      let kind = and_then (get "type" value) as_str in
      if_map with_buffer (has_kind json kind "message_start") (message_start-with_buffer value o) (
        if_map with_buffer (has_kind json kind "message_delta") (message_delta-with_buffer value o)
          (if_map with_buffer (has_kind json kind "message_stop") (record_claude-with_buffer o) (
            if_map with_buffer (has_kind json kind "response.completed")
              (option_map with_buffer (get "response" value) refl
                (λ r. record_openai-with_buffer r o))
              (if_map with_buffer (is_some (get "usage" value)) (record_openai-with_buffer value o)
                refl))))

  claude_done-with_buffer :
      (o : Observer json) → claude_done json (with_buffer o) ≡ with_buffer (claude_done json o)
  claude_done-with_buffer o =
      if_map with_buffer (is_claude o.client && ltb 0 (total_tokens o.claude_tokens))
        (record_claude-with_buffer o) refl

  pub consume_event-with_buffer :
      (event : Bytes) (o : Observer json)
      → consume_event json event (with_buffer o) ≡ with_buffer (consume_event json event o)
  consume_event-with_buffer event o =
      let fields = data_of (split_parts event) [] in
      if_map with_buffer (text_eq fields (codes "[DONE]")) (claude_done-with_buffer o)
        (option_map with_buffer (from_slice fields) refl (λ value. parse_json-with_buffer value o))
