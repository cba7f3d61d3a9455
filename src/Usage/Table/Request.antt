-- ===== src/Usage/Table/Request.antt =====
-- One request to Claude, as the proxy and the session file tell it (crates/hsind/src/usage.rs).
use hsin_rs.Prelude.{
  ◌==◌, false, not, Option, some, and_then, and_then-eq-some, some_injective, List, ◌∷◌, ◌++◌, Text,
  codes, if_ind, ◌≡◌, refl, ap, sym, ◌∙◌,
}
use hsin_rs.Core.Usage.{total_tokens}
use hsin_rs.Usage.Event.{Json, UsageEvent, session, proxy, timestamp}
use hsin_rs.Usage.Session.{parse_claude_session, has_type}
use hsin_rs.Usage.Observer.{Observer, record_claude, submit}
use hsin_rs.Usage.Table.{Calendar, Tables, insert_event}
use hsin_rs.Usage.Table.Keys.{Unique, copies, copies-Unique, insert_event-Unique}
use hsin_rs.Usage.Table.Attribution.{IsBilledTo, insert_event-either_order}

module _ (json : Json) where
  open json use {Value, Time, get, as_str, digest}

  -- The ID of the message in a session's line.
  abbrev pub message_id : Value → Option Text
  message_id value = and_then (get "message" value) λ m. and_then (get "id" m) as_str

  parse_claude_session-key :
      (value : Value) {e : UsageEvent Time} {id : Text}
      → parse_claude_session json value ≡ some e
      → message_id value ≡ some id
      → (e.dedup_key ≡ digest (codes "claude:" ++ id)) × (e.source ≡ session)
  unfolding parse_claude_session
  parse_claude_session-key value {e} {id} =
      if_ind
        (λ (parsed : Option (UsageEvent Time)).
          parsed ≡ some e
          → message_id value ≡ some id
          → (e.dedup_key ≡ digest (codes "claude:" ++ id)) × (e.source ≡ session))
        (not (has_type json "assistant" value)) (λ other h k. cc)
        (λ assistant h k.
          let (message, m, h) = and_then-eq-some (get "message" value) _ h in
          let (usage, u, h) = and_then-eq-some (get "usage" message) _ h in
          let (own, i, h) = and_then-eq-some (and_then (get "id" message) as_str) _ h in
          let (model, n, h) = and_then-eq-some (and_then (get "model" message) as_str) _ h in
          let (at, t, h) = and_then-eq-some (timestamp json value) _ h in
          let same : own ≡ id =
            some_injective
              (sym i ∙ ap (λ o. and_then o (λ m. and_then (get "id" m) as_str)) (sym m) ∙ k) in
          (
            ap (λ e. e.dedup_key) (sym (some_injective h))
                ∙ ap (λ t. digest (codes "claude:" ++ t)) same,
            ap (λ e. e.source) (sym (some_injective h)),
          ))

  record_claude-event :
      (o : Observer json) {id : Text}
      → o.recorded ≡ false
      → (total_tokens o.claude_tokens == 0) ≡ false
      → o.claude_id ≡ some id
      → (p : UsageEvent Time) × ((record_claude json o).submitted ≡ p ∷ o.submitted)
        × (p.dedup_key ≡ digest (codes "claude:" ++ id))
        × (p.source ≡ proxy)
  unfolding record_claude submit
  record_claude-event o open_still used named = rw (open_still, used, named) (_, refl, refl, refl)

  -- There is one row of an event's key, and it bills the event's provider.
  pub record IsOneRow (p : UsageEvent Time) (rows : List (UsageEvent Time)) : Type 0 where
    pub one : copies p.dedup_key rows ≡ 1
    pub billed : IsBilledTo p rows

  one_row :
      (p : UsageEvent Time) (rows : List (UsageEvent Time))
      → Unique rows
      → IsBilledTo p rows
      → IsOneRow p rows
  one_row p rows u billed = record {
    one = copies-Unique p.dedup_key rows u billed.found;
    billed = billed;
  }

  -- Where no two rows have one key, a message that the proxy watched and a session's line tells again
  -- comes to be in exactly one row of its key, billed to the provider that the proxy sent it to, in
  -- whichever order the two reach the tables.
  pub record_claude-session :
      (calendar : Calendar Time) (t : Tables Time) (o : Observer json) (value : Value)
      {e : UsageEvent Time} {id : Text}
      → Unique t.rows
      → o.recorded ≡ false
      → (total_tokens o.claude_tokens == 0) ≡ false
      → o.claude_id ≡ some id
      → parse_claude_session json value ≡ some e
      → message_id value ≡ some id
      → (p : UsageEvent Time) × ((record_claude json o).submitted ≡ p ∷ o.submitted)
        × IsOneRow p (insert_event calendar e (insert_event calendar p t).1).1.rows
        × IsOneRow p (insert_event calendar p (insert_event calendar e t).1).1.rows
  record_claude-session calendar t o value {e} unique open_still used named parsed same =
      let (p, submitted, p_key, from_proxy) = record_claude-event o open_still used named in
      let (e_key, from_session) = parse_claude_session-key value parsed same in
      let (first, last) =
        insert_event-either_order calendar p e t from_proxy from_session (e_key ∙ sym p_key) in
      let twice = λ (a b : UsageEvent Time).
        insert_event-Unique calendar b (insert_event calendar a t).1
          (insert_event-Unique calendar a t unique) in
      (p, submitted, one_row p _ (twice p e) first, one_row p _ (twice e p) last)
