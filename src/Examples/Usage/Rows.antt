-- ===== src/Examples/Usage/Rows.antt =====
-- A request to Claude of 40 tokens, as the proxy saw it and as a session tells it.
use hsin_rs.Prelude.{
  length, suc, ◌≤◌, ◌⊎◌, ℕ, ◌-◌, ◌+◌, ◌==◌, false, true, none, some, [], ◌∷◌, text_eq, codes, ◌≡◌,
  refl,
}
use hsin_rs.Core.Enums.{codex, claude}
use hsin_rs.Core.Usage.{UsageTokenSummary, total_tokens}
use hsin_rs.Usage.Event.{
  UsageEvent, UsageDataSource, session, proxy, exact, unattributed, timestamp, token_correlation,
}
use hsin_rs.Usage.Tokens.{no_tokens}
use hsin_rs.Usage.Session.{parse_claude_session}
use hsin_rs.Usage.Observer.{Observer, record_claude}
use hsin_rs.Usage.Sync.{session_event_key}
use hsin_rs.Usage.Table.{
  Calendar, Tables, find_row, insert_event, relabel_unknown_event, unknown_of,
}
use hsin_rs.Usage.Table.Keys.{Unique}
use hsin_rs.Usage.Table.Others.{IsSuperseded, insert_event-others}
use hsin_rs.Usage.Table.Attribution.{insert_event_idem}
use hsin_rs.Usage.Table.Request.{IsOneRow, record_claude-session}
use hsin_rs.Usage.Table.Relabel.{relabel_unknown_event-Unique}
use hsin_rs.Examples.Usage.{sample_json, Sample, text, count, object, field, end}

abbrev days : Calendar ℕ
days = record {
  local_date = λ t. t ∷ [];
  distance = λ a b. (a - b) + (b - a);
  earlier = λ t. t - 120;
  later = λ t. t + 120;
}

abbrev tokens : UsageTokenSummary
tokens = record no_tokens { input_tokens = 30; output_tokens = 10; request_count = 1 }

abbrev event : UsageDataSource → UsageEvent ℕ
event source = record {
  client = claude;
  source = source;
  provider_id = some (codes "p1");
  provider_name = codes "Provider";
  provider_revision = 1;
  model = codes "m";
  event_at = 100;
  tokens = tokens;
  attribution = exact;
  dedup_key = codes "key";
  correlation_key = some (codes "key");
}

abbrev told : UsageEvent ℕ
told = record (event session) { provider_id = none; attribution = unattributed }

abbrev tables : Tables ℕ
tables = record { rows = record told { dedup_key = codes "other" } ∷ []; dirty = [] }

insert_event-others_example :
    ((find_row (codes "other") (insert_event days (event proxy) tables).1.rows
        ≡ some (record told { dedup_key = codes "other" }))
      ⊎ IsSuperseded days (event proxy) (record told { dedup_key = codes "other" }) tables.rows)
    × (length tables.rows ≤ suc (length (insert_event days (event proxy) tables).1.rows))
unfolding text_eq
insert_event-others_example =
    insert_event-others days (event proxy) tables (codes "other")
      {r = record told { dedup_key = codes "other" }} refl refl

insert_event_idem_example :
    (insert_event days told (insert_event days told tables).1).1.rows
    ≡ (insert_event days told tables).1.rows
insert_event_idem_example = insert_event_idem days told tables refl

abbrev usage : Sample
usage = object (field "input_tokens" (count 30) (field "output_tokens" (count 10) end))

abbrev line : Sample
line = object (
    field "type" (text (codes "assistant")) (
      field "timestamp" (count 100) (
        field "message"
          (object (
            field "id" (text (codes "msg"))
              (field "model" (text (codes "m")) (field "usage" usage end))))
          end)))

abbrev watching : Observer sample_json
watching = record {
  provider_id = codes "p1";
  provider_name = codes "Provider";
  provider_revision = 3;
  client = claude;
  event_at = 101;
  is_sse = true;
  buffer = [];
  exceeded = false;
  recorded = false;
  claude_id = some (codes "msg");
  claude_model = some (codes "m");
  fallback_model = none;
  claude_tokens = tokens;
  submitted = [];
}

parsed : (e : UsageEvent ℕ) × (parse_claude_session sample_json line ≡ some e)
unfolding parse_claude_session timestamp
parsed = (_, refl)

unspent : (total_tokens watching.claude_tokens == 0) ≡ false
unfolding total_tokens
unspent = refl

record_claude-session_example :
    (p : UsageEvent ℕ) × ((record_claude sample_json watching).submitted ≡ p ∷ [])
    × IsOneRow sample_json p (insert_event days parsed.0 (insert_event days p tables).1).1.rows
    × IsOneRow sample_json p (insert_event days p (insert_event days parsed.0 tables).1).1.rows
record_claude-session_example =
    record_claude-session sample_json days tables watching line (refl, tt) refl unspent refl
      parsed.1 refl

abbrev counted : UsageEvent ℕ
counted = record told {
  client = codex;
  correlation_key = some (token_correlation sample_json codex (codes "m") tokens);
}

apart :
    text_eq
      (session_event_key sample_json (unknown_of sample_json counted) (codes "h") 7)
      (session_event_key sample_json counted (codes "h") 7)
    ≡ false
unfolding session_event_key token_correlation text_eq
apart = refl

relabel_unknown_event-Unique_example :
    (let rows = (relabel_unknown_event sample_json days counted (codes "h") 7 tables).rows in
      (find_row (session_event_key sample_json (unknown_of sample_json counted) (codes "h") 7) rows
        ≡ none)
      × Unique rows)
relabel_unknown_event-Unique_example =
    relabel_unknown_event-Unique sample_json days counted (codes "h") 7 tables apart (refl, tt)
