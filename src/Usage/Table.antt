-- ===== src/Usage/Table.antt =====
-- The statements of `insert_event` and `relabel_unknown_event` of crates/hsind/src/usage.rs on the tables
-- `usage_events` and `usage_rollup_dirty` of crates/hsind/src/db.rs, as operations on their rows: `dedup_key` is
-- UNIQUE in the first. Rows of one distance stand in their order, which SQL leaves open.
pub mod Keys
pub mod Rename
pub mod Others
pub mod Attribution
pub mod Request
pub mod Relabel
use hsin_rs.Prelude.{
  ℕ, ◌==◌, leb, min, max, Bool, true, false, not, ◌&&◌, ◌||◌, Option, none, some, is_some, is_none,
  is_some_and, unwrap_or, and_then, List, [], ◌∷◌, Text, codes, text_eq, any_of, keep,
  if◌then◌else◌,
}
use hsin_rs.Core.Enums.{ClientKind, claude, codex}
use hsin_rs.Core.Clients.Settings.{client_eq}
use hsin_rs.Usage.Event.{
  Json, UsageEvent, UsageDataSource, UsageAttribution, session, proxy, token_correlation,
}
use hsin_rs.Usage.Sync.{session_event_key}

-- `chrono`'s local days, and what SQL computes of times.
pub record Calendar (Time : Type 0) : Type 0 where
  pub local_date : Time → Text
  pub distance : Time → Time → ℕ  -- `abs(a-b)`
  pub earlier : Time → Time  -- by two minutes
  pub later : Time → Time

abbrev pub by_source {ℓ} : {A : Type ℓ} → UsageDataSource → A → A → A
by_source proxy x y = x
by_source session x y = y

-- The columns of a row are those of the event, but for `id` and `created_at`.
pub record Tables (Time : Type 0) : Type 0 where
  pub rows : List (UsageEvent Time)
  pub dirty : List (ClientKind × Text)

-- INSERT OR IGNORE INTO usage_rollup_dirty
abbrev pub mark : ClientKind → Text → List (ClientKind × Text) → List (ClientKind × Text)
unfolding text_eq
mark client day days =
    if any_of (λ d. client_eq client d.0 && text_eq day d.1) days
    then days
    else (client, day) ∷ days

module _ {Time : Type 0} where
  -- SELECT … WHERE dedup_key=key
  abbrev pub find_row : Text → List (UsageEvent Time) → Option (UsageEvent Time)
  find_row key [] = none
  find_row key (r ∷ rs) =
      let rest = find_row key rs in if text_eq key r.dedup_key then some r else rest

  -- ON CONFLICT(dedup_key) DO UPDATE SET …
  abbrev pub merged : UsageEvent Time → UsageEvent Time → UsageEvent Time
  merged e r = record r {
    source = by_source e.source e.source r.source;
    provider_id = by_source e.source e.provider_id r.provider_id;
    provider_name = by_source e.source e.provider_name r.provider_name;
    provider_revision = by_source e.source e.provider_revision r.provider_revision;
    attribution = by_source e.source e.attribution r.attribution;
    tokens = record r.tokens {
      output_tokens = max r.tokens.output_tokens e.tokens.output_tokens;
      reasoning_output_tokens =
          max r.tokens.reasoning_output_tokens e.tokens.reasoning_output_tokens;
    };
  }

  unfoldable pub upsert : UsageEvent Time → List (UsageEvent Time) → List (UsageEvent Time)
  unfolding text_eq
  upsert e [] = e ∷ []
  upsert e (r ∷ rs) =
      let rest = upsert e rs in
      if text_eq e.dedup_key r.dedup_key then merged e r ∷ rs else r ∷ rest

  unfoldable pub delete_first :
      (UsageEvent Time → Bool) → List (UsageEvent Time) → List (UsageEvent Time)
  delete_first p [] = []
  delete_first p (r ∷ rs) = let rest = delete_first p rs in if p r then rs else r ∷ rest

  -- UPDATE OR IGNORE … SET model,correlation_key,dedup_key WHERE dedup_key=from: the key is free.
  unfoldable pub rename :
      Text → UsageEvent Time → Text → List (UsageEvent Time) → List (UsageEvent Time)
  unfolding text_eq
  rename from e to [] = []
  rename from e to (r ∷ rs) =
      let rest = rename from e to rs in
      if text_eq from r.dedup_key
      then record r { model = e.model; correlation_key = e.correlation_key; dedup_key = to } ∷ rest
      else r ∷ rest

  -- Under an event's key for the model `unknown`, its row takes the event's model and key, and goes where that key
  -- has a row.
  unfoldable pub relabel_row :
      Text → Text → UsageEvent Time → List (UsageEvent Time) → List (UsageEvent Time)
  unfolding rename
  relabel_row from to e rows =
      if is_some (find_row to rows) && not (text_eq to from)
      then keep (λ r. not (text_eq from r.dedup_key)) rows
      else rename from e to rows

  module _ (calendar : Calendar Time) where
    open calendar use {local_date, distance, earlier, later}

    -- The session rows of one correlation within two minutes.
    abbrev pub correlates : UsageEvent Time → Text → UsageEvent Time → Bool
    correlates e correlation r =
        client_eq r.client e.client
        && (by_source r.source false true
            && (is_some_and r.correlation_key (text_eq correlation)
                && leb (distance r.event_at e.event_at) 120))

    unfoldable pub nearest : UsageEvent Time → Text → List (UsageEvent Time) → Option ℕ
    unfolding text_eq
    nearest e correlation [] = none
    nearest e correlation (r ∷ rs) =
        let rest = nearest e correlation rs in
        let d = distance r.event_at e.event_at in
        if correlates e correlation r then some (min d (unwrap_or rest d)) else rest

    -- DELETE … ORDER BY abs(event_at-?3) LIMIT 1
    unfoldable pub without_session :
        UsageEvent Time → Text → List (UsageEvent Time) → Option (List (UsageEvent Time))
    unfolding nearest delete_first text_eq
    without_session e correlation rows = and_then (nearest e correlation rows) λ d.
        some (
          delete_first (λ r. correlates e correlation r && distance r.event_at e.event_at == d)
            rows)

    -- The rows that a session's account of the same request leaves, where it gave one.
    abbrev pub superseded :
        UsageEvent Time → List (UsageEvent Time) → Option (List (UsageEvent Time))
    superseded e rows =
        by_source e.source (and_then e.correlation_key λ c. without_session e c rows) none

    -- The answer is whether a row changed: the statement always inserts or updates one.
    unfoldable pub insert_event : UsageEvent Time → Tables Time → Bool × Tables Time
    unfolding upsert without_session
    insert_event e t =
        let removed = superseded e t.rows in
        let day = mark e.client (local_date e.event_at) t.dirty in
        let days =
          if is_some removed
          then mark e.client (local_date (later e.event_at))
              (mark e.client (local_date (earlier e.event_at)) day)
          else day in
        (true, record { rows = upsert e (unwrap_or removed t.rows); dirty = days })

-- `relabel_unknown_event`
module _ (json : Json) where
  abbrev pub unknown_of : UsageEvent json.Time → UsageEvent json.Time
  unknown_of e = record e {
    model = codes "unknown";
    correlation_key = some (token_correlation json codex (codes "unknown") e.tokens);
  }

  unfoldable pub relabel_unknown_event :
      Calendar json.Time → UsageEvent json.Time → Text → ℕ → Tables json.Time → Tables json.Time
  unfolding relabel_row
  relabel_unknown_event calendar e hash line_start t =
      let from = session_event_key json (unknown_of e) hash line_start in
      let to = session_event_key json e hash line_start in
      if is_none (find_row from t.rows) then t else record {
        rows = relabel_row from to e t.rows;
        dirty = mark codex (calendar.local_date e.event_at) t.dirty;
      }
