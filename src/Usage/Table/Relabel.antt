-- ===== src/Usage/Table/Relabel.antt =====
-- `relabel_unknown_event` of crates/hsind/src/usage.rs: what is left of an event of the model `unknown`.
use hsin_rs.Prelude.{ℕ, false, Option-cases, none, Text, text_eq, inl, inr, ◌≡◌}
use hsin_rs.Usage.Event.{Json, UsageEvent}
use hsin_rs.Usage.Sync.{session_event_key}
use hsin_rs.Usage.Table.{Calendar, Tables, find_row, relabel_unknown_event, unknown_of}
use hsin_rs.Usage.Table.Keys.{Unique}
use hsin_rs.Usage.Table.Rename.{relabel_row-Unique}

module _ (json : Json) (calendar : Calendar json.Time) where
  -- Once an event has its model, no row has its key for the model `unknown`, and each key is still that of one row.
  pub relabel_unknown_event-Unique :
      (e : UsageEvent json.Time) (hash : Text) (line_start : ℕ) (t : Tables json.Time)
      → text_eq
          (session_event_key json (unknown_of json e) hash line_start)
          (session_event_key json e hash line_start)
        ≡ false
      → Unique t.rows
      → (let rows = (relabel_unknown_event json calendar e hash line_start t).rows in
          (find_row (session_event_key json (unknown_of json e) hash line_start) rows ≡ none)
          × Unique rows)
  unfolding relabel_unknown_event
  relabel_unknown_event-Unique e hash line_start t apart u =
      let from = session_event_key json (unknown_of json e) hash line_start in
      elim (Option-cases (find_row from t.rows)) [
        | inl n ↦ rw n (n, u)
        | inr (r, found) ↦
            rw found
              (relabel_row-Unique from (session_event_key json e hash line_start) e t.rows apart u)
      ]
