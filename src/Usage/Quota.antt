-- ===== src/Usage/Quota.antt =====
-- `codex_quota_readings` and `UsageManager::record_quota_readings` of crates/hsind/src/usage.rs: the quota
-- windows that one line of a Codex session reports.
use hsin_rs.Prelude.{
  ℕ, not, ◌&&◌, ◌||◌, Option, none, some, List, [], ◌∷◌, is_nil, String, Text, codes, decimal, ◌++◌,
  text_eq, and_then, or_else, unwrap_or, is_some_and, keep_if, if◌then◌else◌, Result, ok, ◌>>=◌,
}
use hsin_rs.Core.Usage.{UsageTokenSummary}
use hsin_rs.Errors.{DaemonError}
use hsin_rs.Usage.Event.{Json, UsageEvent, timestamp}
use hsin_rs.Usage.Tokens.{no_tokens}
use hsin_rs.Usage.Session.{CodexState}

pub record QuotaReading (Time F64 : Type 0) : Type 0 where
  pub window : Text
  pub limit_id : Text
  pub window_minutes : Time
  pub resets_at : Time
  pub used_percent : F64
  pub plan_type : Option Text

module _ (json : Json) where
  open json use {
    Value, Time, F64, get, pointer, as_str, as_i64, as_f64, is_object, is_finite, is_percent, later,
    is_positive, before, digest,
  }

  abbrev pub quota_reading_key : Text → ℕ → Text
  unfolding decimal
  quota_reading_key hash line_start =
      digest (codes "quota:" ++ (hash ++ (b':' ∷ decimal line_start)))

  abbrev resets_at_of : Time → Value → Option Time
  resets_at_of observed_at limit = or_else (and_then (get "resets_at" limit) as_i64) (
      and_then (and_then (get "resets_in_seconds" limit) as_i64)
        λ seconds. some (later observed_at seconds))

  abbrev reading_of :
      Value → Time → String → List (QuotaReading Time F64) → List (QuotaReading Time F64)
  reading_of limits observed_at window others =
      let found = and_then (keep_if is_object (get window limits)) λ limit.
        and_then (and_then (get "used_percent" limit) as_f64) λ used_percent.
          and_then (and_then (get "window_minutes" limit) as_i64) λ window_minutes.
            and_then (resets_at_of observed_at limit) λ resets_at.
              if is_finite used_percent && (is_percent used_percent && is_positive window_minutes)
              then some record {
                window = codes window;
                limit_id = unwrap_or (and_then (get "limit_id" limits) as_str) (codes "codex");
                window_minutes = window_minutes;
                resets_at = resets_at;
                used_percent = used_percent;
                plan_type = and_then (get "plan_type" limits) as_str;
              }
              else none in
      elim found [ none ↦ others | some reading ↦ reading ∷ others ]

  unfoldable pub codex_quota_readings : Value → Time → List (QuotaReading Time F64)
  unfolding text_eq
  codex_quota_readings value observed_at =
      if not (
        is_some_and (and_then (pointer "/payload/type" value) as_str)
          (λ t. text_eq t (codes "token_count")))
      then []
      else elim (keep_if is_object (pointer "/payload/rate_limits" value)) [
        | none ↦ []
        | some limits ↦
            reading_of limits observed_at "primary" (reading_of limits observed_at "secondary" [])
      ]

  -- `insert` is the upsert of one reading: its key, the time, the reading, the line's tokens and the state.
  module _ {D : Type 0}
      (insert : Text
        → Time
        → QuotaReading Time F64
        → UsageTokenSummary
        → CodexState
        → D
        → Result DaemonError D) where
    abbrev insert_readings :
        Text
        → Time
        → List (QuotaReading Time F64)
        → UsageTokenSummary
        → CodexState
        → D
        → Result DaemonError D
    insert_readings key at [] tokens state db = ok db
    insert_readings key at (reading ∷ readings) tokens state db =
        insert key at reading tokens state db >>= insert_readings key at readings tokens state

    unfoldable pub record_quota_readings :
        Value → Text → Option (UsageEvent Time) → CodexState → Time → D → Result DaemonError D
    unfolding codex_quota_readings
    record_quota_readings value key event state horizon db = elim (timestamp json value) [
      | none ↦ ok db
      | some observed_at ↦
          (let readings = codex_quota_readings value observed_at in
            if is_nil readings || before observed_at horizon
            then ok db
            else insert_readings key observed_at readings
                (elim event [ none ↦ no_tokens | some e ↦ e.tokens ]) state db)
    ]
