-- ===== src/Usage/Store.antt =====
-- `Cursor` and `UsageRoute` of crates/hsind/src/usage.rs, `UsageSyncResult` of crates/hsin-core/src/lib.rs, and
-- what a read of a session file asks of the database.
use hsin_rs.Prelude.{ℕ, Bool, Option, Text, Result}
use hsin_rs.Core.Enums.{ClientKind, ConnectionMode}
use hsin_rs.Core.Usage.{UsageTokenSummary}
use hsin_rs.Errors.{DaemonError}
use hsin_rs.Usage.Event.{UsageEvent}
use hsin_rs.Usage.Quota.{QuotaReading}
use hsin_rs.Usage.Session.{CodexState}

pub record Cursor (Time : Type 0) : Type 0 where
  pub modified_at : Time
  pub file_size : ℕ  -- u64
  pub byte_offset : ℕ  -- u64
  pub tail_fingerprint : Text
  pub parser_state : Text

pub record UsageSyncResult (Time : Type 0) : Type 0 where
  pub imported : ℕ  -- u64
  pub skipped : ℕ  -- u64
  pub failed_files : ℕ  -- u64
  pub synced_at : Time

pub record UsageRoute : Type 0 where
  pub provider_id : Option Text
  pub provider_name : Text
  pub provider_revision : ℕ  -- u64
  pub mode : ConnectionMode

-- What the module asks of SQLite, on the table of cursors and on the others, and of `serde_json` for the
-- state that a cursor keeps.
pub record Store (Time F64 : Type 0) : Type 1 where
  pub Cursors : Type 0
  pub cursor : Text → Cursors → Result DaemonError (Option (Cursor Time))
  pub save_cursor : Text → ClientKind → Cursor Time → Time → Cursors → Result DaemonError Cursors
  pub Db : Type 0
  pub route_at : ClientKind → Time → Db → Result DaemonError (Option UsageRoute)
  pub insert_event : UsageEvent Time → Db → Result DaemonError (Bool × Db)
  pub insert_reading :
      Text
      → Time
      → QuotaReading Time F64
      → UsageTokenSummary
      → CodexState
      → Db
      → Result DaemonError Db
  pub to_string : CodexState → Result DaemonError Text
  pub from_str : Text → Option CodexState
