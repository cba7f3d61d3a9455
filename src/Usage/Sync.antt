-- ===== src/Usage/Sync.antt =====
-- `UsageManager::sync_file` of crates/hsind/src/usage.rs: the new lines of one session file, read from where
-- the last read stopped.
pub mod Lines
pub mod Reading
pub mod Resume
pub mod Refine
use hsin_rs.Prelude.{
  ℕ, ◌-◌, ◌*◌, ◌==◌, leb, ltb, Bool, true, false, not, ◌&&◌, ◌||◌, Option, none, some, List, [],
  ◌∷◌, ◌++◌, length, take, drop, is_nil, String, Text, codes, decimal, text_eq, is_some, unwrap_or,
  if◌then◌else◌, Result, ok, err, ◌>>=◌, saturating_add,
}
use hsin_rs.Core.Enums.{ClientKind, claude, codex, client_as_str, ConnectionMode}
use hsin_rs.Core.Usage.{UsageTokenSummary}
use hsin_rs.Errors.{DaemonError, io}
use hsin_rs.Ipc.Protocol.{Bytes}
use hsin_rs.Usage.Event.{Json, UsageEvent, UsageAttribution, inferred, unattributed}
use hsin_rs.Usage.Lines.{split_lines}
use hsin_rs.Usage.Quota.{QuotaReading, quota_reading_key, record_quota_readings}
use hsin_rs.Usage.Store.{Store, Cursor, UsageSyncResult, UsageRoute}
use hsin_rs.Usage.Session.{
  CodexState, default_codex_state, parse_claude_session, parse_codex_session,
}

abbrev pub max_session_line_bytes : ℕ
max_session_line_bytes = 2 * 1024 * 1024

-- `CodexState::restore`
abbrev pub restore : {T F : Type 0} → Store T F → Text → CodexState
restore store saved = unwrap_or (store.from_str saved) default_codex_state

abbrev pub pop_line_end : Bytes → Bytes
pop_line_end [] = []
pop_line_end (b ∷ bs) =
    let rest = pop_line_end bs in if is_nil rest && (b == b'\n' || b == b'\r') then [] else b ∷ rest

abbrev pub skip_one : {T : Type 0} → UsageSyncResult T → UsageSyncResult T
skip_one r = record r { skipped = saturating_add r.skipped 1 }

abbrev pub import_one : {T : Type 0} → UsageSyncResult T → UsageSyncResult T
import_one r = record r { imported = saturating_add r.imported 1 }

-- What the loop carries from line to line.
pub record Progress (Time Db : Type 0) : Type 0 where
  pub offset : ℕ
  pub codex : CodexState
  pub result : UsageSyncResult Time
  pub db : Db

module _ (json : Json) where
  open json use {Value, Time, F64, from_slice, before, same_time, time_text, digest, digest_bytes}

  unfoldable pub session_event_key : UsageEvent Time → Text → ℕ → Text
  unfolding decimal
  session_event_key event hash line_start =
      let prefix = codes "session:" ++ (client_as_str event.client ++ codes ":") in
      elim event.correlation_key [
        | none ↦ digest (prefix ++ (hash ++ (b':' ∷ decimal line_start)))
        | some correlation ↦ digest (prefix ++ (correlation ++ (b':' ∷ time_text event.event_at)))
      ]

  -- The bytes before an offset, at most 128 of them; `read_exact` fails where the file is shorter.
  abbrev pub tail_bytes : Bytes → ℕ → Bytes
  tail_bytes content offset = let start = offset - 128 in take (offset - start) (drop start content)

  unfoldable pub tail_fingerprint : Bytes → ℕ → Result DaemonError Text
  tail_fingerprint content offset =
      if leb offset (length content)
      then ok (digest_bytes (tail_bytes content offset))
      else err (io (codes "failed to fill whole buffer"))

  module _ (store : Store Time F64) where
    open store use {Cursors, Db}

    abbrev pub fresh_cursor : Cursor Time
    fresh_cursor = record {
      modified_at = json.epoch;
      file_size = 0;
      byte_offset = 0;
      tail_fingerprint = [];
      parser_state = [];
    }

    abbrev pub Read : Type 0
    Read = Progress Time Db

    unfoldable pub observe :
        ClientKind
        → Text
        → Time
        → Value
        → ℕ
        → Read
        → Result DaemonError (Option (UsageEvent Time) × Read)
    unfolding parse_claude_session parse_codex_session record_quota_readings
    observe claude hash horizon value line_start p = ok (parse_claude_session json value, p)
    observe codex hash horizon value line_start p =
        let (parsed, after) = parse_codex_session json value p.codex in
        record_quota_readings json store.insert_reading value
          (quota_reading_key json hash line_start) parsed after horizon p.db
        >>= λ db. ok (parsed, record p { codex = after; db = db })

    abbrev pub routed : Option UsageRoute → UsageEvent Time → UsageEvent Time
    routed none event = event
    routed (some route) event = record event {
      provider_id = route.provider_id;
      provider_name = route.provider_name;
      provider_revision = route.provider_revision;
      attribution = if is_some route.provider_id then inferred else unattributed;
    }

    abbrev pub keyed : Text → ℕ → UsageEvent Time → UsageEvent Time
    keyed hash line_start event =
        if is_nil event.dedup_key
        then record event { dedup_key = session_event_key event hash line_start }
        else event

    -- `started_at` and `retention_cutoff()` are the two times.
    unfoldable pub import :
        ClientKind
        → Text
        → Time
        → Time
        → ℕ
        → Option (UsageEvent Time)
        → Read
        → Result DaemonError Read
    import client hash started_at cutoff line_start none p = ok p
    import client hash started_at cutoff line_start (some event) p =
        if before event.event_at started_at || before event.event_at cutoff
        then ok (record p { result = skip_one p.result })
        else store.route_at client event.event_at p.db >>= λ route.
            store.insert_event (keyed hash line_start (routed route event)) p.db
            >>= λ (inserted, db). ok (record p {
              result = if inserted then import_one p.result else skip_one p.result;
              db = db;
            })

    module _ (client : ClientKind) (hash : Text) (started_at cutoff horizon : Time) where
      unfoldable pub run_line : Bytes → Read → Result DaemonError Read
      unfolding observe import
      run_line line p =
          let read = record p { offset = saturating_add p.offset (length line) } in
          if ltb max_session_line_bytes (length line)
          then ok (record read { result = skip_one p.result })
          else elim (from_slice (pop_line_end line)) [
            | none ↦ ok (record read { result = skip_one p.result })
            | some value ↦ observe client hash horizon value p.offset read >>= λ (parsed, seen).
                import client hash started_at cutoff p.offset parsed seen
          ]

      unfoldable pub run_lines : List Bytes → Read → Result DaemonError Read
      unfolding run_line
      run_lines [] p = ok p
      run_lines (line ∷ lines) p = run_line line p >>= run_lines lines

      -- The loop over the reader, from an offset of the file.
      unfoldable pub read_from :
          Bytes → ℕ → CodexState → UsageSyncResult Time → Db → Result DaemonError Read
      unfolding run_lines split_lines
      read_from content offset state result db =
          run_lines (split_lines (drop offset content)).0
            (record { offset = offset; codex = state; result = result; db = db })

      unfoldable pub saved :
          Bytes
          → Time
          → Time
          → Cursors
          → Read
          → Result DaemonError (Cursors × Db × UsageSyncResult Time)
      unfolding tail_fingerprint
      saved content modified now cursors p = tail_fingerprint content p.offset >>= λ fingerprint.
          elim client [ claude ↦ ok [] | codex ↦ store.to_string p.codex ] >>= λ state.
          store.save_cursor hash client
            (record {
              modified_at = modified;
              file_size = length content;
              byte_offset = p.offset;
              tail_fingerprint = fingerprint;
              parser_state = state;
            })
            now cursors
          >>= λ after. ok (after, p.db, p.result)

      -- Where the read starts: from the start where the file no longer has what was read.
      unfoldable pub start_offset : Bytes → Cursor Time → Result DaemonError ℕ
      unfolding tail_fingerprint text_eq
      start_offset content cursor =
          if ltb (length content) cursor.byte_offset
          then ok 0
          else if ltb 0 cursor.byte_offset
          then (tail_fingerprint content cursor.byte_offset >>= λ fingerprint.
              ok (if text_eq fingerprint cursor.tail_fingerprint then cursor.byte_offset else 0))
          else ok cursor.byte_offset

      -- The file is its bytes and its modification time.
      unfoldable pub sync_at :
          Bytes
          → Time
          → Time
          → Cursors
          → Db
          → UsageSyncResult Time
          → Cursor Time
          → ℕ
          → Result DaemonError (Cursors × Db × UsageSyncResult Time)
      unfolding read_from saved
      sync_at content modified now cursors db result cursor start =
          if length content == start && same_time modified cursor.modified_at
          then ok (cursors, db, result)
          else let state =
              if ltb 0 start then restore store cursor.parser_state else default_codex_state in
            read_from content start state result db >>= saved content modified now cursors

      unfoldable pub sync_file :
          Bytes
          → Time
          → Time
          → Cursors
          → Db
          → UsageSyncResult Time
          → Result DaemonError (Cursors × Db × UsageSyncResult Time)
      unfolding start_offset sync_at
      sync_file content modified now cursors db result = store.cursor hash cursors >>= λ found.
          let cursor = unwrap_or found fresh_cursor in
          start_offset content cursor >>= sync_at content modified now cursors db result cursor
