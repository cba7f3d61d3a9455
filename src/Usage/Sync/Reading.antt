-- ===== src/Usage/Sync/Reading.antt =====
-- What a read of a session file leaves for the next: `read_until` and `tail_fingerprint` in `sync_file` of
-- crates/hsind/src/usage.rs, on a file that has grown.
use hsin_rs.Prelude.{
  ℕ, ◌-◌, ◌≤◌, leb, ltb, true, false, some, List, ◌++◌, length, length-append, take-drop-append,
  drop, Text, text_eq_refl, if_ind, ◌≡◌, refl, sym, ap, ◌∙◌, arith, Result, ok, ◌>>=◌, ok-injective,
  u64_max,
}
use hsin_rs.Core.Enums.{ClientKind}
use hsin_rs.Errors.{DaemonError}
use hsin_rs.Ipc.Protocol.{Bytes}
use hsin_rs.Usage.Event.{Json}
use hsin_rs.Usage.Lines.{
  split_lines, total, split_lines-append, drop-split_lines, total-split_lines,
  split_lines-total-zero,
}
use hsin_rs.Usage.Session.{CodexState, default_codex_state}
use hsin_rs.Usage.Store.{Store, Cursor, UsageSyncResult}
use hsin_rs.Usage.Sync.{
  Read, run_lines, read_from, saved, start_offset, sync_file, restore, tail_fingerprint,
}
use hsin_rs.Usage.Sync.Lines.{run_lines-append, run_lines-offset}

module _ (json : Json) where
  open json use {Time, F64, same_time}

  tail_fingerprint-append :
      (a b : Bytes) (offset : ℕ)
      → offset ≤ length a
      → tail_fingerprint json (a ++ b) offset ≡ tail_fingerprint json a offset
  unfolding tail_fingerprint
  tail_fingerprint-append a b offset within =
      let longer = length-append a b in
      let inside : leb offset (length a) ≡ true = ground arith in
      let inside_both : leb offset (length (a ++ b)) ≡ true = ground arith in
      rw (inside, inside_both)
        (ap (λ t. ok (json.digest_bytes t))
          (take-drop-append (offset - 128) (offset - (offset - 128)) a b (omega arith)))

  module _ (store : Store Time F64) (client : ClientKind) (hash : Text)
      (started_at cutoff horizon : Time) where
    open store use {Cursors, Db}

    abbrev Outcome : Type 0
    Outcome = UsageSyncResult Time

    abbrev read : Bytes → ℕ → CodexState → Outcome → Db → Result DaemonError (Read json store)
    read = read_from json store client hash started_at cutoff horizon

    abbrev save :
        Bytes
        → Time
        → Time
        → Cursors
        → Read json store
        → Result DaemonError (Cursors × Db × Outcome)
    save = saved json store client hash started_at cutoff horizon

    abbrev sync :
        Bytes → Time → Time → Cursors → Db → Outcome → Result DaemonError (Cursors × Db × Outcome)
    sync = sync_file json store client hash started_at cutoff horizon

    abbrev lines : List Bytes → Read json store → Result DaemonError (Read json store)
    lines = run_lines json store client hash started_at cutoff horizon

    -- The lines that a file has, then those that its growth completes.
    pub read-append :
        (a b : Bytes) (state : CodexState) (result : Outcome) (db : Db) {p : Read json store}
        → length a ≤ u64_max
        → read a 0 state result db ≡ ok p
        → (p.offset ≡ total (split_lines a).0)
          × (read (a ++ b) 0 state result db ≡ read (a ++ b) p.offset p.codex p.result p.db)
    unfolding read_from
    read-append a b state result db {p} fits done =
        let start : Read json store = record {
          offset = 0;
          codex = state;
          result = result;
          db = db;
        } in
        let size = total-split_lines a in
        let at =
          run_lines-offset json store client hash started_at cutoff horizon (split_lines a).0 start
            (omega arith) done in
        let first = split_lines a in
        let later = split_lines ((split_lines a).1 ++ b) in
        let here : p.offset ≡ total first.0 = omega (arith, at) in
        (
          here,
          ap (λ r. lines r.0 start) (split_lines-append a b)
              ∙ run_lines-append json store client hash started_at cutoff horizon first.0 later.0
                  start
              ∙ ap (λ m. m >>= lines later.0) done
              ∙ ap (λ t. lines (split_lines t).0 p) (sym (drop-split_lines a b))
              ∙ ap (λ n. lines (split_lines (drop n (a ++ b))).0 p) (sym here),
        )

    -- Without a line, the state is the first one.
    pub read-state :
        (a : Bytes) (result : Outcome) (db : Db) {p : Read json store}
        → p.offset ≡ total (split_lines a).0
        → read a 0 default_codex_state result db ≡ ok p
        → p.offset ≡ 0
        → p.codex ≡ default_codex_state
    unfolding read_from run_lines
    read-state a result db {p} at done nothing =
        let start : Read json store = record {
          offset = 0;
          codex = default_codex_state;
          result = result;
          db = db;
        } in
        let no_lines = split_lines-total-zero a (sym at ∙ nothing) in
        ap (λ q. q.codex) (sym (ok-injective (ap (λ ls. lines ls start) (sym no_lines) ∙ done)))

    -- A database that has what one read of the file gives, and the file's cursor.
    pub record IsRead (content : Bytes) (result_0 : Outcome) (db_0 : Db) (cursors : Cursors)
        (db : Db) (result : Outcome) : Type 0 where
      pub end : Read json store
      pub whole : read content 0 default_codex_state result_0 db_0 ≡ ok end
      pub same_db : end.db ≡ db
      pub same_result : end.result ≡ result
      pub cursor : Cursor Time
      pub stored : store.cursor hash cursors ≡ ok (some cursor)
      pub same_offset : cursor.byte_offset ≡ end.offset
      pub same_tail : tail_fingerprint json content end.offset ≡ ok cursor.tail_fingerprint
      pub same_state : restore store cursor.parser_state ≡ end.codex

    -- A file that has only grown is read on from its cursor.
    pub start_offset-grown :
        (a b : Bytes) (cursor : Cursor Time)
        → cursor.byte_offset ≤ length a
        → tail_fingerprint json a cursor.byte_offset ≡ ok cursor.tail_fingerprint
        → start_offset json store client hash started_at cutoff horizon (a ++ b) cursor
          ≡ ok cursor.byte_offset
    unfolding start_offset
    start_offset-grown a b cursor within tail =
        let longer = length-append a b in
        let not_shorter : ltb (length (a ++ b)) cursor.byte_offset ≡ false = ground arith in
        rw not_shorter (
          if_ind (λ (m : Result DaemonError ℕ). m ≡ ok cursor.byte_offset)
            (ltb 0 cursor.byte_offset)
            (λ some_read.
              rw (tail_fingerprint-append a b cursor.byte_offset within, tail)
                (rw (text_eq_refl cursor.tail_fingerprint) refl))
            (λ none_read. refl))
