-- ===== src/Usage/Sync/Resume.antt =====
-- Reading a session file as it grows: `sync_file` of crates/hsind/src/usage.rs, called again and again, against
-- one read of the whole file.
use hsin_rs.Prelude.{
  ℕ, ◌==◌, ◌≤◌, ltb, false, none, some, List, [], ◌++◌, length, length-append, Text, if◌then◌else◌,
  if_ind, ◌≡◌, refl, sym, ap, ◌∙◌, arith, Result, ok, unwrap_or, ◌>>=◌, >>=-eq-ok, ok-injective,
  u64_max,
}
use hsin_rs.Core.Enums.{ClientKind, claude, codex}
use hsin_rs.Errors.{DaemonError}
use hsin_rs.Ipc.Protocol.{Bytes}
use hsin_rs.Usage.Event.{Json}
use hsin_rs.Usage.Lines.{split_lines, total-split_lines}
use hsin_rs.Usage.Session.{CodexState, default_codex_state}
use hsin_rs.Usage.Store.{Store, Cursor, UsageSyncResult}
use hsin_rs.Usage.Sync.{
  Read, run_lines, read_from, saved, start_offset, sync_at, sync_file, restore, fresh_cursor,
  tail_fingerprint,
}
use hsin_rs.Usage.Sync.Lines.{run_lines-codex}
use hsin_rs.Usage.Sync.Reading.{IsRead, read-append, read-state, start_offset-grown}

-- What SQLite documents of an upsert and `serde_json` of a value that it wrote: the read gives it back.
pub record KeepsState {T F : Type 0} (store : Store T F) : Type 0 where
  pub cursor-save_cursor :
      (hash : Text) (client : ClientKind) (c : Cursor T) (now : T) (before : store.Cursors)
      {after : store.Cursors}
      → store.save_cursor hash client c now before ≡ ok after
      → store.cursor hash after ≡ ok (some c)
  pub from_str-to_string :
      (s : CodexState) {t : Text} → store.to_string s ≡ ok t → store.from_str t ≡ some s
  pub from_str-empty : store.from_str [] ≡ none

module _ (json : Json) where
  open json use {Time, F64, same_time}

  module _ (store : Store Time F64) (client : ClientKind) (hash : Text)
      (started_at cutoff horizon : Time) where
    open store use {Cursors, Db}

    abbrev Outcome : Type 0
    Outcome = UsageSyncResult Time

    abbrev read : Bytes → ℕ → CodexState → Outcome → Db → Result DaemonError (Read json store)
    read = read_from json store client hash started_at cutoff horizon

    abbrev save :
        Bytes
        → Time
        → Time
        → Cursors
        → Read json store
        → Result DaemonError (Cursors × Db × Outcome)
    save = saved json store client hash started_at cutoff horizon

    abbrev sync :
        Bytes → Time → Time → Cursors → Db → Outcome → Result DaemonError (Cursors × Db × Outcome)
    sync = sync_file json store client hash started_at cutoff horizon

    abbrev lines : List Bytes → Read json store → Result DaemonError (Read json store)
    lines = run_lines json store client hash started_at cutoff horizon

    module _ (keeps : KeepsState store) where
      restore-parser_state :
          (kind : ClientKind) {state : CodexState} {t : Text}
          → (kind ≡ claude → state ≡ default_codex_state)
          → elim kind [ claude ↦ ok [] | codex ↦ store.to_string state ] ≡ ok t
          → restore store t ≡ state
      restore-parser_state claude same written =
          ap (restore store) (sym (ok-injective written))
          ∙ ap (λ s. unwrap_or s default_codex_state) keeps.from_str-empty
          ∙ sym (same refl)
      restore-parser_state codex {state} same written =
          ap (λ s. unwrap_or s default_codex_state) (keeps.from_str-to_string state written)

      -- Where the client is Claude, whose lines leave the state alone, no state is saved.
      restore-saved :
          (a : Bytes) (result : Outcome) (db : Db) {p : Read json store} {t : Text}
          → read a 0 default_codex_state result db ≡ ok p
          → elim client [ claude ↦ ok [] | codex ↦ store.to_string p.codex ] ≡ ok t
          → restore store t ≡ p.codex
      unfolding read_from
      restore-saved a result db done written =
          restore-parser_state client
            (λ c.
              run_lines-codex json store client hash started_at cutoff horizon c (split_lines a).0
                (record { offset = 0; codex = default_codex_state; result = result; db = db }) done)
            written

      pub save-IsRead :
          (a : Bytes) (modified now : Time) (cursors : Cursors) (result : Outcome) (db : Db)
          {p : Read json store} {after : Cursors × Db × Outcome}
          → read a 0 default_codex_state result db ≡ ok p
          → save a modified now cursors p ≡ ok after
          → IsRead json store client hash started_at cutoff horizon a result db after.0 after.1
              after.2
      unfolding saved
      save-IsRead a modified now cursors result db {p} {after} done landed =
          let (print, printed, rest) = >>=-eq-ok (tail_fingerprint json a p.offset) _ landed in
          let (state, written, rest) =
            >>=-eq-ok (elim client [ claude ↦ ok [] | codex ↦ store.to_string p.codex ]) _ rest in
          let cursor : Cursor Time = record {
            modified_at = modified;
            file_size = length a;
            byte_offset = p.offset;
            tail_fingerprint = print;
            parser_state = state;
          } in
          let (kept, stored, last) =
            >>=-eq-ok (store.save_cursor hash client cursor now cursors) _ rest in
          let e = ok-injective last in
          record {
            end = p;
            whole = done;
            same_db = ap (λ r. r.1) e;
            same_result = ap (λ r. r.2) e;
            cursor = cursor;
            stored =
                ap (λ c. store.cursor hash c) (sym (ap (λ r. r.0) e))
                ∙ keeps.cursor-save_cursor hash client cursor now cursors stored;
            same_offset = refl;
            same_tail = printed;
            same_state = restore-saved a result db done written;
          }

      sync_at-grown :
          (a b : Bytes) (modified now : Time) (result_0 : Outcome) (db_0 : Db) {cursors : Cursors}
          {db : Db} {result : Outcome}
          (sofar : IsRead json store client hash started_at cutoff horizon a result_0 db_0 cursors
            db result)
          → length (a ++ b) ≤ u64_max
          → 1 ≤ length b
          → sync_at json store client hash started_at cutoff horizon
              (a ++ b)
              modified
              now
              cursors
              db
              result
              sofar.cursor
              sofar.cursor.byte_offset
            ≡ (read (a ++ b) 0 default_codex_state result_0 db_0
                >>= save (a ++ b) modified now cursors)
      unfolding sync_at
      sync_at-grown a b modified now result_0 db_0 {cursors} {db} {result} sofar fits grown =
          let longer = length-append a b in
          let (at, on) =
            read-append json store client hash started_at cutoff horizon a b default_codex_state
              result_0 db_0 (omega arith) sofar.whole in
          let size = total-split_lines a in
          let more : (length (a ++ b) == sofar.cursor.byte_offset) ≡ false =
            ground (arith, sofar.same_offset, at, size, longer) in
          let after = save (a ++ b) modified now cursors in
          let state : (if ltb 0 sofar.cursor.byte_offset
                then restore store sofar.cursor.parser_state
                else default_codex_state)
              ≡ sofar.end.codex =
            if_ind (λ (s : CodexState). s ≡ sofar.end.codex) (ltb 0 sofar.cursor.byte_offset)
              (λ some_read. sofar.same_state)
              (λ none_read. sym (
                read-state json store client hash started_at cutoff horizon a result_0 db_0 at
                  sofar.whole (sym sofar.same_offset ∙ ground arith))) in
          rw more (
            ap (λ s. read (a ++ b) sofar.cursor.byte_offset s result db >>= after) state
            ∙ ap (λ n. read (a ++ b) n sofar.end.codex result db >>= after) sofar.same_offset
            ∙ ap (λ r. read (a ++ b) sofar.end.offset sofar.end.codex r db >>= after)
                (sym sofar.same_result)
            ∙ ap (λ d. read (a ++ b) sofar.end.offset sofar.end.codex sofar.end.result d >>= after)
                (sym sofar.same_db)
            ∙ ap (λ m. m >>= after) (sym on))

      pub sync-grown :
          (a b : Bytes) (modified now : Time) (result_0 : Outcome) (db_0 : Db) {cursors : Cursors}
          {db : Db} {result : Outcome}
          → IsRead json store client hash started_at cutoff horizon a result_0 db_0 cursors db
              result
          → length (a ++ b) ≤ u64_max
          → 1 ≤ length b
          → sync (a ++ b) modified now cursors db result ≡ (
              read (a ++ b) 0 default_codex_state result_0 db_0
              >>= save (a ++ b) modified now cursors)
      unfolding sync_file
      sync-grown a b modified now result_0 db_0 {cursors} {db} {result} sofar fits grown =
          let longer = length-append a b in
          let (at, on) =
            read-append json store client hash started_at cutoff horizon a b default_codex_state
              result_0 db_0 (omega arith) sofar.whole in
          let size = total-split_lines a in
          let same = sofar.same_offset in
          let at_start = ap (tail_fingerprint json a) same ∙ sofar.same_tail in
          ap
            (λ m. m >>= λ found.
              start_offset json store client hash started_at cutoff horizon (a ++ b)
                (unwrap_or found (fresh_cursor json store))
              >>= sync_at json store client hash started_at cutoff horizon (a ++ b) modified now
                  cursors db result (unwrap_or found (fresh_cursor json store)))
            sofar.stored
          ∙ ap
              (λ m.
                m
                >>= sync_at json store client hash started_at cutoff horizon (a ++ b) modified now
                    cursors db result sofar.cursor)
              (start_offset-grown json store client hash started_at cutoff horizon a b sofar.cursor
                (omega arith) at_start)
          ∙ sync_at-grown a b modified now result_0 db_0 sofar fits grown

      pub sync-first :
          (a : Bytes) (modified now : Time) (result : Outcome) (db : Db) (cursors : Cursors)
          → store.cursor hash cursors ≡ ok none
          → 1 ≤ length a
          → sync a modified now cursors db result
            ≡ (read a 0 default_codex_state result db >>= save a modified now cursors)
      unfolding sync_file start_offset sync_at
      sync-first a modified now result db cursors missing some_bytes =
          let not_shorter : ltb (length a) 0 ≡ false = ground arith in
          let more : (length a == 0) ≡ false = ground arith in rw (missing, not_shorter, more) refl
