-- ===== src/Usage/Sync/Refine.antt =====
-- The syncs of a session file that grows between them (`sync_file` of crates/hsind/src/usage.rs), as a relation,
-- against the one read of the file that they stand for.
use hsin_rs.Prelude.{
  ◌≤◌, none, ◌++◌, length, length-append, Text, ◌≡◌, arith, ok, >>=-eq-ok, u64_max, sym, ◌∙◌,
}
use hsin_rs.Core.Enums.{ClientKind}
use hsin_rs.Ipc.Protocol.{Bytes}
use hsin_rs.Usage.Event.{Json}
use hsin_rs.Usage.Session.{default_codex_state}
use hsin_rs.Usage.Store.{Store, UsageSyncResult}
use hsin_rs.Usage.Sync.{Read, read_from, sync_file}
use hsin_rs.Usage.Sync.Reading.{IsRead}
use hsin_rs.Usage.Sync.Resume.{KeepsState, save-IsRead, sync-grown, sync-first}

module _ (json : Json) where
  open json use {Time, F64}

  module _ (store : Store Time F64) (client : ClientKind) (hash : Text)
      (started_at cutoff horizon : Time) where
    open store use {Cursors, Db}

    -- Syncs that succeed, one after each growth of the file, from a database without its cursor.
    pub data Syncs (result_0 : UsageSyncResult Time) (db_0 : Db)
        : Bytes → Cursors → Db → UsageSyncResult Time → Type 0 where
      first :
          {content : Bytes} (modified now : Time) {before cursors : Cursors} {db : Db}
          {result : UsageSyncResult Time}
          → store.cursor hash before ≡ ok none
          → 1 ≤ length content
          → sync_file json store client hash started_at cutoff horizon content modified now before
              db_0 result_0
            ≡ ok (cursors, db, result)
          → Syncs result_0 db_0 content cursors db result
      again :
          {content : Bytes} (more : Bytes) (modified now : Time) {before cursors : Cursors}
          {db_1 db : Db} {result_1 result : UsageSyncResult Time}
          → Syncs result_0 db_0 content before db_1 result_1
          → 1 ≤ length more
          → sync_file json store client hash started_at cutoff horizon
              (content ++ more)
              modified
              now
              before
              db_1
              result_1
            ≡ ok (cursors, db, result)
          → Syncs result_0 db_0 (content ++ more) cursors db result

    module _ (keeps : KeepsState store) (result_0 : UsageSyncResult Time) (db_0 : Db) where
      Syncs-IsRead :
          {content : Bytes} {cursors : Cursors} {db : Db} {result : UsageSyncResult Time}
          → length content ≤ u64_max
          → Syncs result_0 db_0 content cursors db result
          → IsRead json store client hash started_at cutoff horizon content result_0 db_0 cursors db
              result
      Syncs-IsRead fits (first {content} modified now {before} missing some_bytes done) =
          let whole =
            sym (
              sync-first json store client hash started_at cutoff horizon keeps content modified now
                result_0 db_0 before missing some_bytes)
            ∙ done in
          let (end, read, save) =
            >>=-eq-ok
              (read_from json store client hash started_at cutoff horizon content 0
                default_codex_state result_0 db_0)
              _ whole in
          save-IsRead json store client hash started_at cutoff horizon keeps content modified now
            before result_0 db_0 read save
      Syncs-IsRead fits (again {content} more modified now {before} so_far some_bytes done) =
          let longer = length-append content more in
          let whole =
            sym (
              sync-grown json store client hash started_at cutoff horizon keeps content more
                modified now result_0 db_0 (Syncs-IsRead (omega arith) so_far) fits some_bytes)
            ∙ done in
          let (end, read, save) =
            >>=-eq-ok
              (read_from json store client hash started_at cutoff horizon (content ++ more) 0
                default_codex_state result_0 db_0)
              _ whole in
          save-IsRead json store client hash started_at cutoff horizon keeps (content ++ more)
            modified now before result_0 db_0 read save

      -- However a session file grew between its syncs, in a file below 2^64 bytes, the database and the counts after
      -- the last are those of one read of the whole file from the database before the first, with the same limits of
      -- time: no line is imported twice, and none that is complete is left out.
      pub Syncs-read_from :
          {content : Bytes} {cursors : Cursors} {db : Db} {result : UsageSyncResult Time}
          → length content ≤ u64_max
          → Syncs result_0 db_0 content cursors db result
          → (end : Read json store) × (read_from json store client hash started_at cutoff horizon
                content 0 default_codex_state result_0 db_0
              ≡ ok end)
            × (end.db ≡ db)
            × (end.result ≡ result)
      Syncs-read_from fits syncs =
          let read = Syncs-IsRead fits syncs in
          (read.end, read.whole, read.same_db, read.same_result)
