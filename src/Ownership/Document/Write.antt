-- ===== src/Ownership/Document/Write.antt =====
-- `Guard::write_record` of crates/hsind/src/ownership.rs, one step after another on what it changes:
-- the guard, and what stands at the record's path. `AtomicWriteFile` is a library: what is written
-- to it stands elsewhere until it is committed, which puts all of it at the path.
use hsin_rs.Prelude.{not, Option, none, some, [], Text, codes, Result, ok, err, ok_or, refuse}
use hsin_rs.Errors.{DaemonError, json, io}
use hsin_rs.Ipc.Protocol.{Bytes}
use hsin_rs.Ownership.Record.{Record, invalid_record, validate_record}
use hsin_rs.Ownership.Document.{
  format_version, insert, Document, Entry, file, Format, too_large, read_document, Guard, hash_eq,
}

-- Where the file operations of a write fail, if they do.
pub record Faults : Type 0 where
  pub writing : Option Text
  pub committing : Option Text
  pub syncing : Option Text

-- What a write leaves: its outcome, the guard, and what stands on disk.
abbrev pub Written : Type 0
Written = Result DaemonError (Unit {0}) × Guard × Entry

pub record Work : Type 0 where
  pub guard : Guard
  pub entry : Entry

-- A step of the write: it ends in a result, and leaves what it changed also where that is an error.
abbrev pub Step : Type 0 → Type 0
Step A = Work → Result DaemonError A × Work

abbrev pub then_step :
    {A B : Type 0} → Result DaemonError A × Work → (A → Step B) → Result DaemonError B × Work
then_step (ok a, w) k = k a w
then_step (err e, w) k = (err e, w)

infixl 5 ◌>>=◌
abbrev pub ◌>>=◌ : {A B : Type 0} → Step A → (A → Step B) → Step B
◌>>=◌ m k = λ w. then_step (m w) k

infixl 5 ◌>>◌
abbrev pub ◌>>◌ : {A B : Type 0} → Step A → Step B → Step B
◌>>◌ m k = m >>= λ _. k

-- A step that changes nothing.
abbrev pub given : {A : Type 0} → Result DaemonError A → Step A
given r w = (r, w)

abbrev pub fails : Option Text → Result DaemonError (Unit {0})
fails none = ok tt
fails (some message) = err (io message)

-- `AtomicWriteFile::open` and `write_all`: the bytes that the file will have.
abbrev pub write_all : Bytes → Option Text → Step Bytes
write_all bytes none w = (ok bytes, w)
write_all bytes (some message) w = (err (io message), w)

abbrev pub commit : Bytes → Option Text → Step (Unit {0})
commit bytes none w = (ok tt, record w { entry = file bytes })
commit bytes (some message) w = (err (io message), w)

-- What other programs make of the file meanwhile.
abbrev pub elsewhere : Entry → Step (Unit {0})
elsewhere latest w = (ok tt, record w { entry = latest })

abbrev pub set_document : Document → Step (Unit {0})
set_document d w = (ok tt, record w { guard = record w.guard { document = d } })

abbrev pub set_expected_hash : Text → Step (Unit {0})
set_expected_hash hash w =
    (ok tt, record w { guard = record w.guard { expected_hash = some hash } })

module _ (f : Format) where
  open f use {codec, hash}

  abbrev pub updated : Guard → Text → Record → Document
  updated g id r = record { version = format_version; targets = insert id r g.document.targets }

  -- `read_document(&record_path)`
  abbrev pub read : Step (Document × Option Text)
  read w = (read_document f w.entry, w)

  -- An error of serialisation is without its text.
  unfoldable pub steps : Text → Record → Entry → Faults → Guard → Step (Unit {0})
  unfolding read_document validate_record insert
  steps id r latest faults self = do
    given (validate_record r)
    let document = updated self id r
    bytes ← given (ok_or (codec.to_vec document) (json []))
    given (too_large f bytes)
    (_, before_hash) ← read
    given (
        refuse (not (hash_eq before_hash self.expected_hash))
          (invalid_record (codes "configuration ownership changed outside the transaction")))
    written ← write_all bytes faults.writing
    elsewhere latest
    (_, latest_hash) ← read
    given (
        refuse (not (hash_eq latest_hash before_hash)) (
          invalid_record
            (codes "configuration ownership changed while the transaction was writing")))
    commit written faults.committing
    given (fails faults.syncing)
    set_document document
    set_expected_hash (hash bytes)

  -- `before` and `latest` are what stands on disk when the file is read first and again.
  unfoldable pub write_record : Guard → Text → Record → Entry → Entry → Faults → Written
  unfolding steps
  write_record g id r before latest faults =
      let (result, w) = steps id r latest faults g (record { guard = g; entry = before }) in
      (result, w.guard, w.entry)

  abbrev pub set_record : Guard → Record → Entry → Entry → Faults → Written
  set_record g r before latest faults = write_record g g.target_id r before latest faults
