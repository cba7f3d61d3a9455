-- ===== src/Ownership/Document.antt =====
-- `read_document` and `Guard` of crates/hsind/src/ownership.rs: the records of a directory in one
-- file, written under a directory's lock by comparing the file with what the lock's holder read.
-- A path on disk is an `Entry`; SHA-256 and `serde_json` are the parameter `Format`. A `BTreeMap`
-- is the list of its entries.
pub mod Write
pub mod Commit
pub mod Failure
use hsin_rs.Prelude.{
  ℕ, ltb, leb, ◌==◌, Bool, true, false, not, ◌&&◌, ◌||◌, Option, none, some, List, [], ◌∷◌, Text,
  codes, text_eq, length, is_some, if◌then◌else◌, Result, ok, err, ok_or, ◌>>=◌, refuse, ◌>>◌, ◌≡◌,
}
use hsin_rs.Errors.{DaemonError, json, io}
use hsin_rs.Ipc.Protocol.{Bytes, Codec}
use hsin_rs.Ownership.Record.{Record, invalid_record, is_fingerprint, validate_record}

abbrev pub format_version : ℕ
format_version = 2

abbrev pub max_record_bytes : ℕ
max_record_bytes = 1_048_576

abbrev pub Targets : Type 0
Targets = List (Text × Record)

-- `BTreeMap::get`
unfoldable pub get : Text → Targets → Option Record
unfolding text_eq
get id [] = none
get id ((k, r) ∷ ts) = if text_eq id k then some r else get id ts

-- `BTreeMap::insert`: one entry for each key.
unfoldable pub insert : Text → Record → Targets → Targets
unfolding text_eq
insert id r [] = (id, r) ∷ []
insert id r ((k, s) ∷ ts) =
    let rest = insert id r ts in if text_eq id k then (id, r) ∷ ts else (k, s) ∷ rest

pub record Document : Type 0 where
  pub version : ℕ  -- u32
  pub targets : Targets

abbrev pub default_document : Document
default_document = record { version = format_version; targets = [] }

-- What stands at the record's path.
pub data Entry : Type 0 where
  missing symlink not_a_file : Entry
  unreadable : Text → Entry
  file : Bytes → Entry

pub record Format : Type 0 where
  pub codec : Codec Document
  pub hash : Bytes → Text

unfoldable pub check_targets : Targets → Result DaemonError (Unit {0})
unfolding is_fingerprint validate_record
check_targets [] = ok tt
check_targets ((id, r) ∷ ts) =
    refuse (not (is_fingerprint id))
      (invalid_record (codes "configuration ownership target identifier is invalid"))
    >> (validate_record r >> check_targets ts)

module _ (f : Format) where
  open f use {codec, hash}

  abbrev too_large : Bytes → Result DaemonError (Unit {0})
  too_large bytes =
      refuse (ltb max_record_bytes (length bytes))
        (invalid_record (codes "configuration ownership record is too large"))

  unfoldable pub read_document : Entry → Result DaemonError (Document × Option Text)
  unfolding check_targets
  read_document missing = ok (default_document, none)
  read_document symlink =
      err (invalid_record (codes "configuration ownership metadata must not be a symbolic link"))
  read_document not_a_file =
      err (invalid_record (codes "configuration ownership record is not a file"))
  read_document (unreadable message) = err (io message)
  read_document (file bytes) = do
    too_large bytes
    document ←
        ok_or (codec.from_slice bytes)
          (invalid_record (codes "configuration ownership record is damaged; repair is required"))
    refuse (not (leb 1 document.version && leb document.version format_version)) (
        invalid_record
          (codes "configuration ownership record uses an unsupported version; upgrade is required"))
    check_targets document.targets
    ok (document, some (hash bytes))

pub record Guard : Type 0 where
  pub path : Text
  pub target_id : Text
  pub document : Document
  pub expected_hash : Option Text

abbrev pub guard_record : Guard → Option Record
guard_record g = get g.target_id g.document.targets

abbrev pub hash_eq : Option Text → Option Text → Bool
hash_eq none none = true
hash_eq (some a) (some b) = text_eq a b
hash_eq _ _ = false
