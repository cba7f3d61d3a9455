-- ===== src/Ownership/Status.antt =====
-- `Target` of crates/hsind/src/ownership.rs: what the record says of who manages a configuration.
-- The real path of a path is the parameter `resolve`.
pub mod Takeover
use hsin_rs.Prelude.{
  ℕ, ◌==◌, Bool, true, false, not, ◌&&◌, ◌||◌, Option, none, some, is_some, is_none, is_some_and,
  or_else, and_then, String, Text, codes, text_eq, if◌then◌else◌, Result, ok, err, ◌>>=◌, refuse,
  ◌>>◌, ◌≡◌,
}
use hsin_rs.Core.Enums.{ClientKind}
use hsin_rs.Errors.{ConfigOwnerInfo, ConfigOwnershipStatus, DaemonError, conflict, io}
use hsin_rs.Ownership.Record.{Record, invalid_record}
use hsin_rs.Ownership.Document.{
  Format, Entry, symlink, unreadable, Document, get, read_document, Guard,
}
use hsin_rs.Ownership.Document.Write.{Faults, Written, write_record}

pub record Target : Type 0 where
  pub client : ClientKind
  pub id : Text
  pub path : Text
  pub config_path : Text
  pub original_path : Text

-- What taking the directory's lock comes to: the directory cannot be made, the lock file cannot be
-- opened or locked, another holds the lock, or it is taken.
pub data Locking : Type 0 where
  acquired contended : Locking
  no_directory not_lockable : Text → Locking

module _ (f : Format) (resolve : Text → Result DaemonError Text) where
  unfoldable pub verify_path : Target → Result DaemonError (Unit {0})
  unfolding text_eq
  verify_path t = do
    real ← resolve t.original_path
    refuse (not (text_eq real t.config_path))
        (conflict (codes "the client configuration path changed; refresh configuration status"))

  abbrev reject_symlink : Entry → Result DaemonError (Unit {0})
  reject_symlink symlink =
      err (invalid_record (codes "configuration ownership metadata must not be a symbolic link"))
  reject_symlink (unreadable message) = err (io message)
  reject_symlink _ = ok tt

  abbrev create_directory : Locking → Result DaemonError (Unit {0})
  create_directory (no_directory message) = err (io message)
  create_directory _ = ok tt

  abbrev pub try_lock : Locking → Result DaemonError (Unit {0})
  try_lock contended =
      err (conflict (codes "another configuration transaction is in progress; retry the operation"))
  try_lock (not_lockable message) = err (io message)
  try_lock _ = ok tt

  unfoldable pub lock : Target → Locking → Entry → Entry → Result DaemonError Guard
  unfolding verify_path read_document
  lock t locking lock_entry entry = do
    verify_path t
    create_directory locking
    verify_path t
    reject_symlink lock_entry
    try_lock locking
    verify_path t
    (document, hash) ← read_document f entry
    ok (record { path = t.path; target_id = t.id; document = document; expected_hash = hash })

  unfoldable pub read_record : Target → Entry → Result DaemonError (Option Record)
  unfolding verify_path read_document get
  read_record t entry = do
    verify_path t
    (document, _) ← read_document f entry
    ok (get t.id document.targets)

  abbrev owner_of : Option Record → Option ConfigOwnerInfo
  owner_of found = and_then found (λ r. r.owner)

  abbrev is_owned_by : ConfigOwnerInfo → Option Record → Bool
  is_owned_by self_owner found =
      is_some_and (owner_of found) (λ o. text_eq o.instance_id self_owner.instance_id)

  abbrev blocked : ConfigOwnerInfo → Option Record → Option String
  blocked self_owner found =
      if is_some_and found (λ r. is_some r.pending)
      then some "a configuration transaction requires recovery"
      else if is_some (owner_of found)
          && not (is_owned_by self_owner found)
          && is_some_and found (λ r. is_none r.endpoint)
      then some "the managing instance has no compatible IPC endpoint"
      else none

  abbrev generation_of : Option Record → ℕ
  generation_of none = 0
  generation_of (some r) = r.generation

  unfoldable pub status :
      Target → ConfigOwnerInfo → Option String → Entry → Result DaemonError ConfigOwnershipStatus
  unfolding read_record
  status t self_owner reason entry = do
    found ← read_record t entry
    let unavailable = or_else reason (blocked self_owner found)
    ok (record {
      client = t.client;
      target_id = t.id;
      config_path = t.config_path;
      generation = generation_of found;
      owner = owner_of found;
      owner_is_self = is_owned_by self_owner found;
      takeover_available =
          is_some (owner_of found) && not (is_owned_by self_owner found) && is_none unavailable;
      takeover_unavailable_reason = unavailable;
    })

  unfoldable pub set_record_for : Guard → Target → Record → Entry → Entry → Faults → Written
  unfolding verify_path write_record
  set_record_for g t r before latest faults =
      if not (text_eq t.path g.path)
      then (
        err (
            conflict (codes "the configuration transaction lock belongs to a different directory")),
        g,
        latest,
      )
      else elim (verify_path t) [
        | err e ↦ (err e, g, latest)
        | ok _ ↦ write_record f g t.id r before latest faults
      ]
