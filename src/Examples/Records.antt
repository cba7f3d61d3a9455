-- ===== src/Examples/Records.antt =====
-- An ownership record written under a lock, with a small format in place of JSON.
use hsin_rs.Prelude.{
  ℕ, Bool, true, false, Option, none, some, is_some, is_none, is_nil, not, ◌&&◌, if◌then◌else◌, ap,
  arith, [], ◌∷◌, Text, codes, text_eq, replicate, String, Result, ok, ◌≡◌, refl,
}
use hsin_rs.Core.Enums.{codex}
use hsin_rs.Errors.{ConfigOwnerInfo, DaemonError}
use hsin_rs.Ipc.Protocol.{Bytes}
use hsin_rs.Ownership.Record.{
  Record, ManagedScope, Fingerprints, Pending, IpcEndpoint, unclaimed, filesystem,
}
use hsin_rs.Ownership.Document.{
  Document, Targets, default_document, Format, missing, symlink, file, Guard, get, check_targets,
  read_document,
}
use hsin_rs.Ownership.Document.Write.{Faults, write_record}
use hsin_rs.Ownership.Document.Commit.{
  IsSound, write_record-read_document, write_record-expected_hash,
}
use hsin_rs.Ownership.Document.Failure.{Stands, write_record-failed}
use hsin_rs.Ownership.Status.{Target, Locking, acquired, lock, read_record, status}
use hsin_rs.Ownership.Status.Takeover.{lock-IsSound, status-takeover_available}

abbrev owner : ConfigOwnerInfo
owner = record {
  instance_id = codes "a";
  instance_home = codes "/a";
  instance_label = codes "a";
  daemon_version = codes "1.4.0";
}

abbrev self : ConfigOwnerInfo
self = record owner { instance_id = codes "b" }

abbrev owned : Record
owned = record {
  owner = some owner;
  generation = 1;
  endpoint = some (filesystem (codes "/a/hsind.sock"));
  scope = record {
    official_auth_store = none;
    codex_auth = false;
    codex_keys = [];
    claude_model_keys = [];
  };
  fingerprints = record { official_auth = none; config = []; auth = none };
  pending = none;
}

abbrev digest : Text
digest = replicate 64 b'0'

abbrev held : Document
held = record { version = 2; targets = (digest, owned) ∷ [] }

none-some :
    {d : Document} {b : Bytes} → none ≡ some b → ◌≡◌ {A = Option Document} (some held) (some d)
none-some h = cc

-- A format that reads every file as that document, and writes none.
abbrev reading : Format
reading = record {
  codec = record {
    to_vec = λ _. none;
    from_slice = λ _. some held;
    from_slice-to_vec = λ d b h. none-some h;
  };
  hash = λ b. digest;
}

abbrev target : Target
target = record {
  client = codex;
  id = digest;
  path = codes "/c";
  config_path = codes "/c/config.toml";
  original_path = codes "/c/config.toml";
}

abbrev quiet : Faults
quiet = record { writing = none; committing = none; syncing = none }

abbrev guard : Guard
guard = record {
  path = codes "/c";
  target_id = digest;
  document = default_document;
  expected_hash = none;
}

lock-IsSound_example :
    (◌≡◌ {A = Locking} acquired acquired)
    × ((missing ≡ symlink) → ⊥)
    × (◌≡◌ {A = Result DaemonError Text} (ok target.original_path) (ok target.config_path))
    × (◌≡◌ {A = Text} target.path target.path)
    × (◌≡◌ {A = Text} target.id target.id)
    × (read_document reading (file []) ≡ ok (held, some digest))
    × IsSound held.targets
unfolding lock read_document
lock-IsSound_example =
    lock-IsSound reading ok target acquired missing (file [])
      {g = record {
        path = codes "/c";
        target_id = digest;
        document = held;
        expected_hash = some digest;
      }}
      refl

status-takeover_available_example :
    (r : Record) × (o : ConfigOwnerInfo) × (read_record reading ok target (file []) ≡ ok (some r))
    × (r.owner ≡ some o)
    × (text_eq o.instance_id self.instance_id ≡ false)
    × (r.pending ≡ none)
    × (is_some r.endpoint ≡ true)
    × (◌≡◌ {A = Option String} none none)
unfolding status
status-takeover_available_example =
    status-takeover_available reading ok target self none (file []) refl refl

-- A format of the documents that hold one record, of which all but the generation is empty.
abbrev empty_record : ℕ → Record
empty_record generation =
    unclaimed generation
      (record {
        official_auth_store = none;
        codex_auth = false;
        codex_keys = [];
        claude_model_keys = [];
      })
      (record { official_auth = none; config = []; auth = none })

abbrev decode : Bytes → Option Document
decode (version ∷ generation ∷ id) =
    some (record { version = version; targets = (id, empty_record generation) ∷ [] })
decode _ = none

abbrev is_bare :
    Option ConfigOwnerInfo
    → Option IpcEndpoint
    → ManagedScope
    → Fingerprints
    → Option Pending
    → Bool
is_bare none none scope prints none =
    is_none scope.official_auth_store
    && not scope.codex_auth
    && is_nil scope.codex_keys
    && is_nil scope.claude_model_keys
    && is_none prints.official_auth
    && is_nil prints.config
    && is_none prints.auth
is_bare _ _ _ _ _ = false

abbrev encode_record : ℕ → Text → Record → Option Bytes
encode_record version id r =
    if is_bare r.owner r.endpoint r.scope r.fingerprints r.pending
    then some (version ∷ r.generation ∷ id)
    else none

abbrev encode : ℕ → Targets → Option Bytes
encode version ((id, r) ∷ []) = encode_record version id r
encode version _ = none

is_bare→eq :
    (r : Record)
    → is_bare r.owner r.endpoint r.scope r.fingerprints r.pending ≡ true
    → empty_record r.generation ≡ r
is_bare→eq r h =
    let a : r.owner ≡ none = ground arith in
    let b : r.endpoint ≡ none = ground arith in
    let c : r.pending ≡ none = ground arith in
    let d : r.scope.official_auth_store ≡ none = ground arith in
    let e : r.scope.codex_auth ≡ false = ground arith in
    let f : r.scope.codex_keys ≡ [] = ground arith in
    let g : r.scope.claude_model_keys ≡ [] = ground arith in
    let i : r.fingerprints.official_auth ≡ none = ground arith in
    let j : r.fingerprints.config ≡ [] = ground arith in
    let k : r.fingerprints.auth ≡ none = ground arith in cc

decode-encode_record :
    (version : ℕ) (id : Text) (r : Record) (b : Bytes)
    → encode_record version id r ≡ some b
    → decode b ≡ some (record { version = version; targets = (id, r) ∷ [] })
decode-encode_record version id r b h =
    written (is_bare r.owner r.endpoint r.scope r.fingerprints r.pending) refl h
  where
    written :
        (p : Bool)
        → is_bare r.owner r.endpoint r.scope r.fingerprints r.pending ≡ p
        → (if p then some (version ∷ r.generation ∷ id) else none) ≡ some b
        → decode b ≡ some (record { version = version; targets = (id, r) ∷ [] })
    written true e k =
        let bytes : version ∷ r.generation ∷ id ≡ b = cc in
        rw (← bytes)
          (ap (λ s. some (record { version = version; targets = (id, s) ∷ [] })) (is_bare→eq r e))
    written false e k = cc

decode-encode :
    (version : ℕ) (ts : Targets) (b : Bytes)
    → encode version ts ≡ some b
    → decode b ≡ some (record { version = version; targets = ts })
decode-encode version [] b h = cc
decode-encode version ((id, r) ∷ []) b h = decode-encode_record version id r b h
decode-encode version (t ∷ u ∷ ts) b h = cc

abbrev writing : Format
writing = record {
  codec = record {
    to_vec = λ d. encode d.version d.targets;
    from_slice = decode;
    from_slice-to_vec = λ d b h. decode-encode d.version d.targets b h;
  };
  hash = λ b. digest;
}

write_record-read_document_example :
    let (_, g, entry) = write_record writing guard digest (empty_record 4) missing missing quiet in
    (read_document writing entry ≡ ok (g.document, g.expected_hash))
    × (get digest g.document.targets ≡ some (empty_record 4))
    × ((other : Text)
        → text_eq other digest ≡ false
        → get other g.document.targets ≡ get other guard.document.targets)
    × IsSound g.document.targets
unfolding write_record check_targets
write_record-read_document_example =
    write_record-read_document writing guard digest (empty_record 4) missing missing quiet refl refl
      refl

write_record-expected_hash_example :
    (first second : Document) × (read_document writing missing ≡ ok (first, none))
    × (read_document writing missing ≡ ok (second, none))
unfolding write_record
write_record-expected_hash_example =
    write_record-expected_hash writing guard digest (empty_record 4) missing missing quiet refl

-- The directory could not be synced after the commit.
abbrev unsynced : Faults
unsynced = record quiet { syncing = some (codes "sync") }

write_record-failed_example :
    ((write_record writing guard digest (empty_record 4) missing missing unsynced).1 ≡ guard)
    × Stands writing guard digest
        (empty_record 4)
        missing
        missing
        unsynced
        (write_record writing guard digest (empty_record 4) missing missing unsynced).2
unfolding write_record
write_record-failed_example =
    write_record-failed writing guard digest (empty_record 4) missing missing unsynced refl
