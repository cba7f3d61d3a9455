-- ===== src/Ownership/Status/Takeover.antt =====
-- What a lock gives its holder, and when a configuration can be taken over.
use hsin_rs.Prelude.{
  leb, ltb, true, false, not, ◌&&◌, Option, none, some, is_some, is_none, or_else, String, Text,
  text_eq, length, Option-cases, inl, inr, Result, ok, ok_or, >>=-eq-ok, refuse-then, refuse-eq-ok,
  ok-injective, text_eq→eq, not-eq-false, ◌≡◌, refl, sym, ◌∙◌, ap, arith,
}
use hsin_rs.Errors.{ConfigOwnerInfo, ConfigOwnershipStatus, DaemonError}
use hsin_rs.Ownership.Record.{Record}
use hsin_rs.Ownership.Document.{
  Format, Entry, missing, symlink, not_a_file, unreadable, file, Document, Guard, read_document,
  check_targets, format_version, max_record_bytes,
}
use hsin_rs.Ownership.Document.Commit.{IsSound}
use hsin_rs.Ownership.Status.{
  Target, Locking, acquired, contended, no_directory, not_lockable, verify_path, create_directory,
  reject_symlink, try_lock, lock, read_record, status, owner_of, is_owned_by, blocked,
}

module _ (f : Format) where
  -- What reads without an error is sound.
  read_document-IsSound :
      (entry : Entry) {d : Document} {hash : Option Text}
      → read_document f entry ≡ ok (d, hash)
      → IsSound d.targets
  unfolding read_document check_targets
  read_document-IsSound missing h = ap (λ p. check_targets p.0.targets) (sym (ok-injective h))
  read_document-IsSound symlink h = cc
  read_document-IsSound not_a_file h = cc
  read_document-IsSound (unreadable m) h = cc
  read_document-IsSound (file bytes) {d} h =
      let (small, h₁) = refuse-then (ltb max_record_bytes (length bytes)) _ _ h in
      let (b, _, h₂) = >>=-eq-ok (ok_or (f.codec.from_slice bytes) _) _ h₁ in
      let (_, h₃) = refuse-then (not (leb 1 b.version && leb b.version format_version)) _ _ h₂ in
      let (_, sound, h₄) = >>=-eq-ok (check_targets b.targets) _ h₃ in
      ap (λ p. check_targets p.0.targets) (sym (ok-injective h₄)) ∙ sound

  module _ (resolve : Text → Result DaemonError Text) where
    verify_path-eq-ok :
        (t : Target) → verify_path f resolve t ≡ ok tt → resolve t.original_path ≡ ok t.config_path
    unfolding verify_path
    verify_path-eq-ok t h =
        let (real, got, h₁) = >>=-eq-ok (resolve t.original_path) _ h in
        let same = refuse-eq-ok (not (text_eq real t.config_path)) _ h₁ in
        got ∙ ap ok (text_eq→eq real t.config_path (not-eq-false _ same))

    locked :
        (locking : Locking)
        → create_directory f resolve locking ≡ ok tt
        → try_lock f resolve locking ≡ ok tt
        → locking ≡ acquired
    locked acquired h k = refl
    locked contended h k = cc
    locked (no_directory m) h k = cc
    locked (not_lockable m) h k = cc

    plain : (entry : Entry) → reject_symlink f resolve entry ≡ ok tt → (entry ≡ symlink) → ⊥
    plain missing h k = cc
    plain symlink h k = cc
    plain not_a_file h k = cc
    plain (unreadable m) h k = cc
    plain (file b) h k = cc

    -- A lock is taken only if the directory is there and no other holds its lock, the lock file is
    -- no symbolic link, and the configuration's path still leads to the file that the target names;
    -- the guard is the target's and holds sound records with the hash of the file they were read from.
    pub lock-IsSound :
        (t : Target) (locking : Locking) (lock_entry entry : Entry) {g : Guard}
        → lock f resolve t locking lock_entry entry ≡ ok g
        → (locking ≡ acquired)
          × ((lock_entry ≡ symlink) → ⊥)
          × (resolve t.original_path ≡ ok t.config_path)
          × (g.path ≡ t.path)
          × (g.target_id ≡ t.id)
          × (read_document f entry ≡ ok (g.document, g.expected_hash))
          × IsSound g.document.targets
    unfolding lock
    lock-IsSound t locking lock_entry entry {g} h =
        let (_, there, h₁) = >>=-eq-ok (verify_path f resolve t) _ h in
        let (_, made, h₂) = >>=-eq-ok (create_directory f resolve locking) _ h₁ in
        let (_, _, h₃) = >>=-eq-ok (verify_path f resolve t) _ h₂ in
        let (_, real, h₄) = >>=-eq-ok (reject_symlink f resolve lock_entry) _ h₃ in
        let (_, free, h₅) = >>=-eq-ok (try_lock f resolve locking) _ h₄ in
        let (_, _, h₆) = >>=-eq-ok (verify_path f resolve t) _ h₅ in
        let ((d, hash), got, h₇) = >>=-eq-ok (read_document f entry) _ h₆ in
        let read = got ∙ ap (λ k. ok (k.document, k.expected_hash)) (ok-injective h₇) in
        (
          locked locking made free,
          plain lock_entry real,
          verify_path-eq-ok t there,
          ap (λ k. k.path) (sym (ok-injective h₇)),
          ap (λ k. k.target_id) (sym (ok-injective h₇)),
          read,
          read_document-IsSound entry read,
        )

    takeover :
        (self_owner : ConfigOwnerInfo) (reason : Option String) (found : Option Record)
        → (is_some (owner_of f resolve found)
            && not (is_owned_by f resolve self_owner found)
            && is_none (or_else reason (blocked f resolve self_owner found)))
          ≡ true
        → (r : Record) × (owner : ConfigOwnerInfo) × (found ≡ some r)
          × (r.owner ≡ some owner)
          × (text_eq owner.instance_id self_owner.instance_id ≡ false)
          × (r.pending ≡ none)
          × (is_some r.endpoint ≡ true)
          × (reason ≡ none)
    takeover self_owner (some s) found h = ground arith
    takeover self_owner none none h = cc
    takeover self_owner none (some r) h = elim (Option-cases r.owner) [
      | inl e ↦ let bad = rw e at h in cc
      | inr (owner, e) ↦ (r, owner, refl, e, ground arith, ground arith, ground arith, refl)
    ]

    -- A takeover is offered only of a record that a different instance owns, that waits for no
    -- recovery and names an endpoint to ask, and only if the caller gave no reason against it.
    pub status-takeover_available :
        (t : Target) (self_owner : ConfigOwnerInfo) (reason : Option String) (entry : Entry)
        {s : ConfigOwnershipStatus}
        → status f resolve t self_owner reason entry ≡ ok s
        → s.takeover_available ≡ true
        → (r : Record) × (owner : ConfigOwnerInfo) × (read_record f resolve t entry ≡ ok (some r))
          × (r.owner ≡ some owner)
          × (text_eq owner.instance_id self_owner.instance_id ≡ false)
          × (r.pending ≡ none)
          × (is_some r.endpoint ≡ true)
          × (reason ≡ none)
    unfolding status
    status-takeover_available t self_owner reason entry h k =
        let (found, got, h₁) = >>=-eq-ok (read_record f resolve t entry) _ h in
        let (r, owner, is, owned, differs, idle, reachable, free) =
          takeover self_owner reason found (ap (λ s. s.takeover_available) (ok-injective h₁) ∙ k) in
        (r, owner, got ∙ ap ok is, owned, differs, idle, reachable, free)
