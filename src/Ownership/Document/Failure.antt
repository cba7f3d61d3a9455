-- ===== src/Ownership/Document/Failure.antt =====
-- What a write of an ownership record leaves when it fails, at whichever step (crates/hsind/src/ownership.rs).
use hsin_rs.Prelude.{
  false, not, Option, none, some, Text, Result, ok, err, ok_or, ok_or-eq-ok, refuse, [], is_ok, ◌≡◌,
  refl, ◌⊎◌, inl, inr,
}
use hsin_rs.Errors.{DaemonError, json}
use hsin_rs.Ipc.Protocol.{Bytes}
use hsin_rs.Ownership.Record.{Record, validate_record}
use hsin_rs.Ownership.Document.{Entry, file, Format, read_document, Guard, hash_eq, too_large}
use hsin_rs.Ownership.Document.Write.{
  Faults, Work, Step, then_step, write_all, commit, fails, updated, steps, write_record,
}

-- `P` holds of what a step leaves if it fails.
abbrev Leaves : {A : Type 0} → (Work → Type 0) → Result DaemonError A × Work → Type 0
Leaves P (ok a, w) = Unit
Leaves P (err e, w) = P w

module _ {A B : Type 0} (P : Work → Type 0) where
  given-Leaves :
      (r : Result DaemonError A) (w : Work) (k : A → Step B)
      → P w
      → ((a : A) → r ≡ ok a → Leaves P (k a w))
      → Leaves P (then_step (r, w) k)
  given-Leaves (ok a) w k p next = next a refl
  given-Leaves (err e) w k p next = p

module _ {B : Type 0} (P : Work → Type 0) where
  write_all-Leaves :
      (bytes : Bytes) (fault : Option Text) (w : Work) (k : Bytes → Step B)
      → P w
      → Leaves P (k bytes w)
      → Leaves P (then_step (write_all bytes fault w) k)
  write_all-Leaves bytes none w k p next = next
  write_all-Leaves bytes (some m) w k p next = p

  commit-Leaves :
      (bytes : Bytes) (fault : Option Text) (w : Work) (k : Unit {0} → Step B)
      → P w
      → Leaves P (k tt (record w { entry = file bytes }))
      → Leaves P (then_step (commit bytes fault w) k)
  commit-Leaves bytes none w k p next = next
  commit-Leaves bytes (some m) w k p next = p

  sync-Leaves :
      (fault : Option Text) (w : Work) (k : Unit {0} → Step B)
      → ((message : Text) → fault ≡ some message → P w)
      → Leaves P (k tt w)
      → Leaves P (then_step (fails fault, w) k)
  sync-Leaves none w k p next = next
  sync-Leaves (some m) w k p next = p m refl

module _ (f : Format) where
  open f use {codec}

  -- What stands on disk after a failure: what was read first, what other programs made of it, or
  -- all of the new document, where only the directory could not be synced.
  abbrev pub Stands : Guard → Text → Record → Entry → Entry → Faults → Entry → Type 0
  Stands g id r before latest faults entry =
      (entry ≡ before)
      ⊎ ((entry ≡ latest)
          ⊎ ((message : Text) × (bytes : Bytes) × (faults.syncing ≡ some message)
              × (codec.to_vec (updated f g id r) ≡ some bytes)
              × (entry ≡ file bytes)))

  module _ (g : Guard) (id : Text) (r : Record) (before latest : Entry) (faults : Faults) where
    abbrev Kept : Work → Type 0
    Kept w = (w.guard ≡ g) × Stands g id r before latest faults w.entry

    abbrev at_first : Work
    at_first = record { guard = g; entry = before }

    abbrev later : Work
    later = record { guard = g; entry = latest }

    steps-Leaves : Leaves Kept (steps f id r latest faults g at_first)
    unfolding steps
    steps-Leaves =
        let first : Kept at_first = (refl, inl refl) in
        let second : Kept later = (refl, inr (inl refl)) in
        given-Leaves Kept (validate_record r) at_first _ first λ _ _.
          given-Leaves Kept (ok_or (codec.to_vec (updated f g id r)) (json [])) at_first _ first
            λ bytes encoded. given-Leaves Kept (too_large f bytes) at_first _ first λ _ _.
              given-Leaves Kept (read_document f before) at_first _ first λ one _.
                given-Leaves Kept (refuse (not (hash_eq one.1 g.expected_hash)) _) at_first _ first
                  λ _ _. write_all-Leaves Kept bytes faults.writing at_first _ first (
                    given-Leaves Kept (read_document f latest) later _ second λ two _.
                      given-Leaves Kept (refuse (not (hash_eq two.1 one.1)) _) later _ second λ _ _.
                        commit-Leaves Kept bytes faults.committing later _ second (
                          sync-Leaves Kept faults.syncing (record { guard = g; entry = file bytes })
                            _
                            (λ message e.
                              (refl, inr (inr (message, bytes, e, ok_or-eq-ok _ _ encoded, refl))))
                            tt))

    -- A write that fails, at whichever step, leaves the guard as it was. The file is then as another
    -- program left it, or, where nothing but the sync of the directory failed, all of the new document.
    pub write_record-failed :
        is_ok (write_record f g id r before latest faults).0 ≡ false
        → ((write_record f g id r before latest faults).1 ≡ g)
          × Stands g id r before latest faults (write_record f g id r before latest faults).2
    unfolding write_record
    write_record-failed h = told (steps f id r latest faults g at_first) steps-Leaves h
      where
        told :
            (x : Result DaemonError (Unit {0}) × Work)
            → Leaves Kept x
            → is_ok x.0 ≡ false
            → Kept x.1
        told (ok _, w) kept h = cc
        told (err e, w) kept h = kept
