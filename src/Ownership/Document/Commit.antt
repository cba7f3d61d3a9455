-- ===== src/Ownership/Document/Commit.antt =====
-- Writing an ownership record: what stands on disk after a success and after a failure.
use hsin_rs.Prelude.{
  ltb, true, false, not, Option, none, some, [], ◌∷◌, Text, text_eq, text_eq_refl, text_eq→eq,
  length, if◌then◌else◌, if_ind, not-eq-false, Bool-cases, inl, inr, Result, ok, err, ok_or, is_ok,
  >>=-eq-ok, refuse-then, refuse, refuse-eq-ok, ok_or-eq-ok, ◌≡◌, refl, sym, ◌∙◌, ap,
}
use hsin_rs.Errors.{DaemonError, json}
use hsin_rs.Ipc.Protocol.{Bytes}
use hsin_rs.Ownership.Record.{Record, is_fingerprint, validate_record}
use hsin_rs.Ownership.Document.{
  format_version, max_record_bytes, Targets, get, insert, Document, Entry, file, Format,
  check_targets, read_document, Guard, hash_eq, too_large,
}
use hsin_rs.Ownership.Document.Write.{
  Faults, Work, Step, then_step, write_all, commit, fails, updated, steps, write_record,
}

get-insert : (id : Text) (r : Record) (ts : Targets) → get id (insert id r ts) ≡ some r
unfolding get insert
get-insert id r [] = rw (text_eq_refl id) refl
get-insert id r ((k, s) ∷ ts) = elim (Bool-cases (text_eq id k)) [
  | inl e ↦ rw e (rw (text_eq_refl id) refl)
  | inr e ↦ rw e (rw e (get-insert id r ts))
]

get-insert_other :
    (id other : Text) (r : Record) (ts : Targets)
    → text_eq other id ≡ false
    → get other (insert id r ts) ≡ get other ts
unfolding get insert
get-insert_other id other r [] h = rw h refl
get-insert_other id other r ((k, s) ∷ ts) h = elim (Bool-cases (text_eq id k)) [
  | inl e ↦ rw e (rw h (rw (sym (text_eq→eq id k e)) (rw h refl)))
  | inr e ↦
      rw e (ap (λ o. if text_eq other k then some s else o) (get-insert_other id other r ts h))
]

-- Every key is a digest and every record is valid.
abbrev pub IsSound : Targets → Type 0
IsSound ts = check_targets ts ≡ ok tt

check_targets-insert :
    (id : Text) (r : Record) (ts : Targets)
    → is_fingerprint id ≡ true
    → validate_record r ≡ ok tt
    → IsSound ts
    → IsSound (insert id r ts)
unfolding check_targets insert
check_targets-insert id r [] h v s = rw h (rw v refl)
check_targets-insert id r ((k, t) ∷ ts) h v s =
    let (key, s₁) = refuse-then (not (is_fingerprint k)) _ _ s in
    let (_, valid, s₂) = >>=-eq-ok (validate_record t) (λ _. check_targets ts) s₁ in
    if_ind IsSound (text_eq id k) (λ _. rw h (rw v s₂))
      (λ _. rw key (rw valid (check_targets-insert id r ts h v s₂)))

hash_eq→eq : (a b : Option Text) → hash_eq a b ≡ true → a ≡ b
hash_eq→eq none none h = refl
hash_eq→eq (some a) (some b) h = ap some (text_eq→eq a b h)
hash_eq→eq none (some b) h = cc
hash_eq→eq (some a) none h = cc

-- A step that ends well, and what runs after it.
module _ {B : Type 0} where
  err-ok : {e : DaemonError} {b : B} → ◌≡◌ {A = Result DaemonError B} (err e) (ok b) → ⊥
  err-ok h = cc

module _ {A B : Type 0} where
  given-eq-ok :
      (r : Result DaemonError A) (w : Work) (k : A → Step B) {b : B} {w' : Work}
      → then_step (r, w) k ≡ (ok b, w')
      → (a : A) × (r ≡ ok a) × (k a w ≡ (ok b, w'))
  given-eq-ok (ok a) w k h = (a, refl, h)
  given-eq-ok (err e) w k h = absurd (err-ok (ap (λ x. x.0) h))

module _ {B : Type 0} where
  write_all-eq-ok :
      (bytes : Bytes) (fault : Option Text) (w : Work) (k : Bytes → Step B) {b : B} {w' : Work}
      → then_step (write_all bytes fault w) k ≡ (ok b, w')
      → k bytes w ≡ (ok b, w')
  write_all-eq-ok bytes none w k h = h
  write_all-eq-ok bytes (some m) w k h = absurd (err-ok {B = B} (ap (λ x. x.0) h))

  commit-eq-ok :
      (bytes : Bytes) (fault : Option Text) (w : Work) (k : Unit {0} → Step B) {b : B} {w' : Work}
      → then_step (commit bytes fault w) k ≡ (ok b, w')
      → k tt (record w { entry = file bytes }) ≡ (ok b, w')
  commit-eq-ok bytes none w k h = h
  commit-eq-ok bytes (some m) w k h = absurd (err-ok {B = B} (ap (λ x. x.0) h))

is_ok-eq : (r : Result DaemonError (Unit {0})) → is_ok r ≡ true → r ≡ ok tt
is_ok-eq (ok _) h = refl
is_ok-eq (err e) h = cc

module _ (f : Format) where
  open f use {codec, hash}

  -- What a write found when it came to its end.
  record Prepared (g : Guard) (id : Text) (r : Record) (before latest : Entry) (bytes : Bytes)
      : Type 0 where
    valid : validate_record r ≡ ok tt
    encoded : codec.to_vec (updated f g id r) ≡ some bytes
    small : ltb max_record_bytes (length bytes) ≡ false
    first : Document
    read_first : read_document f before ≡ ok (first, g.expected_hash)
    second : Document
    read_second : read_document f latest ≡ ok (second, g.expected_hash)

  -- What a success leaves.
  abbrev left_by : Guard → Text → Record → Bytes → Work
  left_by g id r bytes = record {
    guard = record g { document = updated f g id r; expected_hash = some (hash bytes) };
    entry = file bytes;
  }

  steps-eq-ok :
      (g : Guard) (id : Text) (r : Record) (before latest : Entry) (faults : Faults) {w : Work}
      → steps f id r latest faults g (record { guard = g; entry = before }) ≡ (ok tt, w)
      → (bytes : Bytes) × Prepared g id r before latest bytes × (w ≡ left_by g id r bytes)
  unfolding steps
  steps-eq-ok g id r before latest faults {w} h =
      let (_, valid, h₁) = given-eq-ok (validate_record r) _ _ h in
      let (bytes, enc, h₂) =
        given-eq-ok (ok_or (codec.to_vec (updated f g id r)) (json [])) _ _ h₁ in
      let (_, fits, h₃) = given-eq-ok (too_large f bytes) _ _ h₂ in
      let ((first, hash₁), read₁, h₄) = given-eq-ok (read_document f before) _ _ h₃ in
      let (_, same₁, h₅) = given-eq-ok (refuse (not (hash_eq hash₁ g.expected_hash)) _) _ _ h₄ in
      let h₆ = write_all-eq-ok bytes faults.writing _ _ h₅ in
      let ((second, hash₂), read₂, h₇) = given-eq-ok (read_document f latest) _ _ h₆ in
      let (_, same₂, h₈) = given-eq-ok (refuse (not (hash_eq hash₂ hash₁)) _) _ _ h₇ in
      let h₉ = commit-eq-ok bytes faults.committing _ _ h₈ in
      let (_, _, h₁₀) = given-eq-ok (fails faults.syncing) _ _ h₉ in
      let expected₁ = hash_eq→eq hash₁ g.expected_hash (not-eq-false _ (refuse-eq-ok _ _ same₁)) in
      let expected₂ = hash_eq→eq hash₂ hash₁ (not-eq-false _ (refuse-eq-ok _ _ same₂)) in
      (
        bytes,
        record {
          valid = valid;
          encoded = ok_or-eq-ok (codec.to_vec (updated f g id r)) _ enc;
          small = refuse-eq-ok (ltb max_record_bytes (length bytes)) _ fits;
          first = first;
          read_first = read₁ ∙ ap (λ h. ok (first, h)) expected₁;
          second = second;
          read_second = read₂ ∙ ap (λ h. ok (second, h)) (expected₂ ∙ expected₁);
        },
        sym (ap (λ x. x.1) h₁₀),
      )

  read_document-file :
      (d : Document) (bytes : Bytes)
      → ltb max_record_bytes (length bytes) ≡ false
      → codec.from_slice bytes ≡ some d
      → d.version ≡ format_version
      → IsSound d.targets
      → read_document f (file bytes) ≡ ok (d, some (hash bytes))
  unfolding read_document
  read_document-file d bytes small decoded version sound = simp (small, decoded, version, sound)

  write_record-eq-ok :
      (g : Guard) (id : Text) (r : Record) (before latest : Entry) (faults : Faults)
      → is_ok (write_record f g id r before latest faults).0 ≡ true
      → (bytes : Bytes) × Prepared g id r before latest bytes
        × (write_record f g id r before latest faults ≡ (
          ok tt,
          record g { document = updated f g id r; expected_hash = some (hash bytes) },
          file bytes,
        ))
  unfolding write_record
  write_record-eq-ok g id r before latest faults h =
      let start : Work = record { guard = g; entry = before } in
      let done = is_ok-eq (steps f id r latest faults g start).0 h in
      let (bytes, p, left) =
        steps-eq-ok g id r before latest faults {w = (steps f id r latest faults g start).1} (
          ap (λ (x : Result DaemonError (Unit {0})). (x, (steps f id r latest faults g start).1))
            done) in
      (bytes, p, λ i. (done i, (left i).guard, (left i).entry))

  -- A write that succeeds, of a valid identifier over sound records, leaves a file that reads back
  -- as what the guard holds: the record under its identifier, every other record as it was, all of
  -- them sound, and the hash that the next write expects.
  pub write_record-read_document :
      (g : Guard) (id : Text) (r : Record) (before latest : Entry) (faults : Faults)
      → IsSound g.document.targets
      → is_fingerprint id ≡ true
      → is_ok (write_record f g id r before latest faults).0 ≡ true
      → let (_, g', entry) = write_record f g id r before latest faults in
        (read_document f entry ≡ ok (g'.document, g'.expected_hash))
        × (get id g'.document.targets ≡ some r)
        × ((other : Text)
            → text_eq other id ≡ false
            → get other g'.document.targets ≡ get other g.document.targets)
        × IsSound g'.document.targets
  write_record-read_document g id r before latest faults sound key h =
      let (bytes, p, left) = write_record-eq-ok g id r before latest faults h in
      rw left (
        read_document-file (updated f g id r) bytes p.small
            (codec.from_slice-to_vec _ bytes p.encoded) refl
            (check_targets-insert id r g.document.targets key p.valid sound),
        get-insert id r g.document.targets,
        λ other differs. get-insert_other id other r g.document.targets differs,
        check_targets-insert id r g.document.targets key p.valid sound,
      )

  -- A write succeeds only if both readings of the file found the hash that the guard expected.
  pub write_record-expected_hash :
      (g : Guard) (id : Text) (r : Record) (before latest : Entry) (faults : Faults)
      → is_ok (write_record f g id r before latest faults).0 ≡ true
      → (first second : Document) × (read_document f before ≡ ok (first, g.expected_hash))
        × (read_document f latest ≡ ok (second, g.expected_hash))
  write_record-expected_hash g id r before latest faults h =
      let (bytes, p, _) = write_record-eq-ok g id r before latest faults h in
      (p.first, p.second, p.read_first, p.read_second)
