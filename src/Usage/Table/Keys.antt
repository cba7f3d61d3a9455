-- ===== src/Usage/Table/Keys.antt =====
-- The key of a row of `usage_events`, under the writes of crates/hsind/src/usage.rs.
use hsin_rs.Prelude.{
  ℕ, suc, none-some, Bool, Bool-cases, false, Option, and_then_ind, none, some, unwrap_or, List, [],
  ◌∷◌, Text, text_eq, text_eq→eq, text_eq_refl, text_eq_comm, if◌then◌else◌, if_ind, inl, inr, ◌≡◌,
  refl, ap, sym, ◌∙◌,
}
use hsin_rs.Usage.Event.{UsageEvent, UsageDataSource, session, proxy}
use hsin_rs.Usage.Table.{
  Calendar, Tables, by_source, find_row, merged, upsert, delete_first, nearest, superseded,
  without_session, insert_event,
}

pub by_source_ind {ℓ κ} :
    {A : Type ℓ} (P : A → Type κ) (s : UsageDataSource) {x y : A} → P x → P y → P (by_source s x y)
by_source_ind P proxy p q = p
by_source_ind P session p q = q

module _ {Time : Type 0} where
  -- No two rows have one key.
  abbrev pub Unique : List (UsageEvent Time) → Type 0
  Unique [] = Unit
  Unique (r ∷ rs) = (find_row r.dedup_key rs ≡ none) × Unique rs

  -- What an upsert makes of the row of its key, or of none.
  abbrev pub settled : UsageEvent Time → Option (UsageEvent Time) → UsageEvent Time
  settled e none = e
  settled e (some r) = merged e r

  pub find_row-upsert :
      (e : UsageEvent Time) (rows : List (UsageEvent Time))
      → find_row e.dedup_key (upsert e rows) ≡ some (settled e (find_row e.dedup_key rows))
  unfolding upsert
  find_row-upsert e [] = rw (text_eq_refl e.dedup_key) refl
  find_row-upsert e (r ∷ rs) = elim (Bool-cases (text_eq e.dedup_key r.dedup_key)) [
    | inl h ↦ rw (h, h) refl
    | inr h ↦ rw (h, h) (find_row-upsert e rs)
  ]

  pub find_row-upsert-other :
      (e : UsageEvent Time) (key : Text) (rows : List (UsageEvent Time))
      → text_eq key e.dedup_key ≡ false
      → find_row key (upsert e rows) ≡ find_row key rows
  unfolding upsert
  find_row-upsert-other e key [] h = rw h refl
  find_row-upsert-other e key (r ∷ rs) h = elim (Bool-cases (text_eq e.dedup_key r.dedup_key)) [
    | inl k ↦
        let apart : text_eq key r.dedup_key ≡ false =
          ap (text_eq key) (sym (text_eq→eq e.dedup_key r.dedup_key k)) ∙ h in
        rw (k, apart) refl
    | inr k ↦ rw k (
        ap (λ rest. if text_eq key r.dedup_key then some r else rest)
          (find_row-upsert-other e key rs h))
  ]

  pub upsert-Unique :
      (e : UsageEvent Time) (rows : List (UsageEvent Time)) → Unique rows → Unique (upsert e rows)
  unfolding upsert
  upsert-Unique e [] u = (refl, tt)
  upsert-Unique e (r ∷ rs) u = elim (Bool-cases (text_eq e.dedup_key r.dedup_key)) [
    | inl k ↦ rw k u
    | inr k ↦ rw k (
      find_row-upsert-other e r.dedup_key rs (text_eq_comm r.dedup_key e.dedup_key ∙ k) ∙ u.0,
      upsert-Unique e rs u.1,
    )
  ]

  pub find_row-none :
      (key : Text) (r : UsageEvent Time) (rs : List (UsageEvent Time))
      → find_row key (r ∷ rs) ≡ none
      → (text_eq key r.dedup_key ≡ false) × (find_row key rs ≡ none)
  find_row-none key r rs h = elim (Bool-cases (text_eq key r.dedup_key)) [
    | inl k ↦ absurd (none-some (sym (rw k at h)))
    | inr k ↦ (k, rw k at h)
  ]

  find_row-delete_first :
      (p : UsageEvent Time → Bool) (key : Text) (rows : List (UsageEvent Time))
      → find_row key rows ≡ none
      → find_row key (delete_first p rows) ≡ none
  unfolding delete_first
  find_row-delete_first p key [] h = refl
  find_row-delete_first p key (r ∷ rs) h =
      let (apart, rest) = find_row-none key r rs h in
      if_ind (λ (rows : List (UsageEvent Time)). find_row key rows ≡ none) (p r) (λ gone. rest)
        (λ stays. rw apart (find_row-delete_first p key rs rest))

  delete_first-Unique :
      (p : UsageEvent Time → Bool) (rows : List (UsageEvent Time))
      → Unique rows
      → Unique (delete_first p rows)
  unfolding delete_first
  delete_first-Unique p [] u = tt
  delete_first-Unique p (r ∷ rs) u =
      if_ind Unique (p r) (λ gone. u.1)
        (λ stays. (find_row-delete_first p r.dedup_key rs u.0, delete_first-Unique p rs u.1))

-- How many rows have a key.
module _ {Time : Type 0} where
  pub copies : Text → List (UsageEvent Time) → ℕ
  copies key [] = 0
  copies key (r ∷ rs) =
      let rest = copies key rs in if text_eq key r.dedup_key then suc rest else rest

  copies-none :
      (key : Text) (rows : List (UsageEvent Time)) → find_row key rows ≡ none → copies key rows ≡ 0
  unfolding copies
  copies-none key [] h = refl
  copies-none key (r ∷ rs) h =
      let (apart, rest) = find_row-none key r rs h in rw apart (copies-none key rs rest)

  pub copies-Unique :
      (key : Text) (rows : List (UsageEvent Time)) {r : UsageEvent Time}
      → Unique rows
      → find_row key rows ≡ some r
      → copies key rows ≡ 1
  unfolding copies
  copies-Unique key [] u h = cc
  copies-Unique key (r ∷ rs) u h = elim (Bool-cases (text_eq key r.dedup_key)) [
    | inl k ↦
        rw k (
          ap suc
            (copies-none key rs (ap (λ t. find_row t rs) (text_eq→eq key r.dedup_key k) ∙ u.0)))
    | inr k ↦ rw k (copies-Unique key rs u.1 (rw k at h))
  ]

module _ {Time : Type 0} (calendar : Calendar Time) where
  abbrev Left : List (UsageEvent Time) → Option (List (UsageEvent Time)) → Type 0
  Left rows kept = Unique (unwrap_or kept rows)

  superseded-Unique :
      (e : UsageEvent Time) (rows : List (UsageEvent Time))
      → Unique rows
      → Unique (unwrap_or (superseded calendar e rows) rows)
  unfolding without_session
  superseded-Unique e rows u =
      by_source_ind (Left rows) e.source
        (and_then_ind (Left rows) e.correlation_key (λ c. without_session calendar e c rows) u
          (λ c.
            and_then_ind (Left rows) (nearest calendar e c rows) _ u
              (λ d. delete_first-Unique _ rows u)))
        u

  -- Whatever event is inserted, from a proxy or from a session, no two rows come to have one key.
  pub insert_event-Unique :
      (e : UsageEvent Time) (t : Tables Time)
      → Unique t.rows
      → Unique (insert_event calendar e t).1.rows
  unfolding insert_event
  insert_event-Unique e t u =
      upsert-Unique e (unwrap_or (superseded calendar e t.rows) t.rows)
        (superseded-Unique e t.rows u)
