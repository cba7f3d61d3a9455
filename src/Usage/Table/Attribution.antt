-- ===== src/Usage/Table/Attribution.antt =====
-- Whom the rows of `usage_events` bill, when a request is told by the proxy and by a session
-- (crates/hsind/src/usage.rs).
use hsin_rs.Prelude.{
  ℕ, max, Bool-cases, Option-cases, none, some, unwrap_or, List, [], ◌∷◌, text_eq, text_eq_refl,
  inl, inr, ◌≡◌, refl, ap, sym, ◌∙◌, arith,
}
use hsin_rs.Usage.Event.{UsageEvent, UsageDataSource, session, proxy}
use hsin_rs.Usage.Table.{
  Calendar, Tables, by_source, find_row, merged, upsert, superseded, insert_event,
}
use hsin_rs.Usage.Table.Keys.{find_row-upsert, settled}

by_source_same : {A : Type 0} (s : UsageDataSource) (x : A) → by_source s x x ≡ x
by_source_same proxy x = refl
by_source_same session x = refl

by_source_idem :
    {A : Type 0} (s : UsageDataSource) (x y : A) → by_source s x (by_source s x y) ≡ by_source s x y
by_source_idem proxy x y = refl
by_source_idem session x y = refl

max_same : (n : ℕ) → max n n ≡ n
max_same n = omega arith

max_idem : (m n : ℕ) → max (max m n) n ≡ max m n
max_idem m n = omega arith

module _ {Time : Type 0} where
  merged_self : (e : UsageEvent Time) → merged e e ≡ e
  merged_self e = simp (by_source_same, max_same)

  merged_idem : (e r : UsageEvent Time) → merged e (merged e r) ≡ merged e r
  merged_idem e r = simp (by_source_idem, max_idem)

  upsert_idem :
      (e : UsageEvent Time) (rows : List (UsageEvent Time))
      → upsert e (upsert e rows) ≡ upsert e rows
  unfolding upsert
  upsert_idem e [] = rw (text_eq_refl e.dedup_key) (ap (λ r. r ∷ []) (merged_self e))
  upsert_idem e (r ∷ rs) = elim (Bool-cases (text_eq e.dedup_key r.dedup_key)) [
    | inl k ↦ rw (k, k) (ap (λ r. r ∷ rs) (merged_idem e r))
    | inr k ↦ rw (k, k) (ap (λ rest. r ∷ rest) (upsert_idem e rs))
  ]

  -- The row of a key bills the provider of an event.
  pub record IsBilledTo (p : UsageEvent Time) (rows : List (UsageEvent Time)) : Type 0 where
    pub row : UsageEvent Time
    pub found : find_row p.dedup_key rows ≡ some row
    pub source : row.source ≡ proxy
    pub provider_id : row.provider_id ≡ p.provider_id
    pub provider_name : row.provider_name ≡ p.provider_name
    pub provider_revision : row.provider_revision ≡ p.provider_revision
    pub attribution : row.attribution ≡ p.attribution

  module _ (calendar : Calendar Time) where
    -- A session's line that is read again leaves the rows as they were after the first time.
    pub insert_event_idem :
        (e : UsageEvent Time) (t : Tables Time)
        → e.source ≡ session
        → (insert_event calendar e (insert_event calendar e t).1).1.rows
          ≡ (insert_event calendar e t).1.rows
    unfolding insert_event
    insert_event_idem e t h = simp (h, upsert_idem)

    insert_event-proxy :
        (p : UsageEvent Time) (t : Tables Time)
        → p.source ≡ proxy
        → IsBilledTo p (insert_event calendar p t).1.rows
    unfolding insert_event
    insert_event-proxy p t h =
        let rows = unwrap_or (superseded calendar p t.rows) t.rows in
        let found = find_row-upsert p rows in
        elim (Option-cases (find_row p.dedup_key rows)) [
          | inl n ↦ record {
            row = p;
            found = found ∙ ap (λ o. some (settled p o)) n;
            source = h;
            provider_id = refl;
            provider_name = refl;
            provider_revision = refl;
            attribution = refl;
          }
          | inr (r, e) ↦ record {
            row = merged p r;
            found = found ∙ ap (λ o. some (settled p o)) e;
            source = simp h;
            provider_id = simp h;
            provider_name = simp h;
            provider_revision = simp h;
            attribution = simp h;
          }
        ]

    insert_event-session :
        (p s : UsageEvent Time) (t : Tables Time)
        → s.source ≡ session
        → s.dedup_key ≡ p.dedup_key
        → IsBilledTo p t.rows
        → IsBilledTo p (insert_event calendar s t).1.rows
    unfolding insert_event
    insert_event-session p s t h same billed =
        let none_gone : superseded calendar s t.rows ≡ none = simp h in
        record {
          row = merged s billed.row;
          found = rw none_gone (
              ap (λ k. find_row k (upsert s t.rows)) (sym same)
              ∙ find_row-upsert s t.rows
              ∙ ap (λ o. some (settled s o)) (ap (λ k. find_row k t.rows) same ∙ billed.found));
          source = simp (h, billed.source);
          provider_id = simp (h, billed.provider_id);
          provider_name = simp (h, billed.provider_name);
          provider_revision = simp (h, billed.provider_revision);
          attribution = simp (h, billed.attribution);
        }

    -- A request that the proxy saw and a session tells under one key is billed to the proxy's provider, in whichever
    -- order the two come, and whatever the tables held.
    pub insert_event-either_order :
        (p s : UsageEvent Time) (t : Tables Time)
        → p.source ≡ proxy
        → s.source ≡ session
        → s.dedup_key ≡ p.dedup_key
        → IsBilledTo p (insert_event calendar s (insert_event calendar p t).1).1.rows
          × IsBilledTo p (insert_event calendar p (insert_event calendar s t).1).1.rows
    insert_event-either_order p s t h k same = (
      insert_event-session p s (insert_event calendar p t).1 k same (insert_event-proxy p t h),
      insert_event-proxy p (insert_event calendar s t).1 h,
    )
