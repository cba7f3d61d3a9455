-- ===== src/Usage/Table/Others.antt =====
-- What an insert does to the rows of other keys (crates/hsind/src/usage.rs).
use hsin_rs.Prelude.{
  suc, length, if_ind, and_then_ind, ℕ, ◌≤◌, min, ◌==◌, Bool, true, false, ◌&&◌, Bool-cases, Option,
  Option-cases, none, some, is_some_and, unwrap_or, List, [], ◌∷◌, Text, text_eq, text_eq→eq, inl,
  inr, ◌⊎◌, ◌≡◌, refl, ap, sym, ◌∙◌, arith,
}
use hsin_rs.Core.Clients.Settings.{client_eq}
use hsin_rs.Usage.Event.{UsageEvent, UsageDataSource, session, proxy}
use hsin_rs.Usage.Table.{
  Calendar, Tables, by_source, find_row, upsert, delete_first, nearest, correlates, superseded,
  without_session, insert_event,
}
use hsin_rs.Usage.Table.Keys.{by_source_ind, find_row-upsert-other}

module _ {Time : Type 0} where
  some-eq : {a b : UsageEvent Time} → ◌≡◌ {A = Option (UsageEvent Time)} (some a) (some b) → a ≡ b
  some-eq e = cc

  -- A deletion takes a row only if it meets the condition.
  find_row-delete_first-some :
      (p : UsageEvent Time → Bool) (key : Text) (rows : List (UsageEvent Time))
      {r : UsageEvent Time}
      → find_row key rows ≡ some r
      → (find_row key (delete_first p rows) ≡ some r) ⊎ (p r ≡ true)
  unfolding delete_first
  find_row-delete_first-some p key [] h = cc
  find_row-delete_first-some p key (q ∷ rs) h = elim (Bool-cases (text_eq key q.dedup_key)) [
    | inl k ↦
        let same = some-eq (rw k at h) in
        elim (Bool-cases (p q)) [
          | inl gone ↦ inr (ap p (sym same) ∙ gone)
          | inr stays ↦ inl (rw stays (rw k (ap some same)))
        ]
    | inr k ↦
        let rest : find_row key rs ≡ some _ = rw k at h in
        elim (Bool-cases (p q)) [
          | inl gone ↦ inl (rw gone rest)
          | inr stays ↦ elim (find_row-delete_first-some p key rs rest) [
            | inl kept ↦ inl (rw stays (rw k kept))
            | inr met ↦ inr met
          ]
        ]
  ]

  length-delete_first :
      (p : UsageEvent Time → Bool) (rows : List (UsageEvent Time))
      → length rows ≤ suc (length (delete_first p rows))
  unfolding delete_first
  length-delete_first p [] = omega arith
  length-delete_first p (r ∷ rs) =
      if_ind (λ (kept : List (UsageEvent Time)). suc (length rs) ≤ suc (length kept)) (p r)
        (λ gone. omega arith) (λ stays. omega (arith, length-delete_first p rs))

  length-upsert :
      (e : UsageEvent Time) (rows : List (UsageEvent Time)) → length rows ≤ length (upsert e rows)
  unfolding upsert
  length-upsert e [] = omega arith
  length-upsert e (r ∷ rs) =
      if_ind (λ (kept : List (UsageEvent Time)). suc (length rs) ≤ length kept)
        (text_eq e.dedup_key r.dedup_key) (λ same. omega arith)
        (λ other. omega (arith, length-upsert e rs))

  module _ (calendar : Calendar Time) where
    open calendar use {distance}

    min-unwrap_or : (d : ℕ) (o : Option ℕ) {n : ℕ} → o ≡ some n → min d (unwrap_or o d) ≤ n
    min-unwrap_or d none h = cc
    min-unwrap_or d (some m) h = ground arith

    min_first : (d : ℕ) (o : Option ℕ) → min d (unwrap_or o d) ≤ d
    min_first d o = ground arith

    -- No row that correlates is nearer than the nearest.
    nearest-le :
        (e : UsageEvent Time) (c key : Text) (rows : List (UsageEvent Time)) {q : UsageEvent Time}
        → find_row key rows ≡ some q
        → correlates calendar e c q ≡ true
        → (d : ℕ) × (nearest calendar e c rows ≡ some d) × (d ≤ distance q.event_at e.event_at)
    unfolding nearest
    nearest-le e c key [] h k = cc
    nearest-le e c key (r ∷ rs) {q} h k =
        let d = distance r.event_at e.event_at in
        elim (Bool-cases (text_eq key r.dedup_key)) [
          | inl m ↦
              let same = some-eq (rw m at h) in
              let close = ap (correlates calendar e c) same ∙ k in
              let far = ap (λ (x : UsageEvent Time). distance x.event_at e.event_at) same in
              (
                min d (unwrap_or (nearest calendar e c rs) d),
                rw close refl,
                omega (arith, min_first d (nearest calendar e c rs), far),
              )
          | inr m ↦
              let (n, is, le) = nearest-le e c key rs (rw m at h) k in
              elim (Bool-cases (correlates calendar e c r)) [
                | inl close ↦ (
                  min d (unwrap_or (nearest calendar e c rs) d),
                  rw close refl,
                  omega (arith, min-unwrap_or d (nearest calendar e c rs) is, le),
                )
                | inr apart ↦ (n, rw apart is, le)
              ]
        ]

    -- A row of a session that an event of the proxy takes the place of: of the same client and
    -- correlation, within two minutes, and no other such row is nearer.
    pub record IsSuperseded (e r : UsageEvent Time) (rows : List (UsageEvent Time)) : Type 0 where
      pub from_proxy : e.source ≡ proxy
      pub of_session : r.source ≡ session
      pub same_client : client_eq r.client e.client ≡ true
      pub correlation : Text
      pub named : e.correlation_key ≡ some correlation
      pub shared : r.correlation_key ≡ some correlation
      pub near : distance r.event_at e.event_at ≤ 120
      pub is_nearest :
          (key : Text) (q : UsageEvent Time)
          → find_row key rows ≡ some q
          → correlates calendar e correlation q ≡ true
          → distance r.event_at e.event_at ≤ distance q.event_at e.event_at

    is_session : (s : UsageDataSource) → by_source s false true ≡ true → s ≡ session
    is_session proxy h = cc
    is_session session h = refl

    shares : (o : Option Text) (c : Text) → is_some_and o (text_eq c) ≡ true → o ≡ some c
    shares none c h = cc
    shares (some d) c h = ap some (sym (text_eq→eq c d h))

    taken :
        (e r : UsageEvent Time) (c : Text) (d : ℕ) (rows : List (UsageEvent Time))
        → e.source ≡ proxy
        → e.correlation_key ≡ some c
        → nearest calendar e c rows ≡ some d
        → (correlates calendar e c r && distance r.event_at e.event_at == d) ≡ true
        → IsSuperseded e r rows
    taken e r c d rows from_proxy named least met = record {
      from_proxy = from_proxy;
      of_session = is_session r.source (ground arith);
      same_client = ground arith;
      correlation = c;
      named = named;
      shared = shares r.correlation_key c (ground arith);
      near = ground arith;
      is_nearest = λ key q found close.
          let (n, is, le) = nearest-le e c key rows found close in
          let same : n ≡ d = nat-eq (sym is ∙ least) in ground arith;
    }
      where
        nat-eq : {a b : ℕ} → ◌≡◌ {A = Option ℕ} (some a) (some b) → a ≡ b
        nat-eq h = cc

    superseded-others :
        (e : UsageEvent Time) (key : Text) (rows : List (UsageEvent Time)) {r : UsageEvent Time}
        → find_row key rows ≡ some r
        → (find_row key (unwrap_or (superseded calendar e rows) rows) ≡ some r)
          ⊎ IsSuperseded e r rows
    unfolding without_session
    superseded-others e key rows {r} h = by (e.source) refl (Option-cases e.correlation_key)
      where
        by :
            (s : UsageDataSource)
            → e.source ≡ s
            → ((e.correlation_key ≡ none) ⊎ ((c : Text) × (e.correlation_key ≡ some c)))
            → (find_row key (unwrap_or (superseded calendar e rows) rows) ≡ some r)
              ⊎ IsSuperseded e r rows
        by session s k = inl (rw s h)
        by proxy s (inl n) = inl (rw s (rw n h))
        by proxy s (inr (c, named)) = elim (Option-cases (nearest calendar e c rows)) [
          | inl n ↦ inl (rw s (rw named (rw n h)))
          | inr (d, least) ↦
              elim (find_row-delete_first-some
                (λ q. correlates calendar e c q && distance q.event_at e.event_at == d) key rows
                h) [
                  | inl kept ↦ inl (rw s (rw named (rw least kept)))
                  | inr met ↦ inr (taken e r c d rows s named least met)
                ]
        ]

    length-superseded :
        (e : UsageEvent Time) (rows : List (UsageEvent Time))
        → length rows ≤ suc (length (unwrap_or (superseded calendar e rows) rows))
    unfolding without_session
    length-superseded e rows =
        by_source_ind Left e.source
          (and_then_ind Left e.correlation_key (λ c. without_session calendar e c rows)
            (omega arith)
            (λ c.
              and_then_ind Left (nearest calendar e c rows) _ (omega arith)
                (λ d. length-delete_first _ rows)))
          (omega arith)
      where
        Left : Option (List (UsageEvent Time)) → Type 0
        Left kept = length rows ≤ suc (length (unwrap_or kept rows))

    -- An event that is inserted leaves the row of every other key as it was, unless the event is the
    -- proxy's and the row is a session's, of the same client and correlation, within two minutes of
    -- the event, and no such row is nearer to it. The rows grow fewer by one at most.
    pub insert_event-others :
        (e : UsageEvent Time) (t : Tables Time) (key : Text) {r : UsageEvent Time}
        → text_eq key e.dedup_key ≡ false
        → find_row key t.rows ≡ some r
        → ((find_row key (insert_event calendar e t).1.rows ≡ some r) ⊎ IsSuperseded e r t.rows)
          × (length t.rows ≤ suc (length (insert_event calendar e t).1.rows))
    unfolding insert_event
    insert_event-others e t key apart h = (
      elim (superseded-others e key t.rows h) [
        | inl kept ↦ inl (
            find_row-upsert-other e key (unwrap_or (superseded calendar e t.rows) t.rows) apart
            ∙ kept)
        | inr gone ↦ inr gone
      ],
      omega (
        arith,
        length-superseded e t.rows,
        length-upsert e (unwrap_or (superseded calendar e t.rows) t.rows),
      ),
    )
