-- ===== src/Usage/Table/Rename.antt =====
-- Rows of `usage_events` that take another key (`relabel_unknown_event` of crates/hsind/src/usage.rs).
use hsin_rs.Prelude.{
  Bool, Bool-cases, false, not, Option-cases, none, List, [], ◌∷◌, keep, Text, text_eq, text_eq→eq,
  text_eq_comm, if_ind, inl, inr, ◌≡◌, refl, ap, ◌∙◌,
}
use hsin_rs.Usage.Event.{UsageEvent}
use hsin_rs.Usage.Table.{find_row, rename, relabel_row}
use hsin_rs.Usage.Table.Keys.{Unique, find_row-none}

-- What a rename makes of a list where the new key is free, or is the old one.
module _ {Time : Type 0} (from to : Text) (e : UsageEvent Time) where
  rename-absent :
      (rows : List (UsageEvent Time)) → find_row from rows ≡ none → rename from e to rows ≡ rows
  unfolding rename
  rename-absent [] h = refl
  rename-absent (r ∷ rs) h =
      let (apart, rest) = find_row-none from r rs h in
      rw apart (ap (λ t. r ∷ t) (rename-absent rs rest))

  find_row-rename :
      (key : Text) (rows : List (UsageEvent Time))
      → text_eq key to ≡ false
      → find_row key rows ≡ none
      → find_row key (rename from e to rows) ≡ none
  unfolding rename
  find_row-rename key [] apart h = refl
  find_row-rename key (r ∷ rs) apart h =
      let (other, rest) = find_row-none key r rs h in
      elim (Bool-cases (text_eq from r.dedup_key)) [
        | inl k ↦ rw (k, apart) (find_row-rename key rs apart rest)
        | inr k ↦ rw (k, other) (find_row-rename key rs apart rest)
      ]

  rename-Unique :
      (rows : List (UsageEvent Time))
      → find_row to rows ≡ none
      → Unique rows
      → Unique (rename from e to rows)
  unfolding rename
  rename-Unique [] free u = tt
  rename-Unique (r ∷ rs) free u =
      let (apart, rest) = find_row-none to r rs free in
      elim (Bool-cases (text_eq from r.dedup_key)) [
        | inl k ↦
            let same : from ≡ r.dedup_key = text_eq→eq from r.dedup_key k in
            let still = rename-absent rs (ap (λ t. find_row t rs) same ∙ u.0) in
            rw k (rw still (rest, u.1))
        | inr k ↦ rw k (
          find_row-rename r.dedup_key rs (text_eq_comm r.dedup_key to ∙ apart) u.0,
          rename-Unique rs rest u.1,
        )
      ]

  keep-absent :
      (key : Text) (p : UsageEvent Time → Bool) (rows : List (UsageEvent Time))
      → find_row key rows ≡ none
      → find_row key (keep p rows) ≡ none
  keep-absent key p [] h = refl
  keep-absent key p (r ∷ rs) h =
      let (apart, rest) = find_row-none key r rs h in
      if_ind (λ (rows : List (UsageEvent Time)). find_row key rows ≡ none) (p r)
        (λ stays. rw apart (keep-absent key p rs rest)) (λ gone. keep-absent key p rs rest)

  keep-Unique :
      (p : UsageEvent Time → Bool) (rows : List (UsageEvent Time))
      → Unique rows
      → Unique (keep p rows)
  keep-Unique p [] u = tt
  keep-Unique p (r ∷ rs) u =
      if_ind Unique (p r) (λ stays. (keep-absent r.dedup_key p rs u.0, keep-Unique p rs u.1))
        (λ gone. keep-Unique p rs u.1)

  find_row-keep :
      (rows : List (UsageEvent Time))
      → find_row from (keep (λ r. not (text_eq from r.dedup_key)) rows) ≡ none
  find_row-keep [] = refl
  find_row-keep (r ∷ rs) = elim (Bool-cases (text_eq from r.dedup_key)) [
    | inl k ↦ rw k (find_row-keep rs)
    | inr k ↦ rw (k, k) (find_row-keep rs)
  ]

  find_row-renamed :
      text_eq from to ≡ false
      → (rows : List (UsageEvent Time)) → find_row from (rename from e to rows) ≡ none
  unfolding rename
  find_row-renamed apart [] = refl
  find_row-renamed apart (r ∷ rs) = elim (Bool-cases (text_eq from r.dedup_key)) [
    | inl k ↦ rw (k, apart) (find_row-renamed apart rs)
    | inr k ↦ rw (k, k) (find_row-renamed apart rs)
  ]

  -- Taking the rows of the model `unknown` to their model leaves no row under the old key, and keys unique.
  pub relabel_row-Unique :
      (rows : List (UsageEvent Time))
      → text_eq from to ≡ false
      → Unique rows
      → (find_row from (relabel_row from to e rows) ≡ none) × Unique (relabel_row from to e rows)
  unfolding relabel_row
  relabel_row-Unique rows apart u = elim (Option-cases (find_row to rows)) [
    | inl free ↦ rw free (find_row-renamed apart rows, rename-Unique rows free u)
    | inr (r, taken) ↦
        rw (taken, text_eq_comm to from, apart) (find_row-keep rows, keep-Unique _ rows u)
  ]
