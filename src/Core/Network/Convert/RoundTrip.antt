-- ===== src/Core/Network/Convert/RoundTrip.antt =====
-- Converting a base URL to the other client and back.
use hsin_rs.Prelude.{
  ℕ, false, Option, none, some, [], ◌∷◌, ◌++◌, Text, codes, trim_end_matches, strip_suffix,
  strip_suffix-eq-some, strip_suffix-append, ends_with, ◌≡◌, refl, ap, sym, ◌∙◌, arith,
  Option-cases, inl, inr, ◌⊎◌,
}
use hsin_rs.Core.Enums.{codex, claude}
use hsin_rs.Core.Network.Convert.{convert_provider_base_url}

last : Text → Option ℕ
last [] = none
last (c ∷ []) = some c
last (c ∷ d ∷ s) = last (d ∷ s)

last-append : (s : Text) (c : ℕ) (t : Text) → last (s ++ c ∷ t) ≡ last (c ∷ t)
unfolding last
last-append [] c t = refl
last-append (d ∷ []) c t = refl
last-append (d ∷ e ∷ s) c t = last-append (e ∷ s) c t

not_slashed : (u : Text) → strip_suffix (codes "/v1/") (u ++ codes "/v1") ≡ none
unfolding last
not_slashed u = elim (Option-cases (strip_suffix (codes "/v1/") (u ++ codes "/v1"))) [
  | inl e ↦ e
  | inr e ↦
      let p = strip_suffix-eq-some (codes "/v1/") (u ++ codes "/v1") e.1 in
      absurd (clash (sym (last-append u _ _) ∙ ap last p ∙ last-append e.0 _ _))
]
  where
    clash : ◌≡◌ {A = Option ℕ} (some b'1') (some b'/') → ⊥
    clash h = ground arith

-- A base URL that ends in no slash and not in `/v1`: what Claude Code uses becomes what Codex uses
-- by appending `/v1`, and going back gives it again; and so does the round that starts at Codex.
pub convert_provider_base_url_roundtrip :
    (u : Text)
    → trim_end_matches b'/' u ≡ u
    → ends_with (codes "/v1") u ≡ false
    → let v = convert_provider_base_url u claude codex in
      (v ≡ u ++ codes "/v1")
      × (convert_provider_base_url v codex claude ≡ u)
      × (convert_provider_base_url (convert_provider_base_url v codex claude) claude codex ≡ v)
unfolding convert_provider_base_url
convert_provider_base_url_roundtrip u t e = (there, back, again)
  where
    there : convert_provider_base_url u claude codex ≡ u ++ codes "/v1"
    there = rw t (rw e)

    back : convert_provider_base_url (convert_provider_base_url u claude codex) codex claude ≡ u
    back = rw there (rw (not_slashed u) (rw (strip_suffix-append (codes "/v1") u)))

    again :
        convert_provider_base_url
          (convert_provider_base_url (convert_provider_base_url u claude codex) codex claude)
          claude
          codex
        ≡ convert_provider_base_url u claude codex
    again = rw back

-- Of any URL: what comes back of appending `/v1` is the URL.
back_of : (u : Text) → convert_provider_base_url (u ++ codes "/v1") codex claude ≡ u
unfolding convert_provider_base_url
back_of u = rw (not_slashed u) (rw (strip_suffix-append (codes "/v1") u))

-- Every base URL that Claude Code uses has a root, which is the URL without its trailing slashes and
-- then without its `/v1`, if it ends in one. Codex is given the root and `/v1`, and going back gives
-- the root: a URL that is its own root comes back as it was.
pub convert_provider_base_url-root :
    (u : Text)
    → (root : Text) × (convert_provider_base_url u claude codex ≡ root ++ codes "/v1")
      × (convert_provider_base_url (convert_provider_base_url u claude codex) codex claude ≡ root)
      × (((ends_with (codes "/v1") (trim_end_matches b'/' u) ≡ false)
            × (root ≡ trim_end_matches b'/' u))
          ⊎ (trim_end_matches b'/' u ≡ root ++ codes "/v1"))
unfolding convert_provider_base_url ends_with
convert_provider_base_url-root u =
    elim (Option-cases (strip_suffix (codes "/v1") (trim_end_matches b'/' u))) [
      | inl e ↦
          let trimmed = trim_end_matches b'/' u in
          let there : convert_provider_base_url u claude codex ≡ trimmed ++ codes "/v1" =
            rw e refl in
          (
            trimmed,
            there,
            ap (λ v. convert_provider_base_url v codex claude) there ∙ back_of trimmed,
            inl (rw e refl, refl),
          )
      | inr (root, e) ↦
          let split = strip_suffix-eq-some (codes "/v1") (trim_end_matches b'/' u) e in
          let there : convert_provider_base_url u claude codex ≡ root ++ codes "/v1" = rw e split in
          (
            root,
            there,
            ap (λ v. convert_provider_base_url v codex claude) there ∙ back_of root,
            inr split,
          )
    ]
