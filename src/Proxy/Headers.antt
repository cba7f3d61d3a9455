-- ===== src/Proxy/Headers.antt =====
-- `authorized`, `upstream_url` and `remove_hop_by_hop` of crates/hsind/src/proxy.rs. The header map
-- of the `http` crate is the parameter `Http`, with what its documentation says of it.
pub mod Authorized
use hsin_rs.Prelude.{
  ℕ, ◌==◌, Bool, true, false, ◌&&◌, ◌||◌, Option, none, some, is_some_and, or_else, and_then, List,
  [], ◌∷◌, ◌++◌, Text, codes, text_eq, text_eq→eq, strip_prefix, trim, trim_end_matches, any_of,
  if◌then◌else◌, Bool-cases, inl, inr, ◌≡◌, ◌∙◌,
}

-- A name is in lower case, as `HeaderName` keeps it.
pub record Http : Type 1 where
  pub H : Type 0
  pub Value : Type 0
  pub get : Text → H → Option Value
  pub get_all : Text → H → List Value
  pub remove : Text → H → H
  pub insert : Text → Value → H → H
  pub to_str : Value → Option Text
  pub from_str : Text → Option Value
  pub header_name : Text → Option Text
  pub parse_usize : Text → Option ℕ
  pub get-remove : (n : Text) (h : H) → get n (remove n h) ≡ none
  pub get-remove_other : (n m : Text) (h : H) → text_eq n m ≡ false → get n (remove m h) ≡ get n h
  pub get-insert : (n : Text) (v : Value) (h : H) → get n (insert n v h) ≡ some v
  pub get-insert_other :
      (n m : Text) (v : Value) (h : H) → text_eq n m ≡ false → get n (insert m v h) ≡ get n h

abbrev pub managed_key : Text
managed_key = codes "HSIN_MANAGED_KEY"

abbrev pub authorization : Text
authorization = codes "authorization"

abbrev pub api_key_name : Text
api_key_name = codes "x-api-key"

abbrev pub hop_by_hop : List Text
hop_by_hop =
    codes "connection"
    ∷ codes "keep-alive"
    ∷ codes "proxy-authenticate"
    ∷ codes "proxy-authorization"
    ∷ codes "te"
    ∷ codes "trailer"
    ∷ codes "transfer-encoding"
    ∷ codes "upgrade"
    ∷ []

abbrev cons_first : ℕ → List Text → List Text
cons_first c [] = (c ∷ []) ∷ []
cons_first c (s ∷ ss) = (c ∷ s) ∷ ss

-- `str::split` at a character
unfoldable pub split : ℕ → Text → List Text
split sep [] = [] ∷ []
split sep (c ∷ s) = let rest = split sep s in if c == sep then [] ∷ rest else cons_first c rest

abbrev query_suffix : Option Text → Text
query_suffix none = []
query_suffix (some query) = b'?' ∷ query

abbrev stripped_path : Text → Text → Text
stripped_path prefix path = elim (strip_prefix prefix path) [ none ↦ path | some suffix ↦ suffix ]

unfoldable pub upstream_url : Text → Text → Text → Option Text → Text
unfolding trim_end_matches
upstream_url base_url prefix path query =
    trim_end_matches b'/' base_url ++ (stripped_path prefix path ++ query_suffix query)

module _ (http : Http) where
  open http use {H, Value, get, get_all, remove, to_str, header_name}

  unfoldable pub authorized : H → Text → Bool → Bool → Bool
  unfolding strip_prefix text_eq
  authorized headers expected managed_key_enabled peer_is_loopback =
      let bearer =
        and_then (and_then (get authorization headers) to_str) (strip_prefix (codes "Bearer ")) in
      let api_key = and_then (get api_key_name headers) to_str in
      is_some_and bearer (λ actual. text_eq actual expected)
      || is_some_and api_key (λ actual. text_eq actual expected)
      || (managed_key_enabled
          && peer_is_loopback
          && is_some_and (or_else bearer api_key) (λ actual. text_eq actual managed_key))

  -- The names that the `Connection` headers list.
  abbrev names_of : List Text → List Text
  names_of [] = []
  names_of (s ∷ ss) =
      let rest = names_of ss in elim (header_name (trim s)) [ none ↦ rest | some n ↦ n ∷ rest ]

  abbrev listed : List Value → List Text
  listed [] = []
  listed (v ∷ vs) =
      let rest = listed vs in
      elim (to_str v) [ none ↦ rest | some s ↦ names_of (split b',' s) ++ rest ]

  abbrev pub remove_all : List Text → H → H
  remove_all [] h = h
  remove_all (n ∷ ns) h = remove_all ns (remove n h)

  unfoldable pub remove_hop_by_hop : H → H
  unfolding split
  remove_hop_by_hop h =
      remove_all hop_by_hop (remove_all (listed (get_all (codes "connection") h)) h)

  -- What is absent stays absent, and what is removed is absent.
  get-remove_absent : (n m : Text) (h : H) → get n h ≡ none → get n (remove m h) ≡ none
  get-remove_absent n m h e = elim (Bool-cases (text_eq n m)) [
    | inl same ↦ rw (text_eq→eq n m same) (http.get-remove m h)
    | inr other ↦ http.get-remove_other n m h other ∙ e
  ]

  pub get-remove_all_absent :
      (n : Text) (ns : List Text) (h : H) → get n h ≡ none → get n (remove_all ns h) ≡ none
  get-remove_all_absent n [] h e = e
  get-remove_all_absent n (m ∷ ns) h e =
      get-remove_all_absent n ns (remove m h) (get-remove_absent n m h e)

  pub get-remove_all :
      (n : Text) (ns : List Text) (h : H)
      → any_of (text_eq n) ns ≡ true
      → get n (remove_all ns h) ≡ none
  get-remove_all n [] h e = cc
  get-remove_all n (m ∷ ns) h e = elim (Bool-cases (text_eq n m)) [
    | inl same ↦
        get-remove_all_absent n ns (remove m h) (rw (text_eq→eq n m same) (http.get-remove m h))
    | inr other ↦ get-remove_all n ns (remove m h) (rw other at e)
  ]

  pub get-remove_hop_by_hop :
      (n : Text) (h : H) → any_of (text_eq n) hop_by_hop ≡ true → get n (remove_hop_by_hop h) ≡ none
  unfolding remove_hop_by_hop
  get-remove_hop_by_hop n h e = get-remove_all n hop_by_hop _ e
