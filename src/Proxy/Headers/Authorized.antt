-- ===== src/Proxy/Headers/Authorized.antt =====
-- What `authorized` of crates/hsind/src/proxy.rs lets through.
use hsin_rs.Prelude.{
  ◌++◌, arith, Bool, true, ◌&&◌, none, some, Text, codes, refl, text_eq, Bool-cases, inl, inr, ◌≡◌,
  ◌∙◌, ap, Option, or_else, and_then, is_some_and, and_then-eq-some, strip_prefix,
  strip_prefix-eq-some, text_eq→eq, ◌⊎◌,
}
use hsin_rs.Proxy.Headers.{Http, authorization, api_key_name, managed_key, authorized}

is_some_and-eq-true :
    (o : Option Text) (p : Text → Bool)
    → is_some_and o p ≡ true
    → (a : Text) × (o ≡ some a) × (p a ≡ true)
is_some_and-eq-true none p h = cc
is_some_and-eq-true (some a) p h = (a, refl, h)

or_else-eq-some :
    (o k : Option Text) {a : Text} → or_else o k ≡ some a → (o ≡ some a) ⊎ (k ≡ some a)
or_else-eq-some none k h = inr h
or_else-eq-some (some b) k h = inl h

three : (a b c : Bool) → (a && b && c) ≡ true → (a ≡ true) × (b ≡ true) × (c ≡ true)
three a b c h = (ground arith, ground arith, ground arith)

module _ (http : Http) where
  open http use {H, Value, get}

  -- A header of the request carries `key`: the bearer of `authorization`, or `x-api-key` itself.
  abbrev pub Presents : H → Text → Type 0
  Presents headers key =
      ((value : Value) × (get authorization headers ≡ some value)
        × (http.to_str value ≡ some (codes "Bearer " ++ key)))
      ⊎ ((value : Value) × (get api_key_name headers ≡ some value) × (http.to_str value ≡ some key))

  Presents-bearer :
      (headers : H) (key : Text) {actual : Text}
      → and_then (and_then (get authorization headers) http.to_str) (strip_prefix (codes "Bearer "))
        ≡ some actual
      → text_eq actual key ≡ true
      → Presents headers key
  Presents-bearer headers key {actual} h same =
      let (whole, read, rest) = and_then-eq-some _ _ h in
      let (value, got, text) = and_then-eq-some (get authorization headers) _ read in
      let split = strip_prefix-eq-some (codes "Bearer ") whole rest in
      inl (
        value,
        got,
        text ∙ ap some (split ∙ ap (λ k. codes "Bearer " ++ k) (text_eq→eq actual key same)),
      )

  Presents-api_key :
      (headers : H) (key : Text) {actual : Text}
      → and_then (get api_key_name headers) http.to_str ≡ some actual
      → text_eq actual key ≡ true
      → Presents headers key
  Presents-api_key headers key {actual} h same =
      let (value, got, text) = and_then-eq-some (get api_key_name headers) _ h in
      inr (value, got, text ∙ ap some (text_eq→eq actual key same))

  -- What authorises a request: the capability, or the managed key from a local peer where it is on.
  abbrev pub IsAuthorized : H → Text → Bool → Bool → Type 0
  IsAuthorized headers capability managed local =
      Presents headers capability
      ⊎ ((managed ≡ true) × (local ≡ true) × Presents headers managed_key)

  pub authorized→IsAuthorized :
      (headers : H) (capability : Text) (managed local : Bool)
      → authorized http headers capability managed local ≡ true
      → IsAuthorized headers capability managed local
  unfolding authorized
  authorized→IsAuthorized headers capability managed local h =
      let bearer =
        and_then (and_then (get authorization headers) http.to_str)
          (strip_prefix (codes "Bearer ")) in
      let api_key = and_then (get api_key_name headers) http.to_str in
      elim (Bool-cases (is_some_and bearer (λ actual. text_eq actual capability))) [
        | inl b ↦
            let (_, is, same) = is_some_and-eq-true bearer _ b in
            inl (Presents-bearer headers capability is same)
        | inr no_bearer ↦
            elim (Bool-cases (is_some_and api_key (λ actual. text_eq actual capability))) [
              | inl k ↦
                  let (_, is, same) = is_some_and-eq-true api_key _ k in
                  inl (Presents-api_key headers capability is same)
              | inr no_key ↦
                  let (on, local, found) = three managed local _ (rw (no_bearer, no_key) at h) in
                  let (_, is, same) = is_some_and-eq-true (or_else bearer api_key) _ found in
                  elim (or_else-eq-some bearer api_key is) [
                    | inl b ↦ inr (on, local, Presents-bearer headers managed_key b same)
                    | inr k ↦ inr (on, local, Presents-api_key headers managed_key k same)
                  ]
            ]
      ]
