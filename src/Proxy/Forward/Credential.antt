-- ===== src/Proxy/Forward/Credential.antt =====
-- What leaves the proxy: only for an authorised request, and only with the upstream credential.
use hsin_rs.Prelude.{
  List, [], ◌∷◌, ◌++◌, ◌||◌, map, arith, Bool, true, false, not, ◌&&◌, none, some, Text, codes,
  refl, text_eq, any_of, if◌then◌else◌, not-eq-false, Bool-cases, inl, inr, Result, ok, err, ok_or,
  ok_or-eq-ok, >>=-eq-ok, refuse-then, ok-injective, ◌≡◌, sym, ◌∙◌, ap, ◌⊎◌,
}
use hsin_rs.Core.Enums.{ClientKind, AuthScheme}
use hsin_rs.Errors.{DaemonError}
use hsin_rs.Proxy.Headers.{
  Http, managed_key, hop_by_hop, authorized, remove_all, remove_hop_by_hop, get-remove_all,
  get-remove_all_absent, get-remove_hop_by_hop,
}
use hsin_rs.Proxy.Headers.Authorized.{Presents, authorized→IsAuthorized}
use hsin_rs.Proxy.Image.{ImageJson}
use hsin_rs.Proxy.Forward.{
  Answers, Snapshot, Request, Outgoing, replaced, credential_header, outgoing_headers,
  outgoing_body, answered, managed_key_enabled, is_image_request, forward, answered_image,
}

module _ (http : Http) (json : ImageJson) where
  open http use {H, Value, get, insert, from_str}

  abbrev stripped_names : List Text
  stripped_names = map codes (
      "connection" ∷ "keep-alive" ∷ "proxy-authenticate" ∷ "proxy-authorization" ∷ "te" ∷ "trailer"
      ∷ "transfer-encoding" ∷ "upgrade" ∷ "authorization" ∷ "x-api-key" ∷ "host" ∷ "content-length"
      ∷ "x-openai-actor-authorization" ∷ [])

  -- The names that no header may keep from the client.
  abbrev pub is_stripped : Text → Bool
  is_stripped n = any_of (text_eq n) stripped_names

  any_of-append :
      (p : Text → Bool) (xs ys : List Text) → any_of p (xs ++ ys) ≡ (any_of p xs || any_of p ys)
  any_of-append p [] ys = refl
  any_of-append p (x ∷ xs) ys = ground (arith, any_of-append p xs ys)

  get-stripped :
      (n : Text) (h : H)
      → is_stripped n ≡ true
      → get n (remove_all http replaced (remove_hop_by_hop http h)) ≡ none
  get-stripped n h named =
      let e = sym (any_of-append (text_eq n) hop_by_hop replaced) ∙ named in
      elim (Bool-cases (any_of (text_eq n) hop_by_hop)) [
        | inl hop ↦
            get-remove_all_absent http n replaced (remove_hop_by_hop http h)
              (get-remove_hop_by_hop http n h hop)
        | inr other ↦ get-remove_all http n replaced (remove_hop_by_hop http h) (rw other at e)
      ]

  -- Of the hop-by-hop headers, the credentials of the client, the host, the length and the actor
  -- authorization, the headers sent upstream carry the provider's credential under the name of its
  -- scheme, and nothing under any other.
  pub outgoing_headers-get :
      (scheme : AuthScheme) (credential : Text) (headers : H) {out : H}
      → outgoing_headers http json scheme credential headers ≡ ok out
      → (name text : Text) × (value : Value) × (credential_header http json scheme credential
          ≡ ok (name, text))
        × (from_str text ≡ some value)
        × (get name out ≡ some value)
        × ((n : Text) → is_stripped n ≡ true → text_eq n name ≡ false → get n out ≡ none)
  unfolding outgoing_headers
  outgoing_headers-get scheme credential headers h =
      let ((name, text), is, h₁) = >>=-eq-ok (credential_header http json scheme credential) _ h in
      let (value, got, h₂) = >>=-eq-ok (ok_or (from_str text) _) _ h₁ in
      let out = ok-injective h₂ in
      let rest = remove_all http replaced (remove_hop_by_hop http headers) in
      (
        name,
        text,
        value,
        is,
        ok_or-eq-ok (from_str text) _ got,
        ap (get name) (sym out) ∙ http.get-insert name value rest,
        λ n stripped other.
            ap (get n) (sym out)
            ∙ http.get-insert_other n name value rest other
            ∙ get-stripped n headers stripped,
      )

  answered-eq-ok :
      {A : Type 0} (m : Result DaemonError A) {a : A} → answered http json m ≡ ok a → m ≡ ok a
  answered-eq-ok (ok b) h = ap ok (ok-injective h)
  answered-eq-ok (err e) h = cc

  answered_image-eq-ok :
      (m : Result DaemonError Snapshot) {s : Snapshot}
      → answered_image http json m ≡ ok s
      → m ≡ ok s
  answered_image-eq-ok (ok b) h = ap ok (ok-injective h)
  answered_image-eq-ok (err e) h = ground arith

  snapshot-eq-ok :
      (b : Bool) (m n : Result DaemonError Snapshot) {s : Snapshot}
      → (if b then answered_image http json m else answered http json n) ≡ ok s
      → (if b then m else n) ≡ ok s
  snapshot-eq-ok true m n h = answered_image-eq-ok m h
  snapshot-eq-ok false m n h = answered-eq-ok n h

  managed_key_enabled-eq-true :
      (r : Result DaemonError Bool) → managed_key_enabled http json r ≡ true → r ≡ ok true
  managed_key_enabled-eq-true (ok b) h = ap ok h
  managed_key_enabled-eq-true (err e) h = cc

  -- A request leaves the proxy only under a permit, and only if its `authorization` is the bearer of
  -- the client's capability or its `x-api-key` is that capability, or else one of the two is the
  -- managed key, the setting that enables that key was read and is on, and the peer is local; its
  -- headers are then made from the credential of the provider in force.
  pub forward-authorized :
      (app : Answers) (kind : ClientKind) (prefix : Text) (r : Request http json)
      {o : Outgoing http json}
      → forward http json app kind prefix r ≡ ok o
      → (app.permit ≡ true)
        × (capability : Text) × (app.proxy_capability ≡ ok capability)
        × (Presents http r.headers capability
            ⊎ ((app.disable_custom_auth ≡ ok true)
                × (r.peer_is_loopback ≡ true)
                × Presents http r.headers managed_key))
        × (s : Snapshot) × ((if is_image_request http json kind r.path
              then app.image_upstream_snapshot
              else app.upstream_snapshot)
            ≡ ok s)
        × (outgoing_headers http json s.provider.auth_scheme s.credential r.headers ≡ ok o.headers)
  unfolding forward
  forward-authorized app kind prefix r h =
      let (permit, h₁) = refuse-then (not app.permit) _ _ h in
      let (capability, cap, h₂) = >>=-eq-ok (answered http json app.proxy_capability) _ h₁ in
      let (auth, h₃) =
        refuse-then
          (not (
            authorized http r.headers capability
              (managed_key_enabled http json app.disable_custom_auth) r.peer_is_loopback))
          _ _ h₂ in
      let image = is_image_request http json kind r.path in
      let (_, h₄) = refuse-then (image && not (text_eq r.method (codes "POST"))) _ _ h₃ in
      let (s, snap, h₅) =
        >>=-eq-ok
          (if image
            then answered_image http json app.image_upstream_snapshot
            else answered http json app.upstream_snapshot)
          _ h₄ in
      let (headers, made, h₆) =
        >>=-eq-ok (outgoing_headers http json s.provider.auth_scheme s.credential r.headers) _ h₅ in
      let (body, _, h₇) = >>=-eq-ok (outgoing_body http json image r s.provider) _ h₆ in
      (
        not-eq-false app.permit permit,
        capability,
        answered-eq-ok app.proxy_capability cap,
        elim (authorized→IsAuthorized http r.headers capability
            (managed_key_enabled http json app.disable_custom_auth) r.peer_is_loopback
            (not-eq-false _ auth)) [
              | inl own ↦ inl own
              | inr (on, local, managed) ↦
                  inr (managed_key_enabled-eq-true app.disable_custom_auth on, local, managed)
            ],
        s,
        snapshot-eq-ok image app.image_upstream_snapshot app.upstream_snapshot snap,
        made ∙ ap (λ o. ok o.headers) (ok-injective h₇),
      )
