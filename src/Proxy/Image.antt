-- ===== src/Proxy/Image.antt =====
-- `rewrite_image_body` of crates/hsind/src/proxy.rs: the model that an image request is sent with.
use hsin_rs.Prelude.{
  ℕ, ltb, true, not, Option, none, some, is_some_and, or_else, and_then, keep_if, List, Text, codes,
  length, if_ind, Result, ok, ok_or, ◌>>=◌, >>=-eq-ok, refuse-then, ok_or-eq-ok, refuse, ◌>>◌, ◌≡◌,
  sym, ◌∙◌, ap,
}
use hsin_rs.Core.Model.{CodexImageConfig, has_model}
use hsin_rs.Core.Model.Image.Normal.{IsNormal, PreferredIn}
use hsin_rs.Ipc.Protocol.{Bytes}

-- A response that the proxy makes itself: its status and its text.
pub record Reply : Type 0 where
  pub status : ℕ
  pub text : Text

abbrev pub text_response : ℕ → Text → Reply
text_response status text = record { status = status; text = text }

abbrev pub max_image_request_bytes : ℕ
max_image_request_bytes = 268_435_456

-- What `serde_json` does for an image request: objects and their member `model`.
pub record ImageJson : Type 1 where
  pub Value : Type 0
  pub Object : Type 0
  pub from_slice : Bytes → Option Value
  pub as_object : Value → Option Object
  pub model_of : Object → Option Text
  pub set_model : Text → Object → Object
  pub to_vec : Object → Option Bytes
  pub model_of-set_model : (m : Text) (o : Object) → model_of (set_model m o) ≡ some m
  pub from_slice-to_vec :
      (o : Object) (b : Bytes) → to_vec o ≡ some b → and_then (from_slice b) as_object ≡ some o

abbrev pub select_model : CodexImageConfig → Option Text → Option Text
select_model c requested =
    or_else (keep_if (λ model. has_model model c.models) requested) c.preferred_model

module _ (json : ImageJson) where
  open json use {Object, from_slice, as_object, model_of, set_model, to_vec}

  -- `body` is what the client sends, unless reading it fails.
  unfoldable pub rewrite_image_body :
      Option Bytes → Option ℕ → CodexImageConfig → Result Reply Bytes
  unfolding has_model
  rewrite_image_body body declared c = do
    refuse (is_some_and declared (λ n. ltb max_image_request_bytes n))
        (text_response 413 (codes "image request body exceeds 256 MiB"))
    bytes ←
        ok_or (keep_if (λ b. not (ltb max_image_request_bytes (length b))) body)
          (text_response 413 (codes "image request body exceeds 256 MiB"))
    value ← ok_or (from_slice bytes) (text_response 400 (codes "invalid image request JSON"))
    object ←
        ok_or (as_object value) (text_response 400 (codes "image request must be a JSON object"))
    selected ←
        ok_or (select_model c (model_of object))
          (text_response 503 (codes "active Codex image provider has no preferred model"))
    ok_or (to_vec (set_model selected object))
        (text_response 500 (codes "failed to encode image request"))

  preferred-has_model :
      (models : List Text) (p : Option Text) {m : Text}
      → PreferredIn models p
      → p ≡ some m
      → has_model m models ≡ true
  preferred-has_model models none normal h = cc
  preferred-has_model models (some p) {m} normal h =
      ap (λ o. is_some_and o (λ x. has_model x models)) (sym h) ∙ normal.0

  select_model-has_model :
      (models : List Text) (requested p : Option Text) {m : Text}
      → PreferredIn models p
      → or_else (keep_if (λ model. has_model model models) requested) p ≡ some m
      → has_model m models ≡ true
  select_model-has_model models none p normal h = preferred-has_model models p normal h
  select_model-has_model models (some r) p {m} normal h =
      if_ind (λ o. or_else o p ≡ some m → has_model m models ≡ true) (has_model r models)
        (λ allowed k. ap (λ o. is_some_and o (λ x. has_model x models)) (sym k) ∙ allowed)
        (λ _ k. preferred-has_model models p normal k) h

  -- An image request that is rewritten, for a provider whose image settings are normal, reads back
  -- as a request for one of the provider's own models.
  pub rewrite_image_body-has_model :
      (body : Option Bytes) (declared : Option ℕ) (c : CodexImageConfig) {out : Bytes}
      → IsNormal c
      → rewrite_image_body body declared c ≡ ok out
      → (m : Text) × (and_then (and_then (from_slice out) as_object) model_of ≡ some m)
        × (has_model m c.models ≡ true)
  unfolding rewrite_image_body
  rewrite_image_body-has_model body declared c normal h =
      let (_, h₁) = refuse-then (is_some_and declared (λ n. ltb max_image_request_bytes n)) _ _ h in
      let (bytes, _, h₂) =
        >>=-eq-ok (ok_or (keep_if (λ b. not (ltb max_image_request_bytes (length b))) body) _) _
          h₁ in
      let (value, _, h₃) = >>=-eq-ok (ok_or (from_slice bytes) _) _ h₂ in
      let (object, _, h₄) = >>=-eq-ok (ok_or (as_object value) _) _ h₃ in
      let (m, chosen, h₅) = >>=-eq-ok (ok_or (select_model c (model_of object)) _) _ h₄ in
      (
        m,
        ap (λ o. and_then o model_of)
              (json.from_slice-to_vec (set_model m object) _
                (ok_or-eq-ok (to_vec (set_model m object)) _ h₅))
            ∙ json.model_of-set_model m object,
        select_model-has_model c.models (model_of object) c.preferred_model normal.preferred
            (ok_or-eq-ok (select_model c (model_of object)) _ chosen),
      )
