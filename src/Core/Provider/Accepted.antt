-- ===== src/Core/Provider/Accepted.antt =====
-- What an accepted provider guarantees to the rest of the daemon.
use hsin_rs.Prelude.{
  ltb, ltb→ge, ◌≤◌, Bool, true, false, not, ◌&&◌, ◌||◌, Option, none, some, Text, trim, is_nil,
  length, is_some, is_none, ok, ok_or, refuse-then, ◌>>=◌, >>=-eq-ok, ◌≡◌, ◌≢◌, ◌⊎◌, inl, inr, refl,
  arith,
}
use hsin_rs.Core.Validation.{ValidationError}
use hsin_rs.Core.Enums.{ClientKind, codex, claude, ProviderScope, primary, image_only}
use hsin_rs.Core.Model.{
  ClaudeModelMapping, CodexImageConfig, normalized, image_is_inert, CodexTuningSettings,
  tuning_is_valid, is_default_tuning, default_tuning, is_default_tuning→eq,
}
use hsin_rs.Core.Model.Mapping.Valid.{mapping_validate→IsFit}
use hsin_rs.Core.Model.Image.Normal.{normalized-enabled}
use hsin_rs.Core.Network.{Url, NetParsers, provider_proxy_validate}
use hsin_rs.Core.Provider.{
  ProviderDraft, draft_validate, normalize_codex_config_name, check_model, check_mapping,
  check_image, check_url, is_http, is_codex, is_primary,
}

-- The base URL names an HTTP host and carries no credentials, query or fragment.
pub record IsPlain (url : Url) : Type 0 where
  pub http : is_http url.scheme ≡ true
  pub host : is_some url.host_str ≡ true
  pub username : is_nil url.username ≡ true
  pub password : is_none url.password ≡ true
  pub fragment : is_none url.fragment ≡ true
  pub query : is_none url.query ≡ true

pub record IsAccepted (net : NetParsers) (d : ProviderDraft) : Type 0 where
  pub named : is_nil (trim d.name) ≡ false
  pub name_short : length (trim d.name) ≤ 128
  pub description_short : length d.description ≤ 1024
  pub url : (u : Url) × (net.parse_url (trim d.base_url) ≡ some u) × IsPlain u
  pub mapping_needs_claude : d.claude_model_mapping ≢ none → d.client ≡ claude
  pub config_name_needs_codex : d.codex_config_name ≢ none → d.client ≡ codex
  pub tuning_needs_codex :
      (d.codex_tuning ≡ default_tuning) ⊎ ((d.client ≡ codex) × (d.scope ≡ primary))
  pub claude_is_primary : d.client ≡ claude → d.scope ≡ primary
  pub claude_has_no_images : d.client ≡ claude → d.codex_image.enabled ≡ false
  pub image_only_is_enabled : d.scope ≡ image_only → d.codex_image.enabled ≡ true

url-IsPlain : (url : Url) → check_url url ≡ ok tt → IsPlain url
url-IsPlain url h =
    let (a, h₁) = refuse-then (not (is_http url.scheme)) _ _ h in
    let (b, h₂) = refuse-then (not (is_some url.host_str)) _ _ h₁ in
    let (c, h₃) = refuse-then (not (is_nil url.username) || is_some url.password) _ _ h₂ in
    let (d, h₄) = refuse-then (is_some url.fragment) _ _ h₃ in
    record {
      http = ground arith;
      host = ground arith;
      username = ground arith;
      password = ground arith;
      fragment = ground arith;
      query = ground arith;
    }

config_name_client :
    (client : ClientKind) (name out : Option Text)
    → normalize_codex_config_name client name ≡ ok out
    → name ≢ none
    → client ≡ codex
unfolding normalize_codex_config_name
config_name_client codex name out h n = refl
config_name_client claude none out h n = absurd (n refl)
config_name_client claude (some x) out h n = cc

mapping_client :
    (client : ClientKind) (m : Option ClaudeModelMapping)
    → check_mapping m client ≡ ok tt
    → m ≢ none
    → client ≡ claude
mapping_client client none h n = absurd (n refl)
mapping_client client (some m) h n = (mapping_validate→IsFit m client h).client_is_claude

-- The rules that tie images and tuning to the client and the scope.
image_rules :
    (client : ClientKind) (scope : ProviderScope) (image : CodexImageConfig) (enabled : Bool)
    → image.enabled ≡ enabled
    → check_image client scope image enabled ≡ ok tt
    → (client ≡ claude → scope ≡ primary)
      × (client ≡ claude → enabled ≡ false)
      × (scope ≡ image_only → enabled ≡ true)
unfolding image_is_inert
image_rules codex primary image enabled e h = (λ c. cc, λ c. cc, λ c. cc)
image_rules codex image_only image enabled e h = (λ c. cc, λ c. cc, λ c. ground arith)
image_rules claude primary image enabled e h = (λ c. refl, λ c. ground arith, λ c. cc)
image_rules claude image_only image enabled e h = cc

tuning_rules :
    (client : ClientKind) (scope : ProviderScope) (t : CodexTuningSettings)
    → (not (is_codex client) || not (is_primary scope)) && not (is_default_tuning t) ≡ false
    → (t ≡ default_tuning) ⊎ ((client ≡ codex) × (scope ≡ primary))
tuning_rules codex primary t h = inr (refl, refl)
tuning_rules codex image_only t h = inl (is_default_tuning→eq t (ground arith))
tuning_rules claude scope t h = inl (is_default_tuning→eq t (ground arith))

url_found :
    (u : Option Url) (e : ValidationError)
    → (ok_or u e >>= check_url) ≡ ok tt
    → (v : Url) × (u ≡ some v) × IsPlain v
url_found none e h = cc
url_found (some v) e h = (v, refl, url-IsPlain v h)

-- An accepted draft has a name and a description of bounded length, and a plain HTTP base URL.
-- Only Claude Code providers map Claude models, only Codex providers carry a configuration name,
-- and only primary Codex providers are tuned. A Claude Code provider is primary and has images off;
-- an image-only provider has them on.
pub draft_validate→IsAccepted :
    (net : NetParsers) (d : ProviderDraft) → draft_validate net d ≡ ok tt → IsAccepted net d
unfolding draft_validate
draft_validate→IsAccepted net d h =
    let (named, h₁) = refuse-then (is_nil (trim d.name)) _ _ h in
    let (short, h₂) = refuse-then (ltb 128 (length (trim d.name))) _ _ h₁ in
    let (terse, h₃) = refuse-then (ltb 1024 (length d.description)) _ _ h₂ in
    let (_, _, h₄) = >>=-eq-ok (check_model d.model) _ h₃ in
    let (out, name, h₅) =
      >>=-eq-ok (normalize_codex_config_name d.client d.codex_config_name) _ h₄ in
    let (_, mapping, h₆) = >>=-eq-ok (check_mapping d.claude_model_mapping d.client) _ h₅ in
    let (image, normal, h₇) = >>=-eq-ok (normalized d.codex_image) _ h₆ in
    let (_, h₈) = refuse-then (not (tuning_is_valid d.codex_tuning)) _ _ h₇ in
    let (tuned, h₉) =
      refuse-then
        ((not (is_codex d.client) || not (is_primary d.scope))
          && not (is_default_tuning d.codex_tuning))
        _ _ h₈ in
    let (_, _, h₁₀) = >>=-eq-ok (provider_proxy_validate net d.network_proxy) _ h₉ in
    let (_, images, h₁₁) =
      >>=-eq-ok (check_image d.client d.scope image d.codex_image.enabled) _ h₁₀ in
    let (primary_only, no_images, images_on) =
      image_rules d.client d.scope image d.codex_image.enabled
        (normalized-enabled d.codex_image normal) images in
    record {
      named = named;
      name_short = ltb→ge 128 (length (trim d.name)) short;
      description_short = ltb→ge 1024 (length d.description) terse;
      url = url_found (net.parse_url (trim d.base_url)) _ h₁₁;
      mapping_needs_claude = mapping_client d.client d.claude_model_mapping mapping;
      config_name_needs_codex = config_name_client d.client d.codex_config_name out name;
      tuning_needs_codex = tuning_rules d.client d.scope d.codex_tuning tuned;
      claude_is_primary = primary_only;
      claude_has_no_images = no_images;
      image_only_is_enabled = images_on;
    }
