-- ===== src/Core/Provider.antt =====
-- `Provider`, `ProviderDraft` and `normalize_codex_config_name` of crates/hsin-core/src/lib.rs.
pub mod Accepted
use hsin_rs.Prelude.{
  ℕ, ltb, Bool, true, false, not, ◌&&◌, ◌||◌, Option, none, some, Text, codes, text_eq, trim,
  is_nil, length, is_some, if◌then◌else◌, unwrap_or, Result, ok, err, ok_or, ◌>>=◌, ◌>>◌, refuse,
}
use hsin_rs.Core.Validation.{Checked, invalid}
use hsin_rs.Core.Enums.{ClientKind, codex, claude, AuthScheme, ProviderScope, primary, image_only}
use hsin_rs.Core.Model.{
  ClaudeModelMapping, mapping_validate, CodexImageConfig, normalized, image_is_inert,
  CodexTuningSettings, tuning_is_valid, is_default_tuning,
}
use hsin_rs.Core.Network.{Url, NetParsers, ProviderProxyConfig, provider_proxy_validate}

pub record ProviderDraft : Type 0 where
  pub client : ClientKind
  pub name : Text
  pub description : Text
  pub base_url : Text
  pub auth_scheme : AuthScheme
  pub model : Option Text
  pub codex_config_name : Option Text
  pub claude_model_mapping : Option ClaudeModelMapping
  pub scope : ProviderScope
  pub codex_image : CodexImageConfig
  pub codex_tuning : CodexTuningSettings
  pub network_proxy : ProviderProxyConfig

pub record OfficialAccountSummary : Type 0 where
  pub email : Option Text
  pub native_name : Option Text
  pub saved : Bool

pub record Provider : Type 0 where
  pub id : Text
  pub client : ClientKind
  pub name : Text
  pub description : Text
  pub base_url : Text
  pub auth_scheme : AuthScheme
  pub official : Bool
  pub official_account : Option OfficialAccountSummary
  pub credential_configured : Bool
  pub credential_preview : Option Text
  pub model : Option Text
  pub codex_config_name : Option Text
  pub claude_model_mapping : Option ClaudeModelMapping
  pub scope : ProviderScope
  pub codex_image : CodexImageConfig
  pub codex_tuning : CodexTuningSettings
  pub network_proxy : ProviderProxyConfig
  pub revision : ℕ  -- u64

abbrev pub default_codex_config_name : Text
default_codex_config_name = codes "OpenAI"

unfoldable pub normalize_codex_config_name : ClientKind → Option Text → Checked (Option Text)
normalize_codex_config_name claude name =
    if is_some name then err (invalid "codex_config_name" "unsupported_client") else ok none
normalize_codex_config_name codex name = do
  let trimmed = trim (unwrap_or name default_codex_config_name)
  refuse (is_nil trimmed) (invalid "codex_config_name" "empty")
  refuse (ltb 128 (length trimmed)) (invalid "codex_config_name" "too_long")
  ok (some trimmed)

abbrev pub check_model : Option Text → Checked (Unit {0})
check_model none = ok tt
check_model (some model) = do
  refuse (is_nil (trim model)) (invalid "model" "empty")
  refuse (ltb 256 (length model)) (invalid "model" "too_long")

abbrev pub check_mapping : Option ClaudeModelMapping → ClientKind → Checked (Unit {0})
check_mapping none client = ok tt
check_mapping (some mapping) client = mapping_validate mapping client

abbrev pub is_codex : ClientKind → Bool
is_codex codex = true
is_codex claude = false

abbrev pub is_primary : ProviderScope → Bool
is_primary primary = true
is_primary image_only = false

-- The `match` on the client after the proxy; `image` is the normalized configuration.
abbrev pub check_image : ClientKind → ProviderScope → CodexImageConfig → Bool → Checked (Unit {0})
check_image claude scope image enabled =
    refuse (not (is_primary scope) || not (image_is_inert image))
      (invalid "codex_image" "unsupported_client")
check_image codex scope image enabled =
    refuse (not (is_primary scope) && not enabled) (invalid "codex_image" "image_only_disabled")

abbrev pub is_http : Text → Bool
is_http scheme = text_eq scheme (codes "http") || text_eq scheme (codes "https")

abbrev pub check_url : Url → Checked (Unit {0})
check_url url = do
  refuse (not (is_http url.scheme)) (invalid "base_url" "unsupported_scheme")
  refuse (not (is_some url.host_str)) (invalid "base_url" "missing_host")
  refuse (not (is_nil url.username) || is_some url.password)
      (invalid "base_url" "embedded_credentials")
  refuse (is_some url.fragment) (invalid "base_url" "fragment_not_allowed")
  refuse (is_some url.query) (invalid "base_url" "query_not_allowed")

unfoldable pub draft_validate : NetParsers → ProviderDraft → Checked (Unit {0})
draft_validate net d = do
  let name = trim d.name
  refuse (is_nil name) (invalid "name" "empty")
  refuse (ltb 128 (length name)) (invalid "name" "too_long")
  refuse (ltb 1024 (length d.description)) (invalid "description" "too_long")
  check_model d.model
  config_name ← normalize_codex_config_name d.client d.codex_config_name
  check_mapping d.claude_model_mapping d.client
  image ← normalized d.codex_image
  refuse (not (tuning_is_valid d.codex_tuning)) (invalid "codex_tuning" "invalid_token_limit")
  refuse
      ((not (is_codex d.client) || not (is_primary d.scope))
        && not (is_default_tuning d.codex_tuning))
      (invalid "codex_tuning" "unsupported_client")
  provider_proxy_validate net d.network_proxy
  check_image d.client d.scope image d.codex_image.enabled
  url ← ok_or (net.parse_url (trim d.base_url)) (invalid "base_url" "invalid_url")
  check_url url

abbrev pub draft_of : Provider → ProviderDraft
draft_of p = record {
  client = p.client;
  name = p.name;
  description = p.description;
  base_url = p.base_url;
  auth_scheme = p.auth_scheme;
  model = p.model;
  codex_config_name = p.codex_config_name;
  claude_model_mapping = p.claude_model_mapping;
  scope = p.scope;
  codex_image = p.codex_image;
  codex_tuning = p.codex_tuning;
  network_proxy = p.network_proxy;
}

unfoldable pub provider_validate : NetParsers → Provider → Checked (Unit {0})
unfolding draft_validate
provider_validate net p = do
  refuse (is_nil (trim p.id)) (invalid "id" "empty")
  draft_validate net (draft_of p)
