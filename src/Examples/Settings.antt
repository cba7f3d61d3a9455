-- ===== src/Examples/Settings.antt =====
-- Settings, providers, prices and totals of crates/hsin-core/src/lib.rs.
use mathlib.Core.List.{Perm, Memᴰ}
use hsin_rs.Prelude.{
  ℕ, pos, ◌≤◌, ◌<◌, true, false, none, some, [], ◌∷◌, String, Text, ◌++◌, ◌⊎◌, false, codes, trim,
  trim_end_matches, ends_with, contains_char, is_whitespace, eq_ignore_ascii_case, length, lower,
  ok, ◌≡◌, ◌↔◌, refl, arith,
}
use hsin_rs.Core.Enums.{
  codex, claude, AuthScheme, x_api_key, primary, ProviderProxyMode, auth_scheme_text, from_str,
}
use hsin_rs.Core.Enums.Parse.{from_str-as_str}
use hsin_rs.Core.Clients.{
  default_client_settings, is_valid, valid_context_presets, visible_in_order,
}
use hsin_rs.Core.Clients.Order.{visible_in_order-perm}
use hsin_rs.Core.Model.{
  ClaudeModelMapping, mapping_validate, fable_env, opus_env, sonnet_env, haiku_env, env_value,
  is_inert, tuning_is_valid, is_default_tuning, image_is_inert, CodexImageConfig, normalized,
  default_tuning,
}
use hsin_rs.Core.Model.Image.Normal.{IsNormal, normalized-IsNormal, normalized_idem}
use hsin_rs.Config.{MappingTarget}
use hsin_rs.Config.ModelEnv.{Gives, mapped-tiers}
use hsin_rs.Core.Model.Mapping.Inert.{is_inert_iff}
use hsin_rs.Core.Network.{
  NetParsers, default_manual_proxy, provider_proxy_validate, convert_provider_base_url,
}
use hsin_rs.Core.Network.Convert.RoundTrip.{convert_provider_base_url-root}
use hsin_rs.Core.Provider.{ProviderDraft, draft_validate, normalize_codex_config_name}
use hsin_rs.Core.Provider.Accepted.{IsAccepted, draft_validate→IsAccepted}
use hsin_rs.Core.Usage.{UsageTokenSummary, total_tokens, non_hit_tokens}
use hsin_rs.Core.Usage.Totals.{total_tokens-eq-min}
use hsin_rs.Core.Pricing.{
  ModelPrice, Rank, builtin, user, specificity, best_model_price, normalize_model_name, date_suffix,
}
use hsin_rs.Core.Pricing.Name.Spelling.{normalize_model_name-spelled}
use hsin_rs.Core.Pricing.Name.Dates.{IsDate}
use hsin_rs.Core.Pricing.Rule.Best.{Preferred, best_model_price-Preferred}

from_str-as_str_example : from_str {A = AuthScheme} (codes "  X_API_key ") ≡ ok x_api_key
unfolding eq_ignore_ascii_case is_whitespace
from_str-as_str_example =
    from_str-as_str x_api_key (codes "  ") (codes "X_API_key") (codes " ") (refl, (refl, tt))
      (refl, tt) refl

visible_in_order-perm_example :
    Perm (visible_in_order default_client_settings) (codex ∷ claude ∷ [])
    × (0 < length (visible_in_order default_client_settings))
unfolding is_valid valid_context_presets
visible_in_order-perm_example = visible_in_order-perm default_client_settings refl

abbrev padded : CodexImageConfig
padded = record {
  enabled = true;
  models = codes " a " ∷ codes "a" ∷ codes "b" ∷ [];
  preferred_model = some (codes "b ");
}

abbrev tidy : CodexImageConfig
tidy = record {
  enabled = true;
  models = codes "a" ∷ codes "b" ∷ [];
  preferred_model = some (codes "b");
}

normalized-IsNormal_example : IsNormal tidy
unfolding normalized trim
normalized-IsNormal_example = normalized-IsNormal padded {c' = tidy} refl

normalized_idem_example : normalized tidy ≡ ok tidy
unfolding normalized trim
normalized_idem_example = normalized_idem padded {c' = tidy} refl

abbrev mapping : ClaudeModelMapping
mapping = record {
  enabled = true;
  default_model = none;
  default_context_1m = false;
  fable = none;
  opus = some (record { model = codes "glm-4.6"; context_1m = true });
  sonnet = none;
  haiku = none;
}

abbrev mapped_target : MappingTarget
mapped_target = record {
  official = false;
  claude_model_mapping = some mapping;
  claude_model_names_enabled = true;
}

mapped-tiers_example :
    Gives mapped_target fable_env none
    × Gives mapped_target opus_env (some (record { model = codes "glm-4.6"; context_1m = true }))
    × Gives mapped_target sonnet_env none
    × Gives mapped_target haiku_env none
unfolding mapping_validate trim
mapped-tiers_example = mapped-tiers mapped_target mapping claude refl refl

is_inert_iff_example : (is_inert mapping ≡ true) ↔ ((key : String) → env_value mapping key ≡ none)
unfolding mapping_validate trim
is_inert_iff_example = is_inert_iff mapping claude refl refl

convert_provider_base_url-root_example :
    let u = codes "https://api.example.com/v1/" in
    (root : Text) × (convert_provider_base_url u claude codex ≡ root ++ codes "/v1")
    × (convert_provider_base_url (convert_provider_base_url u claude codex) codex claude ≡ root)
    × (((ends_with (codes "/v1") (trim_end_matches b'/' u) ≡ false)
          × (root ≡ trim_end_matches b'/' u))
        ⊎ (trim_end_matches b'/' u ≡ root ++ codes "/v1"))
convert_provider_base_url-root_example =
    convert_provider_base_url-root (codes "https://api.example.com/v1/")

-- A parser that knows one URL.
abbrev net : NetParsers
net = record {
  parse_url = λ _. some (record {
    scheme = codes "https";
    host_str = some (codes "api.example.com");
    username = [];
    password = none;
    path = codes "/";
    query = none;
    fragment = none;
  });
  is_ip_addr = λ _. false;
  is_ipv6_addr = λ _. false;
}

abbrev draft : ProviderDraft
draft = record {
  client = claude;
  name = codes "Example";
  description = [];
  base_url = codes "https://api.example.com";
  auth_scheme = x_api_key;
  model = none;
  codex_config_name = none;
  claude_model_mapping = some mapping;
  scope = primary;
  codex_image = record { enabled = false; models = []; preferred_model = none };
  codex_tuning = default_tuning;
  network_proxy = record { mode = ProviderProxyMode.inherit; manual = default_manual_proxy };
}

draft_validate→IsAccepted_example : IsAccepted net draft
unfolding draft_validate trim normalize_codex_config_name mapping_validate normalized
    tuning_is_valid is_default_tuning provider_proxy_validate image_is_inert
draft_validate→IsAccepted_example = draft_validate→IsAccepted net draft refl

abbrev totals : UsageTokenSummary
totals = record {
  input_tokens = 100;
  cache_write_tokens = 50;
  cache_read_tokens = 250;
  output_tokens = 40;
  reasoning_output_tokens = 10;
  request_count = 1;
}

total_tokens-eq-min_example :
    (total_tokens totals ≡ 440) × (non_hit_tokens totals ≤ total_tokens totals)
total_tokens-eq-min_example = total_tokens-eq-min totals

normalize_model_name-spelled_example :
    normalize_model_name (codes "anthropic/Claude-Opus-4-20250514[1m]") ≡ codes "claude-opus-4"
unfolding lower trim date_suffix contains_char
normalize_model_name-spelled_example =
    normalize_model_name-spelled (some (codes "anthropic")) (codes "Claude-Opus-4")
      (some (codes "1m"))
      (record { present = omega arith; no_bracket = refl; no_slash = refl; no_date = refl })
      (IsDate.compact b'2' b'0' b'2' b'5' b'0' b'5' b'1' b'4' refl) refl refl

abbrev generic : ModelPrice ℕ
generic = record {
  id = codes "generic";
  model_pattern = codes "claude-*";
  provider_id = none;
  currency = codes "USD";
  input = 3;
  cache_write = none;
  cache_read = none;
  output = 15;
  source = user;
  updated_at = pos 0;
}

abbrev exact : ModelPrice ℕ
exact = record generic {
  id = codes "exact";
  model_pattern = codes "claude-opus-4";
  provider_id = some (codes "p");
  source = builtin;
  updated_at = pos 0;
}

best_model_price-Preferred_example :
    (x : ModelPrice ℕ) × (q : Rank) × (best_model_price
        (generic ∷ exact ∷ [])
        (some (codes "p"))
        (codes "claude-opus-4")
      ≡ some x)
    × Memᴰ x (generic ∷ exact ∷ [])
    × (specificity x (some (codes "p")) (codes "claude-opus-4") ≡ some q)
    × Preferred (record { scoped = 0; source = 2; length = 7 }) q
unfolding specificity
best_model_price-Preferred_example =
    best_model_price-Preferred (some (codes "p")) (codes "claude-opus-4") (generic ∷ exact ∷ [])
      generic (Memᴰ.head refl) refl
