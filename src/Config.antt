-- ===== src/Config.antt =====
-- What a provider's model mapping gives the environment of Claude Code: the mapping in force and the
-- value of a key, in `patch_claude_model_mapping` of crates/hsind/src/config.rs.
pub mod ModelEnv
use hsin_rs.Prelude.{
  Bool, not, ◌&&◌, ◌||◌, Option, none, and_then, List, [], ◌∷◌, String, str_eq, Text, any_of,
  keep_if, if◌then◌else◌,
}
use hsin_rs.Core.Model.Mapping.{
  ClaudeModelMapping, TierEnv, fable_env, opus_env, sonnet_env, haiku_env, env_value, is_inert,
}

-- The fields of `ConfigTarget` and of its provider that decide it.
pub record MappingTarget : Type 0 where
  pub official : Bool
  pub claude_model_mapping : Option ClaudeModelMapping
  pub claude_model_names_enabled : Bool

-- `CLAUDE_MODEL_NAME_ENV_KEYS`
abbrev pub claude_model_name_env_keys : List String
claude_model_name_env_keys =
    fable_env.name ∷ fable_env.description ∷ opus_env.name ∷ opus_env.description ∷ sonnet_env.name
    ∷ sonnet_env.description ∷ haiku_env.name ∷ haiku_env.description ∷ []

abbrev pub is_name_key : String → Bool
is_name_key key = any_of (str_eq key) claude_model_name_env_keys

unfoldable pub mapping_in_force : MappingTarget → Option ClaudeModelMapping
mapping_in_force t = keep_if (λ m. not t.official && not (is_inert m)) t.claude_model_mapping

unfoldable pub mapped : MappingTarget → String → Option Text
unfolding mapping_in_force
mapped t key =
    and_then (mapping_in_force t)
      λ m. if not (is_name_key key) || t.claude_model_names_enabled then env_value m key else none
