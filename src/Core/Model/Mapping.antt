-- ===== src/Core/Model/Mapping.antt =====
-- `ModelSlot` and `ClaudeModelMapping` of crates/hsin-core/src/lib.rs.
pub mod Valid
pub mod Keys
pub mod Inert
use hsin_rs.Prelude.{
  ℕ, ltb, Bool, true, false, not, ◌&&◌, ◌||◌, Option, none, some, List, [], ◌∷◌, ◌++◌, String,
  str_eq, Text, codes, trim, is_nil, length, is_none, keep_if, and_then, or_else, if◌then◌else◌,
  all_of, Result, ok, err, ◌>>=◌, ◌>>◌, refuse,
}
use mathlib.Core.Option
use hsin_rs.Core.Validation.{ValidationError, Checked, invalid}
use hsin_rs.Core.Enums.{ClientKind, codex, claude}

pub record ModelSlot : Type 0 where
  pub model : Text
  pub context_1m : Bool

pub record ClaudeModelMapping : Type 0 where
  pub enabled : Bool
  pub default_model : Option Text
  pub default_context_1m : Bool
  pub fable : Option ModelSlot
  pub opus : Option ModelSlot
  pub sonnet : Option ModelSlot
  pub haiku : Option ModelSlot

abbrev pub claude_model_env : String
claude_model_env = "ANTHROPIC_MODEL"

pub record TierEnv : Type 0 where
  pub label : String
  pub model : String
  pub name : String
  pub description : String

abbrev pub fable_env : TierEnv
fable_env = record {
  label = "Fable";
  model = "ANTHROPIC_DEFAULT_FABLE_MODEL";
  name = "ANTHROPIC_DEFAULT_FABLE_MODEL_NAME";
  description = "ANTHROPIC_DEFAULT_FABLE_MODEL_DESCRIPTION";
}

abbrev pub opus_env : TierEnv
opus_env = record {
  label = "Opus";
  model = "ANTHROPIC_DEFAULT_OPUS_MODEL";
  name = "ANTHROPIC_DEFAULT_OPUS_MODEL_NAME";
  description = "ANTHROPIC_DEFAULT_OPUS_MODEL_DESCRIPTION";
}

abbrev pub sonnet_env : TierEnv
sonnet_env = record {
  label = "Sonnet";
  model = "ANTHROPIC_DEFAULT_SONNET_MODEL";
  name = "ANTHROPIC_DEFAULT_SONNET_MODEL_NAME";
  description = "ANTHROPIC_DEFAULT_SONNET_MODEL_DESCRIPTION";
}

abbrev pub haiku_env : TierEnv
haiku_env = record {
  label = "Haiku";
  model = "ANTHROPIC_DEFAULT_HAIKU_MODEL";
  name = "ANTHROPIC_DEFAULT_HAIKU_MODEL_NAME";
  description = "ANTHROPIC_DEFAULT_HAIKU_MODEL_DESCRIPTION";
}

-- `CLAUDE_TIER_ENV` zipped with `slots`, in display order
abbrev pub tiers : ClaudeModelMapping → List (TierEnv × Option ModelSlot)
tiers m =
    (fable_env, m.fable) ∷ (opus_env, m.opus) ∷ (sonnet_env, m.sonnet) ∷ (haiku_env, m.haiku) ∷ []

-- `slots`
abbrev pub slots : ClaudeModelMapping → List (String × Option ModelSlot)
slots m =
    (fable_env.model, m.fable)
    ∷ (opus_env.model, m.opus)
    ∷ (sonnet_env.model, m.sonnet)
    ∷ (haiku_env.model, m.haiku)
    ∷ []

abbrev pub tier_keys : TierEnv → List String
tier_keys t = t.model ∷ t.name ∷ t.description ∷ []

abbrev pub claude_model_env_keys : List String
claude_model_env_keys =
    claude_model_env
    ∷ (tier_keys fable_env ++ (tier_keys opus_env ++ (tier_keys sonnet_env ++ tier_keys haiku_env)))

-- `format!("{model}[1m]")` where the 1M context is asked for
abbrev pub suffixed : Bool → Text → Text
suffixed context_1m model = if context_1m then model ++ codes "[1m]" else model

unfoldable pub resolved_model : ModelSlot → Text
resolved_model slot = suffixed slot.context_1m (trim slot.model)

unfoldable pub trimmed_default_model : ClaudeModelMapping → Option Text
trimmed_default_model m = keep_if (λ model. not (is_nil model)) (Option.map trim m.default_model)

unfoldable pub resolved_default_model : ClaudeModelMapping → Option Text
resolved_default_model m = Option.map (suffixed m.default_context_1m) (trimmed_default_model m)

unfoldable pub is_inert : ClaudeModelMapping → Bool
is_inert m =
    not m.enabled
    || (is_none (trimmed_default_model m)
        && all_of (λ (slot : String × Option ModelSlot). is_none slot.1) (slots m))

-- the closure of `find_map`: what one mapped tier writes to `key`
unfoldable pub tier_value : String → TierEnv → Option ModelSlot → Option Text
unfolding resolved_model
tier_value key tier none = none
tier_value key tier (some slot) =
    let bare = trim slot.model in
    if is_nil bare
    then none
    else if str_eq key tier.model
    then some (resolved_model slot)
    else if str_eq key tier.name
    then some bare
    else if str_eq key tier.description
    then some (codes tier.label ++ (codes " → " ++ resolved_model slot))
    else none

unfoldable pub find_tier : String → List (TierEnv × Option ModelSlot) → Option Text
unfolding tier_value
find_tier key [] = none
find_tier key ((tier, slot) ∷ rest) = or_else (tier_value key tier slot) (find_tier key rest)

unfoldable pub env_value : ClaudeModelMapping → String → Option Text
env_value m key =
    if str_eq key claude_model_env then resolved_default_model m else find_tier key (tiers m)

abbrev pub check_text : String → Text → Checked (Unit {0})
check_text field model = do
  refuse (is_nil (trim model)) (invalid field "empty")
  refuse (ltb 256 (length model)) (invalid field "too_long")

abbrev pub check_default : Option Text → Checked (Unit {0})
check_default none = ok tt
check_default (some model) = check_text claude_model_env model

unfoldable pub check_slots : List (String × Option ModelSlot) → Checked (Unit {0})
check_slots [] = ok tt
check_slots ((field, none) ∷ rest) = check_slots rest
check_slots ((field, some slot) ∷ rest) = check_text field slot.model >> check_slots rest

abbrev pub client_claude : ClientKind → Bool
client_claude claude = true
client_claude codex = false

unfoldable pub mapping_validate : ClaudeModelMapping → ClientKind → Checked (Unit {0})
unfolding check_slots
mapping_validate m client = do
  refuse (not (client_claude client)) (invalid "claude_model_mapping" "unsupported_client")
  check_default m.default_model
  refuse (m.default_context_1m && is_none (trimmed_default_model m))
      (invalid claude_model_env "context_without_model")
  check_slots (slots m)
