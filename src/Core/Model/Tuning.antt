-- ===== src/Core/Model/Tuning.antt =====
-- `CodexTuningSettings` of crates/hsin-core/src/lib.rs.
use hsin_rs.Prelude.{
  ℕ, ltb, leb, Bool, true, false, ◌&&◌, Option, none, some, i64_max, Text, codes, ◌≡◌, arith,
  is_none, not,
}

pub record CodexContextOverride : Type 0 where
  pub enabled : Bool
  pub max_tokens : Option ℕ  -- u64
  pub compact_tokens : Option ℕ  -- u64

pub data CodexReasoningEffort : Type 0 where
  unchanged low medium high xhigh ultra max : CodexReasoningEffort

abbrev pub as_config_value : CodexReasoningEffort → Option Text
as_config_value unchanged = none
as_config_value low = some (codes "low")
as_config_value medium = some (codes "medium")
as_config_value high = some (codes "high")
as_config_value xhigh = some (codes "xhigh")
as_config_value ultra = some (codes "ultra")
as_config_value max = some (codes "max")

pub record CodexTuningSettings : Type 0 where
  pub context : CodexContextOverride
  pub reasoning_effort : CodexReasoningEffort
  pub plan_mode_reasoning_effort : CodexReasoningEffort

abbrev pub default_tuning : CodexTuningSettings
default_tuning = record {
  context = record { enabled = false; max_tokens = none; compact_tokens = none };
  reasoning_effort = unchanged;
  plan_mode_reasoning_effort = unchanged;
}

abbrev valid_limit : Option ℕ → Bool
valid_limit none = true
valid_limit (some tokens) = ltb 0 tokens && leb tokens i64_max

unfoldable pub tuning_is_valid : CodexTuningSettings → Bool
tuning_is_valid t = valid_limit t.context.max_tokens && valid_limit t.context.compact_tokens

abbrev is_unchanged : CodexReasoningEffort → Bool
is_unchanged unchanged = true
is_unchanged _ = false

-- the derived `PartialEq` against `CodexTuningSettings::default()`
unfoldable pub is_default_tuning : CodexTuningSettings → Bool
is_default_tuning t =
    not t.context.enabled
    && is_none t.context.max_tokens
    && is_none t.context.compact_tokens
    && is_unchanged t.reasoning_effort
    && is_unchanged t.plan_mode_reasoning_effort

pub is_default_tuning→eq :
    (t : CodexTuningSettings) → is_default_tuning t ≡ true → t ≡ default_tuning
unfolding is_default_tuning
is_default_tuning→eq t h = ground arith
