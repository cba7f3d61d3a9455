-- ===== src/Config/ModelEnv.antt =====
-- Which environment keys Claude Code is given by a mapping, under its master switch.
use hsin_rs.Prelude.{
  Bool, true, false, not, ◌&&◌, ◌||◌, Option, none, some, String, Text, codes, trim, ◌++◌, ok, ◌≡◌,
  refl, sym, ◌∙◌, arith, if◌then◌else◌, Bool-cases, inl, inr,
}
use hsin_rs.Core.Enums.{ClientKind}
use hsin_rs.Core.Model.Mapping.{
  ModelSlot, ClaudeModelMapping, TierEnv, fable_env, opus_env, sonnet_env, haiku_env, env_value,
  is_inert, resolved_model, mapping_validate,
}
use hsin_rs.Core.Model.Mapping.Keys.{Writes, env_value-tiers}
use hsin_rs.Core.Model.Mapping.Inert.{is_inert_iff}
use hsin_rs.Config.{MappingTarget, is_name_key, mapped}

-- What a target gives the three keys of a tier: nothing if it is not mapped, else the resolved
-- model, and, where names are enabled, the bare model and the labelled description.
abbrev pub Gives : MappingTarget → TierEnv → Option ModelSlot → Type 0
Gives t tier none =
    (mapped t tier.model ≡ none) × (mapped t tier.name ≡ none) × (mapped t tier.description ≡ none)
Gives t tier (some slot) =
    (mapped t tier.model ≡ some (resolved_model slot))
    × (mapped t tier.name ≡ (if t.claude_model_names_enabled then some (trim slot.model) else none))
    × (mapped t tier.description ≡ (
        if t.claude_model_names_enabled
        then some (codes tier.label ++ (codes " → " ++ resolved_model slot))
        else none))

-- What a target gives when its mapping is on, and when it is off.
abbrev pub Follows : MappingTarget → ClaudeModelMapping → Bool → Type 0
Follows t m true =
    Gives t fable_env m.fable
    × Gives t opus_env m.opus
    × Gives t sonnet_env m.sonnet
    × Gives t haiku_env m.haiku
Follows t m false = (key : String) → mapped t key ≡ none

if_none : (b : Bool) {o : Option Text} → o ≡ none → (if b then o else none) ≡ none
if_none true h = h
if_none false h = refl

mapped-on :
    (t : MappingTarget) (m : ClaudeModelMapping) (client : ClientKind) (key : String)
    → t.claude_model_mapping ≡ some m
    → mapping_validate m client ≡ ok tt
    → t.official ≡ false
    → m.enabled ≡ true
    → mapped t key
      ≡ (if not (is_name_key key) || t.claude_model_names_enabled then env_value m key else none)
unfolding mapped
mapped-on t m client key has v unofficial on = elim (Bool-cases (is_inert m)) [
  | inl inert ↦
      rw (has, unofficial, inert) (sym (if_none _ ((is_inert_iff m client v on).0 inert key)))
  | inr active ↦ rw (has, unofficial, active) refl
]

mapped-off :
    (t : MappingTarget) (m : ClaudeModelMapping)
    → t.claude_model_mapping ≡ some m
    → (not t.official && m.enabled) ≡ false
    → (key : String) → mapped t key ≡ none
unfolding mapped is_inert
mapped-off t m has off key = elim (Bool-cases t.official) [
  | inl official ↦ rw (has, official) refl
  | inr unofficial ↦
      let disabled : m.enabled ≡ false = ground arith in rw (has, unofficial, disabled) refl
]

-- The three keys of a tier, of which the last two are of names.
record IsTier (tier : TierEnv) : Type 0 where
  model : is_name_key tier.model ≡ false
  name : is_name_key tier.name ≡ true
  description : is_name_key tier.description ≡ true

gives :
    (t : MappingTarget) (m : ClaudeModelMapping) (tier : TierEnv) (slot : Option ModelSlot)
    → IsTier tier
    → ((key : String)
        → mapped t key ≡ (
            if not (is_name_key key) || t.claude_model_names_enabled
            then env_value m key
            else none))
    → Writes m tier slot
    → Gives t tier slot
gives t m tier none k on w = (
  on tier.model ∙ if_none _ w.0,
  on tier.name ∙ if_none _ w.1,
  on tier.description ∙ if_none _ w.2,
)
gives t m tier (some slot) k on w = (
  on tier.model ∙ rw (k.model) w.0,
  on tier.name ∙ rw (k.name, w.1) refl,
  on tier.description ∙ rw (k.description, w.2) refl,
)

-- An accepted mapping of a provider that is not official gives its environment keys only while it is
-- enabled: each tier that is mapped gives its resolved model, and where names are enabled the bare
-- model and the labelled description; a tier that is not mapped gives none of its keys. A mapping
-- that is disabled, or of an official provider, gives no key at all.
pub mapped-tiers :
    (t : MappingTarget) (m : ClaudeModelMapping) (client : ClientKind)
    → t.claude_model_mapping ≡ some m
    → mapping_validate m client ≡ ok tt
    → Follows t m (not t.official && m.enabled)
mapped-tiers t m client has v = elim (Bool-cases (not t.official && m.enabled)) [
  | inl on ↦
      let every = λ (key : String). mapped-on t m client key has v (ground arith) (ground arith) in
      let (f, o, s, h) = env_value-tiers m client v in
      rw on (
        gives t m fable_env m.fable (record { model = refl; name = refl; description = refl }) every
            f,
        gives t m opus_env m.opus (record { model = refl; name = refl; description = refl }) every
            o,
        gives t m sonnet_env m.sonnet (record { model = refl; name = refl; description = refl })
            every s,
        gives t m haiku_env m.haiku (record { model = refl; name = refl; description = refl }) every
            h,
      )
  | inr off ↦ rw off (mapped-off t m has off)
]
