-- ===== src/Core/Model/Mapping/Keys.antt =====
-- Which environment keys `env_value` has a value for, and which.
use hsin_rs.Prelude.{
  true, false, Option, none, some, List, [], ◌∷◌, ◌++◌, String, str_eq, codes, trim, any_of,
  or_else, ok, ◌≡◌, refl, ◌∙◌, arith,
}
use hsin_rs.Core.Enums.{ClientKind}
use hsin_rs.Core.Model.Mapping.{
  ModelSlot, ClaudeModelMapping, TierEnv, fable_env, opus_env, sonnet_env, haiku_env,
  claude_model_env, tier_keys, tier_value, find_tier, env_value, resolved_model, mapping_validate,
}
use hsin_rs.Core.Model.Mapping.Valid.{FitSlot, mapping_validate→IsFit}

-- What one tier writes: nothing if it is not mapped, else its three keys.
abbrev pub Writes : ClaudeModelMapping → TierEnv → Option ModelSlot → Type 0
Writes m tier none =
    (env_value m tier.model ≡ none)
    × (env_value m tier.name ≡ none)
    × (env_value m tier.description ≡ none)
Writes m tier (some slot) =
    (env_value m tier.model ≡ some (resolved_model slot))
    × (env_value m tier.name ≡ some (trim slot.model))
    × (env_value m tier.description
        ≡ some (codes tier.label ++ (codes " → " ++ resolved_model slot)))

tier_value_other :
    (key : String) (tier : TierEnv) (slot : Option ModelSlot)
    → any_of (str_eq key) (tier_keys tier) ≡ false
    → tier_value key tier slot ≡ none
unfolding tier_value
tier_value_other key tier none h = refl
tier_value_other key tier (some slot) h = ground arith

-- `key` belongs to none of these tiers.
abbrev Misses : String → List (TierEnv × Option ModelSlot) → Type 0
Misses key [] = Unit
Misses key ((tier, slot) ∷ rest) = (any_of (str_eq key) (tier_keys tier) ≡ false) × Misses key rest

find_tier-Misses :
    (key : String) (ts : List (TierEnv × Option ModelSlot))
    → Misses key ts
    → find_tier key ts ≡ none
unfolding find_tier
find_tier-Misses key [] h = refl
find_tier-Misses key ((tier, slot) ∷ rest) h =
    rw (tier_value_other key tier slot h.0) (find_tier-Misses key rest h.1)

or_else-none {ℓ} : {A : Type ℓ} (o : Option A) → or_else o none ≡ o
or_else-none none = refl
or_else-none (some a) = refl

find_tier-at :
    (key : String) (before : List (TierEnv × Option ModelSlot)) (tier : TierEnv)
    (slot : Option ModelSlot) (after : List (TierEnv × Option ModelSlot))
    → Misses key before
    → Misses key after
    → find_tier key (before ++ (tier, slot) ∷ after) ≡ tier_value key tier slot
unfolding find_tier
find_tier-at key [] tier slot after h k =
    rw (find_tier-Misses key after k) (or_else-none (tier_value key tier slot))
find_tier-at key ((t, s) ∷ before) tier slot after h k =
    rw (tier_value_other key t s h.0) (find_tier-at key before tier slot after h.1 k)

-- The three keys of a tier differ.
record IsApart (t : TierEnv) : Type 0 where
  model : str_eq t.model t.model ≡ true
  name : (str_eq t.name t.model ≡ false) × (str_eq t.name t.name ≡ true)
  description :
      (str_eq t.description t.model ≡ false)
      × (str_eq t.description t.name ≡ false)
      × (str_eq t.description t.description ≡ true)

IsApart-fable : IsApart fable_env
IsApart-fable = record { model = refl; name = (refl, refl); description = (refl, refl, refl) }

IsApart-opus : IsApart opus_env
IsApart-opus = record { model = refl; name = (refl, refl); description = (refl, refl, refl) }

IsApart-sonnet : IsApart sonnet_env
IsApart-sonnet = record { model = refl; name = (refl, refl); description = (refl, refl, refl) }

IsApart-haiku : IsApart haiku_env
IsApart-haiku = record { model = refl; name = (refl, refl); description = (refl, refl, refl) }

tier-Writes :
    (m : ClaudeModelMapping) (t : TierEnv) (s : Option ModelSlot)
    → IsApart t
    → FitSlot s
    → (env_value m t.model ≡ tier_value t.model t s)
      × (env_value m t.name ≡ tier_value t.name t s)
      × (env_value m t.description ≡ tier_value t.description t s)
    → Writes m t s
unfolding tier_value
tier-Writes m t none a f h = h
tier-Writes m t (some s) a f h = (
  h.0 ∙ rw (f.0, a.model),
  h.1 ∙ rw (f.0, a.name.0, a.name.1),
  h.2 ∙ rw (f.0, a.description.0, a.description.1, a.description.2),
)

at_fable :
    (m : ClaudeModelMapping) (key : String)
    → str_eq key claude_model_env ≡ false
    → Misses key ([])
    → Misses key ((opus_env, m.opus) ∷ (sonnet_env, m.sonnet) ∷ (haiku_env, m.haiku) ∷ [])
    → env_value m key ≡ tier_value key fable_env m.fable
unfolding env_value
at_fable m key c h k = rw c (
    find_tier-at key ([]) fable_env m.fable
      ((opus_env, m.opus) ∷ (sonnet_env, m.sonnet) ∷ (haiku_env, m.haiku) ∷ []) h k)

at_opus :
    (m : ClaudeModelMapping) (key : String)
    → str_eq key claude_model_env ≡ false
    → Misses key ((fable_env, m.fable) ∷ [])
    → Misses key ((sonnet_env, m.sonnet) ∷ (haiku_env, m.haiku) ∷ [])
    → env_value m key ≡ tier_value key opus_env m.opus
unfolding env_value
at_opus m key c h k = rw c (
    find_tier-at key ((fable_env, m.fable) ∷ []) opus_env m.opus
      ((sonnet_env, m.sonnet) ∷ (haiku_env, m.haiku) ∷ []) h k)

at_sonnet :
    (m : ClaudeModelMapping) (key : String)
    → str_eq key claude_model_env ≡ false
    → Misses key ((fable_env, m.fable) ∷ (opus_env, m.opus) ∷ [])
    → Misses key ((haiku_env, m.haiku) ∷ [])
    → env_value m key ≡ tier_value key sonnet_env m.sonnet
unfolding env_value
at_sonnet m key c h k = rw c (
    find_tier-at key ((fable_env, m.fable) ∷ (opus_env, m.opus) ∷ []) sonnet_env m.sonnet
      ((haiku_env, m.haiku) ∷ []) h k)

at_haiku :
    (m : ClaudeModelMapping) (key : String)
    → str_eq key claude_model_env ≡ false
    → Misses key ((fable_env, m.fable) ∷ (opus_env, m.opus) ∷ (sonnet_env, m.sonnet) ∷ [])
    → Misses key ([])
    → env_value m key ≡ tier_value key haiku_env m.haiku
unfolding env_value
at_haiku m key c h k = rw c (
    find_tier-at key ((fable_env, m.fable) ∷ (opus_env, m.opus) ∷ (sonnet_env, m.sonnet) ∷ [])
      haiku_env m.haiku ([]) h k)

-- For an accepted mapping, enabled or not, `env_value` has each tier's three keys exactly when the tier is
-- mapped: the resolved model ID, the bare model ID, and the labelled description.
pub env_value-tiers :
    (m : ClaudeModelMapping) (client : ClientKind)
    → mapping_validate m client ≡ ok tt
    → Writes m fable_env m.fable
      × Writes m opus_env m.opus
      × Writes m sonnet_env m.sonnet
      × Writes m haiku_env m.haiku
env_value-tiers m client h =
    let fit = mapping_validate→IsFit m client h in
    (
      tier-Writes m fable_env m.fable IsApart-fable fit.fable_fits (
        at_fable m fable_env.model refl tt (refl, (refl, (refl, tt))),
        at_fable m fable_env.name refl tt (refl, (refl, (refl, tt))),
        at_fable m fable_env.description refl tt (refl, (refl, (refl, tt))),
      ),
      tier-Writes m opus_env m.opus IsApart-opus fit.opus_fits (
        at_opus m opus_env.model refl (refl, tt) (refl, (refl, tt)),
        at_opus m opus_env.name refl (refl, tt) (refl, (refl, tt)),
        at_opus m opus_env.description refl (refl, tt) (refl, (refl, tt)),
      ),
      tier-Writes m sonnet_env m.sonnet IsApart-sonnet fit.sonnet_fits (
        at_sonnet m sonnet_env.model refl (refl, (refl, tt)) (refl, tt),
        at_sonnet m sonnet_env.name refl (refl, (refl, tt)) (refl, tt),
        at_sonnet m sonnet_env.description refl (refl, (refl, tt)) (refl, tt),
      ),
      tier-Writes m haiku_env m.haiku IsApart-haiku fit.haiku_fits (
        at_haiku m haiku_env.model refl (refl, (refl, (refl, tt))) tt,
        at_haiku m haiku_env.name refl (refl, (refl, (refl, tt))) tt,
        at_haiku m haiku_env.description refl (refl, (refl, (refl, tt))) tt,
      ),
    )
