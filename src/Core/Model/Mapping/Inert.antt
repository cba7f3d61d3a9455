-- ===== src/Core/Model/Mapping/Inert.antt =====
-- When a mapping writes nothing.
use hsin_rs.Prelude.{
  Bool, true, ◌||◌, Option, none, some, List, [], ◌∷◌, ◌++◌, String, str_eq, Text, is_none, any_of,
  ok, ◌≡◌, ◌↔◌, inl, inr, refl, arith, Bool-cases, Option-cases,
}
use hsin_rs.Core.Enums.{ClientKind}
use hsin_rs.Core.Model.Mapping.{
  ModelSlot, ClaudeModelMapping, TierEnv, fable_env, opus_env, sonnet_env, haiku_env,
  claude_model_env, claude_model_env_keys, tier_keys, tiers, tier_value, find_tier, env_value,
  is_inert, resolved_default_model, trimmed_default_model, mapping_validate,
}
use hsin_rs.Core.Model.Mapping.Keys.{Writes, env_value-tiers}

tier_value-key :
    (key : String) (tier : TierEnv) (slot : Option ModelSlot) {v : Text}
    → tier_value key tier slot ≡ some v
    → any_of (str_eq key) (tier_keys tier) ≡ true
unfolding tier_value
tier_value-key key tier none h = cc
tier_value-key key tier (some slot) h = ground arith

abbrev keys_of : List (TierEnv × Option ModelSlot) → List String
keys_of [] = []
keys_of ((tier, slot) ∷ rest) = tier_keys tier ++ keys_of rest

any_of-append :
    (p : String → Bool) (xs ys : List String) → any_of p (xs ++ ys) ≡ (any_of p xs || any_of p ys)
any_of-append p [] ys = refl
any_of-append p (x ∷ xs) ys = ground (arith, any_of-append p xs ys)

find_tier-key :
    (key : String) (ts : List (TierEnv × Option ModelSlot)) {v : Text}
    → find_tier key ts ≡ some v
    → any_of (str_eq key) (keys_of ts) ≡ true
unfolding find_tier
find_tier-key key [] h = cc
find_tier-key key ((tier, slot) ∷ rest) {v} h = elim (Option-cases (tier_value key tier slot)) [
  | inl e ↦
      rw (any_of-append (str_eq key) (tier_keys tier) (keys_of rest))
        (or_right _ (find_tier-key key rest {v = v} (rw e at h)))
  | inr e ↦
      rw (any_of-append (str_eq key) (tier_keys tier) (keys_of rest))
        (rw (tier_value-key key tier slot e.1))
]
  where
    or_right : (b : Bool) {c : Bool} → c ≡ true → (b || c) ≡ true
    or_right b h = ground arith

-- A value is only ever written to one of the listed environment keys.
pub env_value-key :
    (m : ClaudeModelMapping) (key : String) {v : Text}
    → env_value m key ≡ some v
    → any_of (str_eq key) claude_model_env_keys ≡ true
unfolding env_value
env_value-key m key {v} h = elim (Bool-cases (str_eq key claude_model_env)) [
  | inl e ↦ rw e
  | inr e ↦ rw e (find_tier-key key (tiers m) {v = v} (rw e at h))
]

slot_none :
    (m : ClaudeModelMapping) (t : TierEnv) (s : Option ModelSlot)
    → Writes m t s
    → env_value m t.model ≡ none
    → is_none s ≡ true
slot_none m t none w h = refl
slot_none m t (some s) w h = cc (w.0, h)

default_none :
    (m : ClaudeModelMapping)
    → env_value m claude_model_env ≡ none
    → is_none (trimmed_default_model m) ≡ true
unfolding env_value resolved_default_model
default_none m h = ground arith

none_of : {A : Type 0} (o : Option A) → is_none o ≡ true → o ≡ none
none_of none h = refl
none_of (some a) h = cc

unwritten :
    (m : ClaudeModelMapping)
    → is_inert m ≡ true
    → m.enabled ≡ true
    → (trimmed_default_model m ≡ none)
      × (m.fable ≡ none)
      × (m.opus ≡ none)
      × (m.sonnet ≡ none)
      × (m.haiku ≡ none)
unfolding is_inert
unwritten m h on = (
  none_of _ (ground arith),
  none_of _ (ground arith),
  none_of _ (ground arith),
  none_of _ (ground arith),
  none_of _ (ground arith),
)

inert_writes_nothing :
    (m : ClaudeModelMapping)
    → is_inert m ≡ true
    → m.enabled ≡ true
    → (key : String) → env_value m key ≡ none
unfolding env_value find_tier tier_value resolved_default_model
inert_writes_nothing m h on key =
    let (d, f, o, s, k) = unwritten m h on in
    elim (Bool-cases (str_eq key claude_model_env)) [
      | inl e ↦ rw e (rw d)
      | inr e ↦ rw e (simp (f, o, s, k))
    ]

silent-is_inert :
    (m : ClaudeModelMapping) (client : ClientKind)
    → mapping_validate m client ≡ ok tt
    → ((key : String) → env_value m key ≡ none)
    → is_inert m ≡ true
unfolding is_inert
silent-is_inert m client v h =
    let (f, o, s, k) = env_value-tiers m client v in
    ground (
      arith,
      default_none m (h claude_model_env),
      slot_none m fable_env m.fable f (h fable_env.model),
      slot_none m opus_env m.opus o (h opus_env.model),
      slot_none m sonnet_env m.sonnet s (h sonnet_env.model),
      slot_none m haiku_env m.haiku k (h haiku_env.model),
    )

-- An accepted mapping that is enabled is inert exactly when it has no value for any key at all.
pub is_inert_iff :
    (m : ClaudeModelMapping) (client : ClientKind)
    → mapping_validate m client ≡ ok tt
    → m.enabled ≡ true
    → (is_inert m ≡ true) ↔ ((key : String) → env_value m key ≡ none)
is_inert_iff m client v on = (λ h. inert_writes_nothing m h on, silent-is_inert m client v)
