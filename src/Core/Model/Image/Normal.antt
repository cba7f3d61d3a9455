-- ===== src/Core/Model/Image/Normal.antt =====
-- What `CodexImageConfig::normalized` accepts, and that it leaves an accepted configuration as it is.
use hsin_rs.Prelude.{
  ltb, ◌≤◌, Bool, true, false, ◌&&◌, Option, none, some, List, [], ◌∷◌, Text, trim, trim_idem,
  is_nil, length, All, is_none, is_some, ok, refuse-then, ok-injective, >>=-eq-ok, ◌≡◌, refl, arith,
  Bool-cases, inl, inr, ltb→ge, ge→ltb,
}
use hsin_rs.Core.Model.Image.{
  CodexImageConfig, normalized, collect_models, has_model, trimmed_preferred, check_allowed,
}
use hsin_rs.Core.Model.Image.Collect.{
  IsClean, Distinct, collect_models-Collected, collect_models_fixed,
}

-- The preferred model is one of the models and is present when the feature is on.
abbrev pub PreferredIn : List Text → Option Text → Type 0
PreferredIn models none = Unit
PreferredIn models (some p) = (has_model p models ≡ true) × (trim p ≡ p) × (is_nil p ≡ false)

pub record IsNormal (c : CodexImageConfig) : Type 0 where
  pub clean : All IsClean c.models
  pub distinct : Distinct c.models
  pub few : length c.models ≤ 32
  pub preferred : PreferredIn c.models c.preferred_model
  pub chosen : c.enabled ≡ true → is_some c.preferred_model ≡ true

trimmed_preferred_cases :
    (p : Option Text) (models : List Text)
    → check_allowed (trimmed_preferred p) models ≡ ok tt
    → PreferredIn models (trimmed_preferred p)
trimmed_preferred_cases none models h = tt
trimmed_preferred_cases (some p) models h = elim (Bool-cases (is_nil (trim p))) [
  | inl e ↦ rw e tt
  | inr e ↦ rw e (ground arith, trim_idem p, e)
]

-- What the guards of `normalized` let through.
record Parts (c c' : CodexImageConfig) : Type 0 where
  few : length c.models ≤ 32
  collected : collect_models [] c.models ≡ ok c'.models
  trimmed : c'.preferred_model ≡ trimmed_preferred c.preferred_model
  allowed : check_allowed c'.preferred_model c'.models ≡ ok tt
  enabled : c'.enabled ≡ c.enabled
  chosen : c.enabled && is_none c'.preferred_model ≡ false

normalized-Parts :
    (c : CodexImageConfig) {c' : CodexImageConfig} → normalized c ≡ ok c' → Parts c c'
unfolding normalized
normalized-Parts c {c'} h =
    let p = trimmed_preferred c.preferred_model in
    let (few, h₁) = refuse-then (ltb 32 (length c.models)) _ _ h in
    let (models, got, h₂) = >>=-eq-ok (collect_models [] c.models) _ h₁ in
    let (_, h₃) = refuse-then (c.enabled && is_nil models) _ _ h₂ in
    let (_, h₄) = refuse-then (is_nil models && is_some p) _ _ h₃ in
    let (_, allowed, h₅) = >>=-eq-ok (check_allowed p models) _ h₄ in
    let (on, h₆) = refuse-then (c.enabled && is_none p) _ _ h₅ in
    rw (← ok-injective h₆) (record {
      few = ltb→ge 32 (length c.models) few;
      collected = got;
      trimmed = refl;
      allowed = allowed;
      enabled = refl;
      chosen = on;
    })

pub normalized-enabled :
    (c : CodexImageConfig) {c' : CodexImageConfig} → normalized c ≡ ok c' → c'.enabled ≡ c.enabled
normalized-enabled c {c'} h = (normalized-Parts c h).enabled

-- An accepted configuration lists at most 32 IDs, each trimmed, not empty and of at most 256
-- characters, none of them twice; a preferred model is trimmed, not empty and one of them, and
-- there is one if images are enabled.
pub normalized-IsNormal :
    (c : CodexImageConfig) {c' : CodexImageConfig} → normalized c ≡ ok c' → IsNormal c'
normalized-IsNormal c {c'} h =
    let parts = normalized-Parts c h in
    let out = collect_models-Collected [] c.models tt tt parts.collected in
    record {
      clean = out.clean;
      distinct = out.distinct;
      few = omega (arith, out.short, parts.few);
      preferred =
          rw parts.trimmed (
            trimmed_preferred_cases c.preferred_model c'.models
              (rw parts.trimmed at parts.allowed));
      chosen = λ e. ground (arith, parts.chosen, parts.enabled);
    }

trimmed_preferred_fixed :
    (models : List Text) (p : Option Text) → PreferredIn models p → trimmed_preferred p ≡ p
trimmed_preferred_fixed models none h = refl
trimmed_preferred_fixed models (some p) h = rw (h.1) (rw h.2)

guards_pass :
    (enabled : Bool) (models : List Text) (p : Option Text)
    → PreferredIn models p
    → (enabled ≡ true → is_some p ≡ true)
    → (enabled && is_nil models ≡ false)
      × (is_nil models && is_some p ≡ false)
      × (check_allowed p models ≡ ok tt)
      × (enabled && is_none p ≡ false)
unfolding has_model
guards_pass false [] none h k = (refl, refl, refl, refl)
guards_pass true [] none h k = cc (k refl)
guards_pass enabled [] (some p) h k = cc
guards_pass false (m ∷ models) none h k = (refl, refl, refl, refl)
guards_pass true (m ∷ models) none h k = cc (k refl)
guards_pass enabled (m ∷ models) (some p) h k = ground arith

-- A configuration of this form is accepted, and nothing of it changes.
pub normalized_fixed : (c : CodexImageConfig) → IsNormal c → normalized c ≡ ok c
unfolding normalized
normalized_fixed c n =
    let (on, some_models, allowed, chosen) =
      guards_pass c.enabled c.models c.preferred_model n.preferred n.chosen in
    rw (ge→ltb 32 (length c.models) n.few) (
      rw (collect_models_fixed [] c.models n.clean n.distinct) (
        rw (trimmed_preferred_fixed c.models c.preferred_model n.preferred)
          (rw on (rw some_models (rw allowed (rw chosen))))))

-- What normalizing a configuration gives is accepted when it is normalized again, and nothing of it
-- changes.
pub normalized_idem :
    (c : CodexImageConfig) {c' : CodexImageConfig} → normalized c ≡ ok c' → normalized c' ≡ ok c'
normalized_idem c {c'} h = normalized_fixed c' (normalized-IsNormal c h)
