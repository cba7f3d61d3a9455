-- ===== src/Core/Model/Image.antt =====
-- `CodexImageConfig` of crates/hsin-core/src/lib.rs.
pub mod Collect
pub mod Normal
use hsin_rs.Prelude.{
  ℕ, ltb, Bool, true, false, not, ◌&&◌, Option, none, some, List, [], ◌∷◌, ◌++◌, Text, text_eq,
  trim, is_nil, length, is_none, is_some, keep_if, any_of, if◌then◌else◌, Result, ok, err, ◌>>=◌,
  ◌>>◌, refuse,
}
use mathlib.Core.Option
use hsin_rs.Core.Validation.{ValidationError, Checked, invalid}

pub record CodexImageConfig : Type 0 where
  pub enabled : Bool
  pub models : List Text
  pub preferred_model : Option Text

unfoldable pub image_is_inert : CodexImageConfig → Bool
image_is_inert c = not c.enabled && is_nil c.models && is_none c.preferred_model

-- `models.iter().any(|existing| existing == model)`
unfoldable pub has_model : Text → List Text → Bool
unfolding text_eq
has_model model models = any_of (λ existing. text_eq existing model) models

-- The loop over `self.models`; `models` is what has been pushed so far.
unfoldable pub collect_models : List Text → List Text → Checked (List Text)
unfolding has_model
collect_models models [] = ok models
collect_models models (raw ∷ rest) =
    let model = trim raw in
    let kept = if has_model model models then models else models ++ model ∷ [] in
    do
      refuse (is_nil model) (invalid "codex_image.models" "empty")
      refuse (ltb 256 (length model)) (invalid "codex_image.models" "too_long")
      collect_models kept rest

abbrev pub trimmed_preferred : Option Text → Option Text
trimmed_preferred p = keep_if (λ model. not (is_nil model)) (Option.map trim p)

abbrev pub check_allowed : Option Text → List Text → Checked (Unit {0})
check_allowed none models = ok tt
check_allowed (some preferred) models =
    refuse (not (has_model preferred models)) (invalid "codex_image.preferred_model" "not_allowed")

unfoldable pub normalized : CodexImageConfig → Checked CodexImageConfig
unfolding collect_models has_model
normalized c = do
  refuse (ltb 32 (length c.models)) (invalid "codex_image.models" "too_many")
  models ← collect_models [] c.models
  let preferred = trimmed_preferred c.preferred_model
  refuse (c.enabled && is_nil models) (invalid "codex_image.models" "empty")
  refuse (is_nil models && is_some preferred)
      (invalid "codex_image.preferred_model" "without_models")
  check_allowed preferred models
  refuse (c.enabled && is_none preferred) (invalid "codex_image.preferred_model" "empty")
  ok (record { enabled = c.enabled; models = models; preferred_model = preferred })
