-- ===== src/Core/Model/Mapping/Valid.antt =====
-- What `ClaudeModelMapping::validate` checks.
use hsin_rs.Prelude.{
  ◌≤◌, ltb→ge, true, false, not, ◌&&◌, Option, none, some, List, ◌∷◌, String, Text, trim, is_nil,
  length, is_none, ok, refuse-then, >>=-eq-ok, ◌≡◌, refl, arith,
}
use hsin_rs.Core.Enums.{ClientKind, codex, claude}
use hsin_rs.Core.Model.Mapping.{
  ModelSlot, ClaudeModelMapping, check_text, check_default, check_slots, client_claude,
  mapping_validate, trimmed_default_model,
}

-- A mapped model ID is not blank and has at most 256 characters.
abbrev pub FitText : Text → Type 0
FitText model = (is_nil (trim model) ≡ false) × (length model ≤ 256)

abbrev pub FitSlot : Option ModelSlot → Type 0
FitSlot none = Unit
FitSlot (some slot) = FitText slot.model

abbrev FitModel : Option Text → Type 0
FitModel none = Unit
FitModel (some model) = FitText model

pub record IsFit (m : ClaudeModelMapping) (client : ClientKind) : Type 0 where
  pub client_is_claude : client ≡ claude
  pub default_fits : FitModel m.default_model
  pub context_has_model : m.default_context_1m ≡ true → is_none (trimmed_default_model m) ≡ false
  pub fable_fits : FitSlot m.fable
  pub opus_fits : FitSlot m.opus
  pub sonnet_fits : FitSlot m.sonnet
  pub haiku_fits : FitSlot m.haiku

check_text→Fit : (field : String) (model : Text) → check_text field model ≡ ok tt → FitText model
check_text→Fit field model h =
    let (present, h₁) = refuse-then (is_nil (trim model)) _ _ h in
    (present, ltb→ge 256 (length model) (ground arith))

check_default→Fit : (d : Option Text) → check_default d ≡ ok tt → FitModel d
check_default→Fit none h = tt
check_default→Fit (some model) h = check_text→Fit _ model h

check_slots-cons :
    (field : String) (slot : Option ModelSlot) (rest : List (String × Option ModelSlot))
    → check_slots ((field, slot) ∷ rest) ≡ ok tt
    → FitSlot slot × (check_slots rest ≡ ok tt)
unfolding check_slots
check_slots-cons field none rest h = (tt, h)
check_slots-cons field (some slot) rest h =
    let (_, one, more) = >>=-eq-ok (check_text field slot.model) _ h in
    (check_text→Fit field slot.model one, more)

client_cases : (c : ClientKind) → not (client_claude c) ≡ false → c ≡ claude
client_cases codex h = cc
client_cases claude h = refl

pub mapping_validate→IsFit :
    (m : ClaudeModelMapping) (client : ClientKind)
    → mapping_validate m client ≡ ok tt
    → IsFit m client
unfolding mapping_validate
mapping_validate→IsFit m client h =
    let (c, h₁) = refuse-then (not (client_claude client)) _ _ h in
    let (_, d, h₂) = >>=-eq-ok (check_default m.default_model) _ h₁ in
    let (x, h₃) = refuse-then (m.default_context_1m && is_none (trimmed_default_model m)) _ _ h₂ in
    let (f, h₄) = check_slots-cons _ m.fable _ h₃ in
    let (o, h₅) = check_slots-cons _ m.opus _ h₄ in
    let (s, h₆) = check_slots-cons _ m.sonnet _ h₅ in
    let (k, h₇) = check_slots-cons _ m.haiku _ h₆ in
    record {
      client_is_claude = client_cases client c;
      default_fits = check_default→Fit m.default_model d;
      context_has_model = λ e. ground arith;
      fable_fits = f;
      opus_fits = o;
      sonnet_fits = s;
      haiku_fits = k;
    }
