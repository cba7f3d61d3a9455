-- ===== src/Core/Enums/Interface.antt =====
-- What the enums of crates/hsin-core/src/lib.rs have in common: `FromStr` matches
-- `value.trim().to_ascii_lowercase()` against its arms, and `as_str` gives the first of them.
use hsin_rs.Prelude.{
  String, Text, codes, text_eq, Option, some, List, [], ◌∷◌, Bool, false, ◌||◌, Result, trim, lower,
  ok_or, ◌≡◌,
}
use hsin_rs.Core.Validation.{ParseEnumError}

pub record EnumText {ℓ} (A : Type ℓ) : Type ℓ where
  pub kind : String
  pub as_str : A → Text
  pub arms : Text → Option A
  pub arms-as_str : (a : A) → arms (as_str a) ≡ some a
  pub as_str_normal : (a : A) → trim (lower (as_str a)) ≡ as_str a

unfoldable pub from_str {ℓ} : {A : Type ℓ} ⦃e : EnumText A⦄ → Text → Result ParseEnumError A
from_str ⦃e⦄ value = ok_or (e.arms (lower (trim value))) (record { kind = e.kind; value = value })

-- One arm with several patterns.
abbrev pub one_of : Text → List String → Bool
one_of v [] = false
one_of v (s ∷ ss) = text_eq v (codes s) || one_of v ss
