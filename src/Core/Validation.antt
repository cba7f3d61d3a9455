-- ===== src/Core/Validation.antt =====
-- crates/hsin-core/src/lib.rs: the errors of parsing and of validation.
use hsin_rs.Prelude.{String, Text, Result}

pub record ParseEnumError : Type 0 where
  pub kind : String
  pub value : Text

pub record ValidationError : Type 0 where
  pub field : String
  pub reason : String

-- `Result<T, ValidationError>`
abbrev pub Checked {ℓ} : Type ℓ → Type ℓ
Checked A = Result ValidationError A

-- `ValidationError::new`
abbrev pub invalid : String → String → ValidationError
invalid field reason = record { field = field; reason = reason }
