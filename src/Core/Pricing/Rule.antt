-- ===== src/Core/Pricing/Rule.antt =====
-- `ModelPrice` and `best_model_price` of crates/hsin-core/src/lib.rs. The prices are `f64`: their
-- type and arithmetic are a parameter, and which rule is best does not depend on them.
pub mod Best
use hsin_rs.Prelude.{
  ℕ, ℤ, ltb, ◌==◌, Bool, true, false, ◌&&◌, ◌||◌, Option, none, some, List, [], ◌∷◌, Text, codes,
  text_eq, lower, strip_suffix, starts_with, utf8_len, u64_max, and_then, unwrap_or, if◌then◌else◌,
}
use hsin_rs.Core.Usage.{UsageTokenSummary}
use hsin_rs.Core.Pricing.Name.{normalize_model_name}

pub data ModelPriceSource : Type 0 where
  builtin remote user : ModelPriceSource

-- The operations on `f64` that the cost is made of.
pub record Floats : Type 1 where
  pub F64 : Type 0
  pub from_u64 : ℕ → F64
  pub add : F64 → F64 → F64
  pub mul : F64 → F64 → F64
  pub div : F64 → F64 → F64

pub record ModelPrice (F : Type 0) : Type 0 where
  pub id : Text
  pub model_pattern : Text
  pub provider_id : Option Text
  pub currency : Text
  pub input : F
  pub cache_write : Option F
  pub cache_read : Option F
  pub output : F
  pub source : ModelPriceSource
  pub updated_at : ℤ  -- i64

-- The fit of a rule: whether it is scoped to the provider, its source, and the length matched.
pub record Rank : Type 0 where
  pub scoped : ℕ  -- u8
  pub source : ℕ  -- u8
  pub length : ℕ  -- usize

abbrev pub source_rank : ModelPriceSource → ℕ
source_rank builtin = 0
source_rank remote = 1
source_rank user = 2

-- `none` is a rule for another provider.
unfoldable pub scope_rank : Option Text → Option Text → Option ℕ
unfolding text_eq
scope_rank none provider = some 0
scope_rank (some id) none = none
scope_rank (some id) (some provider) = if text_eq id provider then some 1 else none

-- How much of `model`, a normalized name, the pattern fits.
unfoldable pub pattern_rank : Text → Text → Option ℕ
unfolding strip_suffix starts_with normalize_model_name text_eq lower utf8_len
pattern_rank model_pattern model =
    let pattern = lower model_pattern in
    elim (strip_suffix (codes "*") pattern) [
      | some prefix ↦ if starts_with prefix model then some (utf8_len prefix) else none
      | none ↦ if text_eq (normalize_model_name pattern) model then some u64_max else none
    ]

module _ {F : Type 0} where
  unfoldable pub specificity : ModelPrice F → Option Text → Text → Option Rank
  unfolding scope_rank pattern_rank
  specificity p provider model = and_then (scope_rank p.provider_id provider) λ scoped.
      and_then (pattern_rank p.model_pattern (normalize_model_name model))
        λ fit. some (record { scoped = scoped; source = source_rank p.source; length = fit })

-- The order of tuples is lexicographic.
unfoldable pub rank_lt : Rank → Rank → Bool
rank_lt a b =
    ltb a.scoped b.scoped
    || (a.scoped == b.scoped
        && (ltb a.source b.source || (a.source == b.source && ltb a.length b.length)))

module _ {F : Type 0} where
  -- `max_by_key` gives the last of several greatest elements.
  abbrev pub better :
      Option (Rank × ModelPrice F) → Rank → ModelPrice F → Option (Rank × ModelPrice F)
  better none r p = some (r, p)
  better (some (q, x)) r p = if rank_lt r q then some (q, x) else some (r, p)

  abbrev pub consider :
      Option (Rank × ModelPrice F) → Option Rank → ModelPrice F → Option (Rank × ModelPrice F)
  consider best none p = best
  consider best (some r) p = better best r p

  unfoldable pub best_from :
      Option (Rank × ModelPrice F)
      → List (ModelPrice F)
      → Option Text
      → Text
      → Option (Rank × ModelPrice F)
  unfolding specificity rank_lt
  best_from best [] provider model = best
  best_from best (p ∷ prices) provider model =
      best_from (consider best (specificity p provider model) p) prices provider model

  unfoldable pub best_model_price : List (ModelPrice F) → Option Text → Text → Option (ModelPrice F)
  unfolding best_from
  best_model_price prices provider model =
      and_then (best_from none prices provider model) λ (best : Rank × ModelPrice F). some best.1

-- `ModelPrice::cost`; a missing cache price falls back to the input price.
module _ (floats : Floats) where
  open floats use {F64, from_u64, add, mul, div}

  abbrev per_million : ℕ → F64 → F64
  per_million count price = div (mul (from_u64 count) price) (from_u64 1_000_000)

  pub cost : ModelPrice F64 → UsageTokenSummary → F64
  cost p tokens =
      add
        (add
          (add (per_million tokens.input_tokens p.input)
            (per_million tokens.cache_write_tokens (unwrap_or p.cache_write p.input)))
          (per_million tokens.cache_read_tokens (unwrap_or p.cache_read p.input)))
        (per_million tokens.output_tokens p.output)
