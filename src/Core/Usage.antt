-- ===== src/Core/Usage.antt =====
-- `UsageTokenSummary` of crates/hsin-core/src/lib.rs.
pub mod Totals
use hsin_rs.Prelude.{ℕ, ◌*◌, ◌/◌, min, ◌==◌, saturating_add, saturating_mul, if◌then◌else◌}

pub record UsageTokenSummary : Type 0 where
  pub input_tokens : ℕ  -- u64, as all of them
  pub cache_write_tokens : ℕ
  pub cache_read_tokens : ℕ
  pub output_tokens : ℕ
  pub reasoning_output_tokens : ℕ
  pub request_count : ℕ

unfoldable pub non_hit_tokens : UsageTokenSummary → ℕ
non_hit_tokens t = saturating_add t.input_tokens t.cache_write_tokens

unfoldable pub total_tokens : UsageTokenSummary → ℕ
total_tokens t =
    saturating_add
      (saturating_add (saturating_add t.input_tokens t.cache_write_tokens) t.cache_read_tokens)
      t.output_tokens

-- `cache_hit_rate` in millionths: the source divides this number by 1_000_000.0 at the end.
unfoldable pub cache_hit_millionths : UsageTokenSummary → ℕ
cache_hit_millionths t =
    let input =
      saturating_add (saturating_add t.input_tokens t.cache_write_tokens) t.cache_read_tokens in
    if input == 0 then 0 else min (saturating_mul t.cache_read_tokens 1_000_000 / input) 1_000_000
