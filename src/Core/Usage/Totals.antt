-- ===== src/Core/Usage/Totals.antt =====
-- The totals against exact arithmetic.
use hsin_rs.Prelude.{ℕ, ◌+◌, ◌*◌, ◌/◌, ◌≤◌, ◌<◌, min, u64_max, ◌≡◌, arith}
use hsin_rs.Core.Usage.{UsageTokenSummary, total_tokens, non_hit_tokens, cache_hit_millionths}

-- The total is the exact sum of the four counts, cut off at the largest u64; it is never less than
-- what was not read from the cache, and that is at most the total.
pub total_tokens-eq-min :
    (t : UsageTokenSummary)
    → (total_tokens t
        ≡ min
            (t.input_tokens + t.cache_write_tokens + t.cache_read_tokens + t.output_tokens)
            u64_max)
      × (non_hit_tokens t ≤ total_tokens t)
unfolding total_tokens non_hit_tokens
total_tokens-eq-min t = (omega arith, omega arith)

div_bound : (a b c : ℕ) → 0 < b → a ≤ c * b → a / b ≤ c
div_bound a b c h k = grind arith

-- Where there are input tokens, and their sum and a million times those read from the cache fit into
-- a u64, the hit rate is the exact quotient, rounded down to millionths.
pub cache_hit_millionths_exact :
    (t : UsageTokenSummary)
    → t.input_tokens + t.cache_write_tokens + t.cache_read_tokens ≤ u64_max
    → t.cache_read_tokens * 1_000_000 ≤ u64_max
    → 0 < t.input_tokens + t.cache_write_tokens + t.cache_read_tokens
    → cache_hit_millionths t
      ≡ t.cache_read_tokens
        * 1_000_000
        / (t.input_tokens + t.cache_write_tokens + t.cache_read_tokens)
unfolding cache_hit_millionths
cache_hit_millionths_exact t fits fits' pos = ground (
  arith,
  div_bound (t.cache_read_tokens * 1_000_000)
      (t.input_tokens + t.cache_write_tokens + t.cache_read_tokens) 1_000_000,
)
