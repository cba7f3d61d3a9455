-- ===== src/Core/Pricing/Name.antt =====
-- `normalize_model_name` of crates/hsin-core/src/lib.rs. The source measures the name in bytes; the
-- suffixes that it looks for are ASCII, and a date has something before it in bytes exactly when
-- it has something before it in characters, so the model counts characters.
pub mod Dates
pub mod Spelling
use hsin_rs.Prelude.{
  ℕ, ◌-◌, ltb, ◌==◌, Bool, true, false, ◌&&◌, List, [], ◌∷◌, Text, text_eq, trim, lower, length,
  take, drop, all_of, is_ascii_digit, contains_char, if◌then◌else◌,
}

-- `find` and `truncate`: what stands before the first `c`
unfoldable pub before_first : ℕ → Text → Text
before_first c [] = []
before_first c (d ∷ s) = let rest = before_first c s in if d == c then [] else d ∷ rest

-- `rfind` and the slice after it: what stands after the last `c`, if there is one
unfoldable pub after_last : ℕ → Text → Text
unfolding contains_char
after_last c [] = []
after_last c (d ∷ s) =
    let rest = after_last c s in if contains_char c s then rest else if d == c then s else d ∷ s

abbrev pub is_at : ℕ → ℕ → Text → Bool
is_at c i s = text_eq (take 1 (drop i s)) (c ∷ [])

abbrev pub is_digits : ℕ → ℕ → Text → Bool
is_digits lo hi s = all_of is_ascii_digit (take (hi - lo) (drop lo s))

-- The length of a trailing `-20250805` or `-2025-08-05`.
unfoldable pub date_suffix : Text → ℕ
unfolding text_eq is_ascii_digit
date_suffix s =
    let n = length s in
    if ltb 9 n && (is_at b'-' (n - 9) s && is_digits (n - 8) n s)
    then 9
    else if ltb 11 n
        && (is_at b'-' (n - 11) s
            && (is_at b'-' (n - 6) s
                && (is_at b'-' (n - 3) s
                    && (is_digits (n - 10) (n - 6) s
                        && (is_digits (n - 5) (n - 3) s && is_digits (n - 2) n s)))))
    then 11
    else 0

abbrev pub without_date : Text → Text
without_date s = take (length s - date_suffix s) s

unfoldable pub normalize_model_name : Text → Text
unfolding before_first after_last date_suffix trim lower
normalize_model_name model = without_date (after_last b'/' (before_first b'[' (lower (trim model))))
