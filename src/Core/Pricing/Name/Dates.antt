-- ===== src/Core/Pricing/Name/Dates.antt =====
-- A trailing release date is recognised and cut off.
use hsin_rs.Prelude.{
  ℕ, suc, ◌+◌, ◌-◌, ◌<◌, ltb, ◌==◌, true, false, [], ◌∷◌, ◌++◌, Text, lower, lower_char, length,
  length-append, take, drop, take-length, all_of, is_ascii_digit, ◌≡◌, refl, ap, arith, lt→ltb,
}
use mathlib.Core.List.{append-nil}
use hsin_rs.Core.Pricing.Name.{date_suffix, without_date}

-- The dates that gateways append to a model name: none, `-20250805`, or `-2025-08-05`.
pub data IsDate : Text → Type 0 where
  undated : IsDate []
  compact :
      (a b c d e f g h : ℕ)
      → all_of is_ascii_digit (a ∷ b ∷ c ∷ d ∷ e ∷ f ∷ g ∷ h ∷ []) ≡ true
      → IsDate (b'-' ∷ a ∷ b ∷ c ∷ d ∷ e ∷ f ∷ g ∷ h ∷ [])
  dashed :
      (a b c d e f g h : ℕ)
      → all_of is_ascii_digit (a ∷ b ∷ c ∷ d ∷ e ∷ f ∷ g ∷ h ∷ []) ≡ true
      → IsDate (b'-' ∷ a ∷ b ∷ c ∷ d ∷ b'-' ∷ e ∷ f ∷ b'-' ∷ g ∷ h ∷ [])

drop-length_add : (x y : Text) (k : ℕ) → drop (length x + k) (x ++ y) ≡ drop k y
drop-length_add [] y k = let e : 0 + k ≡ k = omega arith in rw e
drop-length_add (c ∷ x) y k =
    let e : suc (length x) + k ≡ suc (length x + k) = omega arith in rw e (drop-length_add x y k)

-- What the tests at an offset from the end see is what stands at that place of the date.
from_end :
    (x y : Text) (k : ℕ) (j : ℕ)
    → length (x ++ y) ≡ length x + k + j
    → drop (length (x ++ y) - j) (x ++ y) ≡ drop k y
from_end x y k j e =
    let n : length (x ++ y) - j ≡ length x + k = omega (arith, e) in rw n (drop-length_add x y k)

digit_lower : (c : ℕ) → is_ascii_digit c ≡ true → lower_char c ≡ c
unfolding is_ascii_digit lower_char
digit_lower c h = ground arith

date_suffix-compact :
    (x : Text) (a b c d e f g h : ℕ)
    → 0 < length x
    → all_of is_ascii_digit (a ∷ b ∷ c ∷ d ∷ e ∷ f ∷ g ∷ h ∷ []) ≡ true
    → date_suffix (x ++ b'-' ∷ a ∷ b ∷ c ∷ d ∷ e ∷ f ∷ g ∷ h ∷ []) ≡ 9
unfolding date_suffix
date_suffix-compact x a b c d e f g h pos ok =
    let y = b'-' ∷ a ∷ b ∷ c ∷ d ∷ e ∷ f ∷ g ∷ h ∷ [] in
    let n = length-append x y in
    let width : length (x ++ y) - (length (x ++ y) - 8) ≡ 8 = omega (arith, n) in
    rw (lt→ltb 9 (length (x ++ y)) (omega (arith, n))) (
      rw (from_end x y 0 9 (omega (arith, n)))
        (rw (from_end x y 1 8 (omega (arith, n))) (rw width (rw ok))))

dashed_short : (b : ℕ) → is_ascii_digit b ≡ true → (b == b'-') ≡ false
unfolding is_ascii_digit
dashed_short b h = ground arith

date_suffix-dashed :
    (x : Text) (a b c d e f g h : ℕ)
    → 0 < length x
    → all_of is_ascii_digit (a ∷ b ∷ c ∷ d ∷ e ∷ f ∷ g ∷ h ∷ []) ≡ true
    → date_suffix (x ++ b'-' ∷ a ∷ b ∷ c ∷ d ∷ b'-' ∷ e ∷ f ∷ b'-' ∷ g ∷ h ∷ []) ≡ 11
unfolding date_suffix
date_suffix-dashed x a b c d e f g h pos ok =
    let y = b'-' ∷ a ∷ b ∷ c ∷ d ∷ b'-' ∷ e ∷ f ∷ b'-' ∷ g ∷ h ∷ [] in
    let n = length-append x y in
    let four : length (x ++ y) - 6 - (length (x ++ y) - 10) ≡ 4 = omega (arith, n) in
    let two : length (x ++ y) - 3 - (length (x ++ y) - 5) ≡ 2 = omega (arith, n) in
    let two' : length (x ++ y) - (length (x ++ y) - 2) ≡ 2 = omega (arith, n) in
    let long : ltb 11 (length (x ++ y)) ≡ true = lt→ltb 11 (length (x ++ y)) (omega (arith, n)) in
    let long' : ltb 9 (length (x ++ y)) ≡ true = lt→ltb 9 (length (x ++ y)) (omega (arith, n)) in
    simp
      (
        long,
        long',
        four,
        two,
        two',
        from_end x y 2 9 (omega (arith, n)),
        from_end x y 0 11 (omega (arith, n)),
        from_end x y 5 6 (omega (arith, n)),
        from_end x y 8 3 (omega (arith, n)),
        from_end x y 1 10 (omega (arith, n)),
        from_end x y 6 5 (omega (arith, n)),
        from_end x y 9 2 (omega (arith, n)),
      )
      (ground (arith, dashed_short b))

-- Cutting the date off a name that has none of its own gives the name.
pub without_date-append :
    (x : Text) {d : Text} → IsDate d → 0 < length x → date_suffix x ≡ 0 → without_date (x ++ d) ≡ x
without_date-append x undated pos none = rw append-nil (rw none (take_all x))
  where
    take_all : (s : Text) → take (length s - 0) s ≡ s
    take_all s =
        let e : length s - 0 ≡ length s = omega arith in
        rw e (let t = take-length s [] in rw append-nil at t)
without_date-append x (compact a b c d e f g h ok) pos none =
    let y = b'-' ∷ a ∷ b ∷ c ∷ d ∷ e ∷ f ∷ g ∷ h ∷ [] in
    let n : length (x ++ y) - 9 ≡ length x = omega (arith, length-append x y) in
    rw (date_suffix-compact x a b c d e f g h pos ok) (rw n (take-length x y))
without_date-append x (dashed a b c d e f g h ok) pos none =
    let y = b'-' ∷ a ∷ b ∷ c ∷ d ∷ b'-' ∷ e ∷ f ∷ b'-' ∷ g ∷ h ∷ [] in
    let n : length (x ++ y) - 11 ≡ length x = omega (arith, length-append x y) in
    rw (date_suffix-dashed x a b c d e f g h pos ok) (rw n (take-length x y))

digits_lower : (s : Text) → all_of is_ascii_digit s ≡ true → lower s ≡ s
unfolding lower
digits_lower [] h = refl
digits_lower (c ∷ s) h = cc (digit_lower c (ground arith), digits_lower s (ground arith))

-- A date is not changed by lowercasing.
pub lower-IsDate : {d : Text} → IsDate d → lower d ≡ d
unfolding lower
lower-IsDate undated = refl
lower-IsDate (compact a b c d e f g h ok) =
    ap (λ s. b'-' ∷ s) (digits_lower (a ∷ b ∷ c ∷ d ∷ e ∷ f ∷ g ∷ h ∷ []) ok)
lower-IsDate (dashed a b c d e f g h ok) = cc (digits_lower (a ∷ b ∷ c ∷ d ∷ e ∷ f ∷ g ∷ h ∷ []) ok)
