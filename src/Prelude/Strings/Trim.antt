-- ===== src/Prelude/Strings/Trim.antt =====
-- Trimming: `str::trim`, `trim_end_matches`, and that they are idempotent.
use Prim.Native.Nat.{ℕ}
use mathlib.Core.Path.{◌≡◌, refl}
use mathlib.Core.Logic.{inl, inr}
use mathlib.Core.Bool.{Bool, true, false}
use mathlib.Core.List.{[], ◌∷◌, ◌++◌}
use native.Mathlib.Omega.{arith}
use hsin_rs.Prelude.Tests.{◌==◌, if◌then◌else◌, Bool-cases}
use hsin_rs.Prelude.Lists.{All}
use hsin_rs.Prelude.Strings.Defs.{Text, is_whitespace, lower, lower_char, is_whitespace-lower_char}

unfoldable pub trim_start_by : (ℕ → Bool) → Text → Text
trim_start_by p [] = []
trim_start_by p (c ∷ s) = let rest = trim_start_by p s in if p c then rest else c ∷ s

abbrev shed : (ℕ → Bool) → ℕ → Text → Text
shed p c [] = if p c then [] else c ∷ []
shed p c (d ∷ s) = c ∷ d ∷ s

unfoldable pub trim_end_by : (ℕ → Bool) → Text → Text
trim_end_by p [] = []
trim_end_by p (c ∷ s) = shed p c (trim_end_by p s)

unfoldable pub trim : Text → Text
unfolding trim_start_by trim_end_by is_whitespace
trim s = trim_end_by is_whitespace (trim_start_by is_whitespace s)

unfoldable pub trim_end_matches : ℕ → Text → Text
unfolding trim_end_by
trim_end_matches c s = trim_end_by (λ d. d == c) s

-- The first code point, if any, is none of those that are trimmed.
abbrev pub StartsOff : (ℕ → Bool) → Text → Type 0
StartsOff p [] = Unit
StartsOff p (c ∷ s) = p c ≡ false

module _ (p : ℕ → Bool) where
  trim_start_by-StartsOff : (s : Text) → StartsOff p (trim_start_by p s)
  unfolding trim_start_by
  trim_start_by-StartsOff [] = tt
  trim_start_by-StartsOff (c ∷ s) = elim (Bool-cases (p c)) [
    | inl e ↦ rw e (trim_start_by-StartsOff s)
    | inr e ↦ rw e e
  ]

  trim_start_by_fixed : (s : Text) → StartsOff p s → trim_start_by p s ≡ s
  unfolding trim_start_by
  trim_start_by_fixed [] h = refl
  trim_start_by_fixed (c ∷ s) h = rw h

  shed-StartsOff : (c : ℕ) (s : Text) → p c ≡ false → StartsOff p (shed p c s)
  shed-StartsOff c [] h = rw h h
  shed-StartsOff c (d ∷ s) h = h

  trim_end_by-StartsOff : (s : Text) → StartsOff p s → StartsOff p (trim_end_by p s)
  unfolding trim_end_by
  trim_end_by-StartsOff [] h = tt
  trim_end_by-StartsOff (c ∷ s) h = shed-StartsOff c (trim_end_by p s) h

  shed_idem : (c : ℕ) (s : Text) → trim_end_by p s ≡ s → trim_end_by p (shed p c s) ≡ shed p c s
  unfolding trim_end_by
  shed_idem c [] h = ground arith
  shed_idem c (d ∷ s) h = rw h

  pub trim_end_by_idem : (s : Text) → trim_end_by p (trim_end_by p s) ≡ trim_end_by p s
  unfolding trim_end_by
  trim_end_by_idem [] = refl
  trim_end_by_idem (c ∷ s) = shed_idem c (trim_end_by p s) (trim_end_by_idem s)

pub trim_idem : (s : Text) → trim (trim s) ≡ trim s
unfolding trim
trim_idem s =
    let w = is_whitespace in
    let t = trim_start_by w s in
    rw
      (trim_start_by_fixed w (trim_end_by w t)
        (trim_end_by-StartsOff w t (trim_start_by-StartsOff w s)))
      (trim_end_by_idem w t)

pub trim_start_by-lower :
    (s : Text) → trim_start_by is_whitespace (lower s) ≡ lower (trim_start_by is_whitespace s)
unfolding trim_start_by lower
trim_start_by-lower [] = refl
trim_start_by-lower (c ∷ s) = elim (Bool-cases (is_whitespace c)) [
  | inl e ↦ rw (is_whitespace-lower_char c, e) (trim_start_by-lower s)
  | inr e ↦ rw (is_whitespace-lower_char c, e)
]

lower-shed :
    (c : ℕ) (s : Text)
    → shed is_whitespace (lower_char c) (lower s) ≡ lower (shed is_whitespace c s)
unfolding lower
lower-shed c [] = elim (Bool-cases (is_whitespace c)) [
  | inl e ↦ rw (is_whitespace-lower_char c, e)
  | inr e ↦ rw (is_whitespace-lower_char c, e)
]
lower-shed c (d ∷ s) = refl

trim_end_by-lower :
    (s : Text) → trim_end_by is_whitespace (lower s) ≡ lower (trim_end_by is_whitespace s)
unfolding trim_end_by lower
trim_end_by-lower [] = refl
trim_end_by-lower (c ∷ s) = rw (trim_end_by-lower s) (lower-shed c (trim_end_by is_whitespace s))

pub trim-lower : (s : Text) → trim (lower s) ≡ lower (trim s)
unfolding trim
trim-lower s = rw trim_start_by-lower (trim_end_by-lower (trim_start_by is_whitespace s))

abbrev pub IsBlank : Text → Type 0
IsBlank = All (λ c. is_whitespace c ≡ true)

trim_start_by-blank :
    (l s : Text) → IsBlank l → trim_start_by is_whitespace (l ++ s) ≡ trim_start_by is_whitespace s
unfolding trim_start_by
trim_start_by-blank [] s h = refl
trim_start_by-blank (c ∷ l) s h = rw (h.0) (trim_start_by-blank l s h.1)

trim_end_by-blank : (r : Text) → IsBlank r → trim_end_by is_whitespace r ≡ []
unfolding trim_end_by
trim_end_by-blank [] h = refl
trim_end_by-blank (c ∷ r) h = rw (trim_end_by-blank r h.1) (rw h.0)

trim_end_by-append_blank :
    (s r : Text) → IsBlank r → trim_end_by is_whitespace (s ++ r) ≡ trim_end_by is_whitespace s
unfolding trim_end_by
trim_end_by-append_blank [] r h = trim_end_by-blank r h
trim_end_by-append_blank (c ∷ s) r h = rw (trim_end_by-append_blank s r h)

trim_start_by-all_blank : (r : Text) → IsBlank r → trim_start_by is_whitespace r ≡ []
unfolding trim_start_by
trim_start_by-all_blank [] h = refl
trim_start_by-all_blank (c ∷ r) h = rw (h.0) (trim_start_by-all_blank r h.1)

trim-append_blank : (s r : Text) → IsBlank r → trim (s ++ r) ≡ trim s
unfolding trim trim_start_by
trim-append_blank [] r h = rw (trim_start_by-all_blank r h)
trim-append_blank (c ∷ s) r h = elim (Bool-cases (is_whitespace c)) [
  | inl e ↦ rw e (trim-append_blank s r h)
  | inr e ↦ rw e (trim_end_by-append_blank (c ∷ s) r h)
]

-- Blank padding on either side is trimmed away.
pub trim_padded : (l s r : Text) → IsBlank l → IsBlank r → trim (l ++ (s ++ r)) ≡ trim s
unfolding trim
trim_padded l s r hl hr = rw (trim_start_by-blank l (s ++ r) hl) (trim-append_blank s r hr)
