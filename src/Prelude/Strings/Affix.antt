-- ===== src/Prelude/Strings/Affix.antt =====
-- Prefixes and suffixes of a text.
use Prim.Native.Nat.{ℕ}
use mathlib.Core.Path.{◌≡◌, refl, ap}
use mathlib.Core.Logic.{inl, inr}
use mathlib.Core.Bool.{Bool, false, ◌||◌}
use mathlib.Core.Option.{Option, none, some}
use mathlib.Core.List.{[], ◌∷◌, ◌++◌}
use native.Mathlib.Omega.{arith}
use hsin_rs.Prelude.Tests.{◌==◌, if◌then◌else◌, Bool-cases, is_some}
use hsin_rs.Prelude.Lists.{length, length-append}
use hsin_rs.Prelude.Strings.Defs.{Text, text_eq, text_eq→eq, text_eq_refl}

-- `str::strip_prefix` and `str::strip_suffix`
unfoldable pub strip_prefix : Text → Text → Option Text
strip_prefix [] s = some s
strip_prefix (d ∷ p) [] = none
strip_prefix (d ∷ p) (c ∷ s) = if d == c then strip_prefix p s else none

abbrev cons_some : ℕ → Option Text → Option Text
cons_some c none = none
cons_some c (some s) = some (c ∷ s)

unfoldable pub strip_suffix : Text → Text → Option Text
unfolding text_eq
strip_suffix p [] = if text_eq [] p then some [] else none
strip_suffix p (c ∷ s) = if text_eq (c ∷ s) p then some [] else cons_some c (strip_suffix p s)

unfoldable pub starts_with : Text → Text → Bool
unfolding strip_prefix
starts_with p s = is_some (strip_prefix p s)

unfoldable pub ends_with : Text → Text → Bool
unfolding strip_suffix
ends_with p s = is_some (strip_suffix p s)

unfoldable pub contains_char : ℕ → Text → Bool
contains_char c [] = false
contains_char c (d ∷ s) = d == c || contains_char c s

pub strip_prefix-append : (p s : Text) → strip_prefix p (p ++ s) ≡ some s
unfolding strip_prefix
strip_prefix-append [] s = refl
strip_prefix-append (d ∷ p) s = ground (arith, strip_prefix-append p s)

pub strip_prefix-eq-some : (p s : Text) {r : Text} → strip_prefix p s ≡ some r → s ≡ p ++ r
unfolding strip_prefix
strip_prefix-eq-some [] s h = cc
strip_prefix-eq-some (d ∷ p) [] h = cc
strip_prefix-eq-some (d ∷ p) (c ∷ s) {r} h = ground (arith, strip_prefix-eq-some p s {r = r})

pub strip_suffix-eq-some : (p s : Text) {r : Text} → strip_suffix p s ≡ some r → s ≡ r ++ p
unfolding strip_suffix
strip_suffix-eq-some p [] {r} h = ground (arith, text_eq→eq [] p)
strip_suffix-eq-some p (c ∷ s) {r} h = elim (Bool-cases (text_eq (c ∷ s) p)) [
  | inl e ↦ ground (arith, text_eq→eq (c ∷ s) p e)
  | inr e ↦ step (strip_suffix p s) (λ t. strip_suffix-eq-some p s {r = t}) (rw e at h)
]
  where
    step :
        (o : Option Text)
        → ((t : Text) → o ≡ some t → s ≡ t ++ p)
        → cons_some c o ≡ some r
        → c ∷ s ≡ r ++ p
    step none f h = cc
    step (some t) f h = cc (f t refl)

longer_ne : (c : ℕ) (s p : Text) → text_eq (c ∷ s ++ p) p ≡ false
longer_ne c s p = elim (Bool-cases (text_eq (c ∷ s ++ p) p)) [
  | inl e ↦ absurd (omega (arith, ap length (text_eq→eq (c ∷ s ++ p) p e), length-append s p))
  | inr e ↦ e
]

pub strip_suffix-append : (p s : Text) → strip_suffix p (s ++ p) ≡ some s
unfolding strip_suffix
strip_suffix-append p [] = whole p
  where
    whole : (q : Text) → strip_suffix q q ≡ some []
    whole [] = refl
    whole (d ∷ q) = rw (text_eq_refl (d ∷ q))
strip_suffix-append p (c ∷ s) = rw (longer_ne c s p) (rw (strip_suffix-append p s))
