-- ===== src/Core/Pricing/Name/Spelling.antt =====
-- Every spelling of a model that gateways use is normalized to the same name.
use mathlib.Core.List.{append-nil, append_assoc}
use hsin_rs.Prelude.{
  ℕ, ◌<◌, ◌==◌, true, false, ◌||◌, Option, none, some, [], ◌∷◌, ◌++◌, Text, trim, lower, lower_char,
  length, contains_char, is_ascii_digit, ◌≡◌, refl, ap, ◌∙◌, arith,
}
use hsin_rs.Core.Pricing.Name.{normalize_model_name, before_first, after_last, date_suffix}
use hsin_rs.Core.Pricing.Name.Dates.{IsDate, without_date-append, lower-IsDate}

lower-append : (s t : Text) → lower (s ++ t) ≡ lower s ++ lower t
unfolding lower
lower-append [] t = refl
lower-append (c ∷ s) t = ap (λ r. lower_char c ∷ r) (lower-append s t)

length-lower : (s : Text) → length (lower s) ≡ length s
unfolding lower
length-lower [] = refl
length-lower (c ∷ s) = omega (arith, length-lower s)

slash_lower : (d : ℕ) → (lower_char d == b'/') ≡ (d == b'/')
unfolding lower_char
slash_lower d = ground arith

bracket_lower : (d : ℕ) → (lower_char d == b'[') ≡ (d == b'[')
unfolding lower_char
bracket_lower d = ground arith

contains_char-lower :
    (c : ℕ) (s : Text)
    → ((d : ℕ) → (lower_char d == c) ≡ (d == c))
    → contains_char c (lower s) ≡ contains_char c s
unfolding contains_char lower
contains_char-lower c [] h = refl
contains_char-lower c (d ∷ s) h = cc (h d, contains_char-lower c s h)

contains_char-append :
    (c : ℕ) (s t : Text) → contains_char c (s ++ t) ≡ (contains_char c s || contains_char c t)
unfolding contains_char
contains_char-append c [] t = refl
contains_char-append c (d ∷ s) t = ground (arith, contains_char-append c s t)

before_first-absent : (c : ℕ) (s : Text) → contains_char c s ≡ false → before_first c s ≡ s
unfolding before_first contains_char
before_first-absent c [] h = refl
before_first-absent c (d ∷ s) h = ground (arith, before_first-absent c s)

before_first-at : (c : ℕ) (s t : Text) → contains_char c s ≡ false → before_first c (s ++ c ∷ t) ≡ s
unfolding before_first contains_char
before_first-at c [] t h = ground arith
before_first-at c (d ∷ s) t h = ground (arith, before_first-at c s t)

after_last-absent : (c : ℕ) (s : Text) → contains_char c s ≡ false → after_last c s ≡ s
unfolding after_last contains_char
after_last-absent c [] h = refl
after_last-absent c (d ∷ s) h = ground arith

contains_char-at : (c : ℕ) (s t : Text) → contains_char c (s ++ c ∷ t) ≡ true
unfolding contains_char
contains_char-at c [] t = ground arith
contains_char-at c (d ∷ s) t = ground (arith, contains_char-at c s t)

after_last-at : (c : ℕ) (s t : Text) → contains_char c t ≡ false → after_last c (s ++ c ∷ t) ≡ t
unfolding after_last
after_last-at c [] t h = ground (arith, h)
after_last-at c (d ∷ s) t h = rw (contains_char-at c s t) (after_last-at c s t h)

-- A vendor prefix and a context suffix, where there are any.
abbrev vendor_prefix : Option Text → Text
vendor_prefix none = []
vendor_prefix (some v) = v ++ b'/' ∷ []

abbrev context_suffix : Option Text → Text
context_suffix none = []
context_suffix (some c) = b'[' ∷ c ++ b']' ∷ []

abbrev pub spelled : Option Text → Text → Text → Option Text → Text
spelled vendor m date context = vendor_prefix vendor ++ (m ++ (date ++ context_suffix context))

-- A bare model name: not empty, with no bracket, slash or release date of its own.
pub record IsBare (m : Text) : Type 0 where
  pub present : 0 < length m
  pub no_bracket : contains_char b'[' m ≡ false
  pub no_slash : contains_char b'/' m ≡ false
  pub no_date : date_suffix (lower m) ≡ 0

abbrev pub NoBracket : Option Text → Type 0
NoBracket none = Unit
NoBracket (some v) = contains_char b'[' v ≡ false

date-no_bracket : {d : Text} → IsDate d → contains_char b'[' d ≡ false
unfolding contains_char is_ascii_digit
date-no_bracket IsDate.undated = refl
date-no_bracket (IsDate.compact a b c d e f g h ok) = ground arith
date-no_bracket (IsDate.dashed a b c d e f g h ok) = ground arith

date-no_slash : {d : Text} → IsDate d → contains_char b'/' d ≡ false
unfolding contains_char is_ascii_digit
date-no_slash IsDate.undated = refl
date-no_slash (IsDate.compact a b c d e f g h ok) = ground arith
date-no_slash (IsDate.dashed a b c d e f g h ok) = ground arith

vendor-NoBracket : (v : Option Text) → NoBracket v → contains_char b'[' (vendor_prefix v) ≡ false
unfolding contains_char
vendor-NoBracket none h = refl
vendor-NoBracket (some v) h = rw (contains_char-append b'[' v (b'/' ∷ [])) (rw h)

cut_context :
    (x : Text) (context : Option Text)
    → contains_char b'[' x ≡ false
    → before_first b'[' (lower (x ++ context_suffix context)) ≡ lower x
unfolding lower lower_char
cut_context x none h =
    rw append-nil
      (before_first-absent b'[' (lower x) (contains_char-lower b'[' x bracket_lower ∙ h))
cut_context x (some c) h = rw (lower-append x (context_suffix (some c))) (
    before_first-at b'[' (lower x) (lower (c ++ b']' ∷ []))
      (contains_char-lower b'[' x bracket_lower ∙ h))

cut_vendor :
    (v : Option Text) (y : Text)
    → contains_char b'/' y ≡ false
    → after_last b'/' (lower (vendor_prefix v ++ y)) ≡ lower y
unfolding lower lower_char
cut_vendor none y h = after_last-absent b'/' (lower y) (contains_char-lower b'/' y slash_lower ∙ h)
cut_vendor (some v) y h = rw (append_assoc v (b'/' ∷ []) y) (
    rw (lower-append v (b'/' ∷ y))
      (after_last-at b'/' (lower v) (lower y) (contains_char-lower b'/' y slash_lower ∙ h)))

-- All spellings of one bare model name with no blanks around them have one normal form, its lower
-- case: with or without a vendor prefix, a release date in either form, and a context suffix.
pub normalize_model_name-spelled :
    (vendor : Option Text) (m : Text) {date : Text} (context : Option Text)
    → IsBare m
    → IsDate date
    → NoBracket vendor
    → trim (spelled vendor m date context) ≡ spelled vendor m date context
    → normalize_model_name (spelled vendor m date context) ≡ lower m
unfolding normalize_model_name
normalize_model_name-spelled vendor m {date} context bare d nb tr =
    let y = m ++ date in
    let x = vendor_prefix vendor ++ y in
    let whole : spelled vendor m date context ≡ x ++ context_suffix context = simp append_assoc in
    let no_bracket : contains_char b'[' x ≡ false =
      simp (contains_char-append, vendor-NoBracket vendor nb, bare.no_bracket, date-no_bracket d) in
    let no_slash : contains_char b'/' y ≡ false =
      simp (contains_char-append, bare.no_slash, date-no_slash d) in
    rw tr (
      rw whole (
        rw (cut_context x context no_bracket) (
          rw (cut_vendor vendor y no_slash) (
            rw (lower-append m date, lower-IsDate d)
              (without_date-append (lower m) d (omega (arith, length-lower m, bare.present))
                bare.no_date)))))
