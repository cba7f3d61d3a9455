-- ===== src/Core/Enums/Parse.antt =====
-- Every enum is read back from its text form, whatever its case and the blanks around it.
use hsin_rs.Prelude.{
  Text, true, ◌++◌, ◌≡◌, ok, lower, eq_ignore_ascii_case, text_eq→eq, IsBlank, trim_padded,
  trim-lower,
}
use hsin_rs.Core.Enums.Interface.{EnumText, from_str}

-- For every enum with a text form: a text that equals the form of `a` up to ASCII case, with any
-- blanks before and after it, parses to `a`.
pub from_str-as_str {ℓ} :
    {A : Type ℓ} ⦃e : EnumText A⦄ (a : A) (l v r : Text)
    → IsBlank l
    → IsBlank r
    → eq_ignore_ascii_case v (e.as_str a) ≡ true
    → from_str (l ++ (v ++ r)) ≡ ok a
unfolding from_str eq_ignore_ascii_case
from_str-as_str ⦃e⦄ a l v r hl hr h =
    let same : lower v ≡ lower (e.as_str a) = text_eq→eq (lower v) (lower (e.as_str a)) h in
    rw (trim_padded l v r hl hr)
      (rw (← trim-lower v) (rw same (rw (e.as_str_normal a) (rw (e.arms-as_str a)))))
