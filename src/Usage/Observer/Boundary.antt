-- ===== src/Usage/Observer/Boundary.antt =====
-- Where the first event of a stream ends (`sse_boundary` of crates/hsind/src/usage.rs), when more of the stream comes.
use hsin_rs.Prelude.{
  none-some, ℕ, zero, suc, ◌+◌, ◌≤◌, ◌==◌, Bool, true, false, Option, none, some, is_some, [], ◌∷◌,
  ◌++◌, All, length, drop, starts_with, strip_prefix, Bool-cases, if◌then◌else◌, Option-cases,
  and_then, or_else, inl, inr, ◌≡◌, refl, ap, sym, ◌∙◌, arith,
}
use hsin_rs.Ipc.Protocol.{Bytes}
use hsin_rs.Usage.Observer.{position, sse_boundary}

-- A stream whose lines end in a line feed only.
abbrev pub HasNoReturn : Bytes → Type 0
HasNoReturn bytes = All (λ b. (b == b'\r') ≡ false) bytes

ap_is_some :
    (t : Bool) (x y : Option Bytes)
    → is_some x ≡ is_some y
    → is_some (if t then x else none) ≡ is_some (if t then y else none)
ap_is_some true x y h = h
ap_is_some false x y h = refl

if_true : {A : Type 0} {t : Bool} (x y : A) → t ≡ true → (if t then x else y) ≡ x
if_true x y h = ap (λ t. if t then x else y) h

if_false : {A : Type 0} {t : Bool} (x y : A) → t ≡ false → (if t then x else y) ≡ y
if_false x y h = ap (λ t. if t then x else y) h

starts_with-append :
    (p s b : Bytes) → length p ≤ length s → starts_with p (s ++ b) ≡ starts_with p s
unfolding starts_with strip_prefix
starts_with-append [] s b h = refl
starts_with-append (d ∷ p) [] b h = absurd (omega arith)
starts_with-append (d ∷ p) (c ∷ s) b h =
    ap_is_some (d == c) (strip_prefix p (s ++ b)) (strip_prefix p s)
      (starts_with-append p s b (omega arith))

starts_with-fits : (p s : Bytes) → starts_with p s ≡ true → length p ≤ length s
unfolding starts_with strip_prefix
starts_with-fits [] s h = omega arith
starts_with-fits (d ∷ p) [] h = cc
starts_with-fits (d ∷ p) (c ∷ s) h = ground (arith, starts_with-fits p s)

abbrev up : Option ℕ → Option ℕ
up o = and_then o (λ n. some (suc n))

position-append :
    (p s b : Bytes) {i : ℕ}
    → position p s ≡ some i
    → (position p (s ++ b) ≡ some i) × (i + length p ≤ length s)
unfolding position
position-append p [] b h = cc
position-append p (c ∷ s) b {i} h = elim (Bool-cases (starts_with p (c ∷ s))) [
  | inl e ↦
      let fits = starts_with-fits p (c ∷ s) e in
      let found = sym (if_true (some 0) (up (position p s)) e) ∙ h in
      (
        if_true (some 0) (up (position p (s ++ b))) (starts_with-append p (c ∷ s) b fits ∙ e)
            ∙ found,
        let first : 0 ≡ i = cc in omega (arith, fits, first),
      )
  | inr e ↦
      let found = sym (if_false (some 0) (up (position p s)) e) ∙ h in
      elim (Option-cases (position p s)) [
        | inl n ↦ absurd (none-some (ap up (sym n) ∙ found))
        | inr (j, at) ↦
            let (same, fits) = position-append p s b at in
            let here : some (suc j) ≡ some i = ap up (sym at) ∙ found in
            (
              if_false (some 0) (up (position p (s ++ b)))
                    (starts_with-append p (c ∷ s) b (omega arith) ∙ e)
                  ∙ ap up same
                  ∙ here,
              let later : suc j ≡ i = cc in omega (arith, fits, later),
            )
      ]
]

return_apart : (c : ℕ) → (c == b'\r') ≡ false → (b'\r' == c) ≡ false
return_apart c h = ground arith

abbrev feeds : Bytes
feeds = b'\n' ∷ b'\n' ∷ []

abbrev returns : Bytes
returns = b'\r' ∷ b'\n' ∷ b'\r' ∷ b'\n' ∷ []

abbrev boundary_of : Option ℕ → Option ℕ → Option (ℕ × ℕ)
boundary_of lf crlf = or_else (and_then lf (λ i. some (i, 2))) (and_then crlf (λ i. some (i, 4)))

position-return : (p s : Bytes) → HasNoReturn s → position (b'\r' ∷ p) s ≡ none
unfolding position starts_with strip_prefix
position-return p [] clean = refl
position-return p (c ∷ s) clean =
    if_false _ (up (position (b'\r' ∷ p) s)) (ap is_some (if_false _ none (return_apart c clean.0)))
    ∙ ap up (position-return p s clean.1)

-- The first event of a buffer is that of a longer one.
pub sse_boundary-append :
    (s b : Bytes) {r : ℕ × ℕ}
    → HasNoReturn s
    → sse_boundary s ≡ some r
    → (sse_boundary (s ++ b) ≡ some r) × (r.0 + r.1 ≤ length s)
unfolding sse_boundary
sse_boundary-append s b {r} clean h = elim (Option-cases (position feeds s)) [
  | inl n ↦ absurd (
      none-some (
        sym (
          ap (λ lf. boundary_of lf (position returns s)) n
          ∙ ap (boundary_of none) (position-return (b'\n' ∷ b'\r' ∷ b'\n' ∷ []) s clean))
        ∙ h))
  | inr (i, at) ↦
      let (same, fits) = position-append feeds s b at in
      let here : some (i, 2) ≡ some r =
        ap (λ lf. boundary_of lf (position returns s)) (sym at) ∙ h in
      let e : (i, 2) ≡ r = cc in
      (
        ap (λ lf. boundary_of lf (position returns (s ++ b))) same ∙ here,
        omega (arith, fits, ap (λ t. t.0) e, ap (λ t. t.1) e),
      )
]

pub drop-append : (n : ℕ) (s b : Bytes) → n ≤ length s → drop n (s ++ b) ≡ drop n s ++ b
drop-append zero s b h = refl
drop-append (suc n) [] b h = absurd (omega arith)
drop-append (suc n) (x ∷ s) b h = drop-append n s b (omega arith)

pub drop-HasNoReturn : (n : ℕ) (s : Bytes) → HasNoReturn s → HasNoReturn (drop n s)
drop-HasNoReturn zero s h = h
drop-HasNoReturn (suc n) [] h = h
drop-HasNoReturn (suc n) (x ∷ s) h = drop-HasNoReturn n s h.1
