-- ===== src/Core/Model/Image/Collect.antt =====
-- The loop of `CodexImageConfig::normalized` over the listed models.
use hsin_rs.Prelude.{
  ℕ, suc, ltb, ◌≤◌, ◌+◌, false, ◌||◌, List, [], ◌∷◌, ◌++◌, Text, text_eq, text_eq_comm, trim,
  trim_idem, is_nil, length, length-append, All, if◌then◌else◌, ok, refuse-then, ok-injective, ◌≡◌,
  refl, arith, Bool-cases, inl, inr, ge→ltb, ltb→ge,
}
use mathlib.Core.List.{append-nil, append_assoc}
use hsin_rs.Core.Model.Image.{has_model, collect_models}

-- A model ID as it may be stored.
pub record IsClean (m : Text) : Type 0 where
  pub trimmed : trim m ≡ m
  pub present : is_nil m ≡ false
  pub short : length m ≤ 256

-- No ID is listed twice.
abbrev pub Distinct : List Text → Type 0
Distinct [] = Unit
Distinct (m ∷ models) = (has_model m models ≡ false) × Distinct models

has_model-append :
    (m : Text) (xs ys : List Text) → has_model m (xs ++ ys) ≡ (has_model m xs || has_model m ys)
unfolding has_model
has_model-append m [] ys = refl
has_model-append m (x ∷ xs) ys = ground (arith, has_model-append m xs ys)

has_model-snoc :
    (m : Text) (xs : List Text) (n : Text)
    → has_model m (xs ++ n ∷ []) ≡ (has_model m xs || text_eq n m)
unfolding has_model
has_model-snoc m [] n = ground arith
has_model-snoc m (x ∷ xs) n = ground (arith, has_model-snoc m xs n)

All-snoc {ℓ} :
    (P : Text → Type ℓ) (xs : List Text) (m : Text) → All P xs → P m → All P (xs ++ m ∷ [])
All-snoc P [] m h k = (k, tt)
All-snoc P (x ∷ xs) m h k = (h.0, All-snoc P xs m h.1 k)

Distinct-snoc :
    (xs : List Text) (m : Text) → Distinct xs → has_model m xs ≡ false → Distinct (xs ++ m ∷ [])
unfolding has_model
Distinct-snoc [] m d h = (refl, tt)
Distinct-snoc (x ∷ xs) m d h = (
  ground (arith, has_model-snoc x xs m, text_eq_comm x m, d.0),
  Distinct-snoc xs m d.1 (ground arith),
)

-- An ID that stands later in a list of distinct IDs does not stand before it.
has_model-before :
    (acc : List Text) (m : Text) (rest : List Text)
    → Distinct (acc ++ m ∷ rest)
    → has_model m acc ≡ false
unfolding has_model
has_model-before [] m rest d = refl
has_model-before (x ∷ acc) m rest d = ground (
  arith,
  has_model-append x acc (m ∷ rest),
  text_eq_comm x m,
  d.0,
  has_model-before acc m rest d.1,
)

-- What the loop returns is clean and distinct, and not longer than what it was given.
pub record Collected (acc raw out : List Text) : Type 0 where
  pub clean : All IsClean out
  pub distinct : Distinct out
  pub short : length out ≤ length acc + length raw

abbrev kept : List Text → Text → List Text
kept acc m = if has_model m acc then acc else acc ++ m ∷ []

kept-Collected :
    (acc : List Text) (m : Text)
    → All IsClean acc
    → Distinct acc
    → IsClean m
    → All IsClean (kept acc m) × Distinct (kept acc m) × (length (kept acc m) ≤ length acc + 1)
kept-Collected acc m c d k = elim (Bool-cases (has_model m acc)) [
  | inl e ↦ rw e (c, d, omega arith)
  | inr e ↦ rw e (
    All-snoc IsClean acc m c k,
    Distinct-snoc acc m d e,
    omega (arith, length-append acc (m ∷ [])),
  )
]

short_lem : (a n : ℕ) {k out : ℕ} → k ≤ a + 1 → out ≤ k + n → out ≤ a + suc n
short_lem a n h k = omega arith

pub collect_models-Collected :
    (acc raw : List Text) {out : List Text}
    → All IsClean acc
    → Distinct acc
    → collect_models acc raw ≡ ok out
    → Collected acc raw out
unfolding collect_models
collect_models-Collected acc [] {out} c d h =
    let e : acc ≡ out = ok-injective h in
    rw (← e) (record { clean = c; distinct = d; short = omega arith })
collect_models-Collected acc (m ∷ raw) {out} c d h =
    let (present, h₁) = refuse-then (is_nil (trim m)) _ _ h in
    let (short, h₂) = refuse-then (ltb 256 (length (trim m))) _ _ h₁ in
    let (c', d', longer) = kept-Collected acc (trim m) c d (record {
      trimmed = trim_idem m;
      present = present;
      short = ltb→ge 256 (length (trim m)) short;
    }) in
    let rest = collect_models-Collected (kept acc (trim m)) raw c' d' h₂ in
    record {
      clean = rest.clean;
      distinct = rest.distinct;
      short = short_lem (length acc) (length raw) longer rest.short;
    }

-- On clean and distinct IDs the loop appends them as they are.
pub collect_models_fixed :
    (acc raw : List Text)
    → All IsClean raw
    → Distinct (acc ++ raw)
    → collect_models acc raw ≡ ok (acc ++ raw)
unfolding collect_models
collect_models_fixed acc [] c d = rw append-nil
collect_models_fixed acc (m ∷ raw) c d = rw (c.0.trimmed) (
    rw (c.0.present, has_model-before acc m raw d)
      (rw (ge→ltb 256 (length m) c.0.short) (
        rw (collect_models_fixed (acc ++ m ∷ []) raw c.1 (rw (append_assoc acc (m ∷ []) raw) d))
          (rw append_assoc))))
