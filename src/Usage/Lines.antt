-- ===== src/Usage/Lines.antt =====
-- The lines that the loops over `BufReader::read_until(b'\n', …)` in crates/hsind/src/usage.rs take from
-- a file: each up to and with its line feed; and the bytes after the last, which they leave.
use hsin_rs.Prelude.{
  ℕ, ◌+◌, ◌==◌, false, List, [], ◌∷◌, ◌++◌, length, length-append, drop, drop-length, if◌then◌else◌,
  if_ind, Bool-cases, inl, inr, ◌≡◌, refl, ap, sym, ◌∙◌, arith,
}
use hsin_rs.Ipc.Protocol.{Bytes}
use mathlib.Core.List.{append_assoc}

-- A byte before the first line or, where there is none, before the rest.
abbrev pub cons_byte : ℕ → List Bytes × Bytes → List Bytes × Bytes
cons_byte b ([], rest) = ([], b ∷ rest)
cons_byte b (l ∷ ls, rest) = ((b ∷ l) ∷ ls, rest)

unfoldable pub split_lines : Bytes → List Bytes × Bytes
split_lines [] = ([], [])
split_lines (b ∷ bs) =
    let (ls, rest) = split_lines bs in
    if b == b'\n' then ((b ∷ []) ∷ ls, rest) else cons_byte b (ls, rest)

abbrev pub prepend_lines : List Bytes → List Bytes × Bytes → List Bytes × Bytes
prepend_lines ls r = (ls ++ r.0, r.1)

cons_byte-prepend :
    (b : ℕ) (ls : List Bytes) (rest more : Bytes)
    → (b == b'\n') ≡ false
    → cons_byte b (prepend_lines ls (split_lines (rest ++ more)))
      ≡ (let r = cons_byte b (ls, rest) in prepend_lines r.0 (split_lines (r.1 ++ more)))
unfolding split_lines
cons_byte-prepend b [] rest more h = rw h refl
cons_byte-prepend b (l ∷ ls) rest more h = refl

-- The lines of a longer file: those of the file, and those that the rest begins.
pub split_lines-append :
    (a b : Bytes)
    → split_lines (a ++ b) ≡ prepend_lines (split_lines a).0 (split_lines ((split_lines a).1 ++ b))
unfolding split_lines
split_lines-append [] b = refl
split_lines-append (x ∷ a) b = elim (Bool-cases (x == b'\n')) [
  | inl e ↦ rw e (rw (split_lines-append a b) refl)
  | inr e ↦
      rw e
        (rw (split_lines-append a b) (cons_byte-prepend x (split_lines a).0 (split_lines a).1 b e))
]

-- The bytes of the lines.
abbrev pub joined : List Bytes → Bytes
joined [] = []
joined (l ∷ ls) = l ++ joined ls

abbrev pub total : List Bytes → ℕ
total [] = 0
total (l ∷ ls) = length l + total ls

joined-cons_byte :
    (b : ℕ) (r : List Bytes × Bytes)
    → joined (cons_byte b r).0 ++ (cons_byte b r).1 ≡ b ∷ (joined r.0 ++ r.1)
joined-cons_byte b ([], rest) = refl
joined-cons_byte b (l ∷ ls, rest) = refl

pub joined-split_lines : (a : Bytes) → joined (split_lines a).0 ++ (split_lines a).1 ≡ a
unfolding split_lines
joined-split_lines [] = refl
joined-split_lines (x ∷ a) = elim (Bool-cases (x == b'\n')) [
  | inl e ↦ rw e (ap (λ t. x ∷ t) (joined-split_lines a))
  | inr e ↦ rw e (joined-cons_byte x (split_lines a) ∙ ap (λ t. x ∷ t) (joined-split_lines a))
]

length-joined : (ls : List Bytes) → length (joined ls) ≡ total ls
length-joined [] = refl
length-joined (l ∷ ls) = omega (arith, length-append l (joined ls), length-joined ls)

pub total-append : (ls ms : List Bytes) → total (ls ++ ms) ≡ total ls + total ms
total-append [] ms = omega arith
total-append (l ∷ ls) ms = omega (arith, total-append ls ms)

pub total-split_lines : (a : Bytes) → total (split_lines a).0 + length (split_lines a).1 ≡ length a
total-split_lines a = omega (
  arith,
  sym (length-append (joined (split_lines a).0) (split_lines a).1),
  length-joined (split_lines a).0,
  ap length (joined-split_lines a),
)

-- What follows the lines of a file, in a longer one.
pub drop-split_lines :
    (a b : Bytes) → drop (total (split_lines a).0) (a ++ b) ≡ (split_lines a).1 ++ b
drop-split_lines a b =
    ap (λ t. drop (total (split_lines a).0) (t ++ b)) (sym (joined-split_lines a))
    ∙ ap (drop (total (split_lines a).0))
        (append_assoc (joined (split_lines a).0) (split_lines a).1 b)
    ∙ ap (λ n. drop n (joined (split_lines a).0 ++ ((split_lines a).1 ++ b)))
        (sym (length-joined (split_lines a).0))
    ∙ drop-length (joined (split_lines a).0) ((split_lines a).1 ++ b)

cons_byte-total-zero :
    (b : ℕ) (r : List Bytes × Bytes) → total (cons_byte b r).0 ≡ 0 → (cons_byte b r).0 ≡ []
cons_byte-total-zero b ([], rest) none_read = refl
cons_byte-total-zero b (l ∷ ls, rest) none_read = ground arith

-- Lines of no bytes at all are no lines.
pub split_lines-total-zero : (a : Bytes) → total (split_lines a).0 ≡ 0 → (split_lines a).0 ≡ []
unfolding split_lines
split_lines-total-zero [] none_read = refl
split_lines-total-zero (x ∷ a) none_read =
    if_ind (λ (r : List Bytes × Bytes). total r.0 ≡ 0 → r.0 ≡ []) (x == b'\n')
      (λ line nothing. ground arith) (λ other. cons_byte-total-zero x (split_lines a)) none_read
