-- ===== src/Login/Sessions.antt =====
-- Lookups, changes and counts of the sessions of crates/hsind/src/app/official_login.rs.
use hsin_rs.Prelude.{
  ℕ, suc, ◌+◌, ◌≤◌, Bool, Bool-cases, true, false, ◌&&◌, [], ◌∷◌, length, All, any_of, keep, Text,
  text_eq, if◌then◌else◌, if_ind, inl, inr, ◌≡◌, refl, ap, arith, ok, ok-injective,
}
use hsin_rs.Core.Enums.{ClientKind, claude, codex}
use mathlib.Core.Path.{subst}
use hsin_rs.Core.Clients.Settings.{client_eq}
use hsin_rs.Login.{LoginSession, LoginManager, is_active, is_busy, login_session, update}

module _ (P : LoginSession → Type 0) where
  abbrev pub Each : LoginManager → Type 0
  Each m = All (λ s. P s.1) m

  pub Each-login_session :
      (id : Text) (m : LoginManager) {s : LoginSession} → Each m → login_session id m ≡ ok s → P s
  unfolding login_session
  Each-login_session id [] each h = cc
  Each-login_session id (x ∷ m) each h = elim (Bool-cases (text_eq id x.0)) [
    | inl k ↦ subst P (ok-injective (rw k at h)) each.0
    | inr k ↦ Each-login_session id m each.1 (rw k at h)
  ]

  pub Each-update :
      (id : Text) (f : LoginSession → LoginSession) (m : LoginManager)
      → Each m
      → ((s : LoginSession) → login_session id m ≡ ok s → P s → P (f s))
      → Each (update id f m)
  unfolding login_session update
  Each-update id f [] each h = tt
  Each-update id f (x ∷ m) each h = elim (Bool-cases (text_eq id x.0)) [
    | inl k ↦ rw k (h x.1 (rw k refl) each.0, each.1)
    | inr k ↦ rw k (each.0, Each-update id f m each.1 (λ s known p. h s (rw k known) p))
  ]

  pub Each-keep : (p : Text × LoginSession → Bool) (m : LoginManager) → Each m → Each (keep p m)
  Each-keep p [] each = tt
  Each-keep p (x ∷ m) each =
      if_ind Each (p x) (λ h. (each.0, Each-keep p m each.1)) (λ h. Each-keep p m each.1)

-- One where the test holds.
abbrev pub one_if : Bool → ℕ
one_if true = 1
one_if false = 0

length-if :
    (b : Bool) (x : Text × LoginSession) (m : LoginManager)
    → length (if b then x ∷ m else m) ≡ one_if b + length m
length-if true x m = omega arith
length-if false x m = omega arith

pub keep-cons :
    (p : Text × LoginSession → Bool) (x : Text × LoginSession) (m : LoginManager)
    → length (keep p (x ∷ m)) ≡ one_if (p x) + length (keep p m)
keep-cons p x m = length-if (p x) x (keep p m)

one_if-le : (a b : Bool) → (a ≡ true → b ≡ true) → one_if a ≤ one_if b
one_if-le true b h = omega (arith, ap one_if (h refl))
one_if-le false b h = omega arith

-- Sessions that a change does not add to are not more after it.
pub keep-update :
    (p : Text × LoginSession → Bool) (id : Text) (f : LoginSession → LoginSession)
    (m : LoginManager)
    → ((name : Text) (s : LoginSession)
        → login_session id m ≡ ok s
        → p (name, f s) ≡ true
        → p (name, s) ≡ true)
    → length (keep p (update id f m)) ≤ length (keep p m)
unfolding login_session update
keep-update p id f [] h = omega arith
keep-update p id f (x ∷ m) h = elim (Bool-cases (text_eq id x.0)) [
  | inl k ↦ rw k (
      let same = one_if-le (p (x.0, f x.1)) (p x) (h x.0 x.1 (rw k refl)) in
      omega (arith, keep-cons p (x.0, f x.1) m, keep-cons p x m, same))
  | inr k ↦ rw k (
      let rest = keep-update p id f m (λ name s known. h name s (rw k known)) in
      omega (arith, keep-cons p x (update id f m), keep-cons p x m, rest))
]

pub length-update :
    (id : Text) (f : LoginSession → LoginSession) (m : LoginManager)
    → length (update id f m) ≡ length m
unfolding update
length-update id f [] = refl
length-update id f (x ∷ m) =
    if_ind (λ (t : LoginManager). length t ≡ suc (length m)) (text_eq id x.0) (λ h. refl)
      (λ h. ap suc (length-update id f m))

pub keep-none :
    (p : Text × LoginSession → Bool) (m : LoginManager) → any_of p m ≡ false → length (keep p m) ≡ 0
keep-none p [] h = refl
keep-none p (x ∷ m) h = ground (arith, keep-none p m)

pub keep-keep-le :
    (p q : Text × LoginSession → Bool) (m : LoginManager)
    → length (keep p (keep q m)) ≤ length (keep p m)
keep-keep-le p q [] = omega arith
keep-keep-le p q (x ∷ m) =
    let rest = keep-keep-le p q m in
    if_ind (λ (t : LoginManager). length (keep p t) ≤ length (keep p (x ∷ m))) (q x)
      (λ h. omega (arith, keep-cons p x (keep q m), keep-cons p x m, rest))
      (λ h. omega (arith, keep-cons p x m, rest))

busy-le :
    (a : Bool) (c : ClientKind)
    → one_if a ≤ one_if (a && client_eq c claude) + one_if (a && client_eq c codex)
busy-le true claude = omega arith
busy-le true codex = omega arith
busy-le false c = omega arith

-- Each active session is one of a client.
pub active-le :
    (m : LoginManager)
    → length (keep (λ s. is_active s.1) m)
      ≤ length (keep (is_busy claude) m) + length (keep (is_busy codex) m)
unfolding is_busy
active-le [] = omega arith
active-le (x ∷ m) =
    let rest = active-le m in
    omega (
      arith,
      keep-cons (λ s. is_active s.1) x m,
      keep-cons (is_busy claude) x m,
      keep-cons (is_busy codex) x m,
      busy-le (is_active x.1) x.1.status.client,
      rest,
    )
