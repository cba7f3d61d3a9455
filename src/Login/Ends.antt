-- ===== src/Login/Ends.antt =====
-- The end of a login session of crates/hsind/src/app/official_login.rs: whatever its process did, it is reported, and
-- its client may log in again.
use hsin_rs.Prelude.{
  suc, ◌≤◌, Bool, Bool-cases, true, false, not, ◌&&◌, Option, [], ◌∷◌, length, any_of, keep, Text,
  text_eq, inl, inr, ◌≡◌, refl, ap, ◌∙◌, arith, Result, ok, ok-injective,
}
use hsin_rs.Core.Enums.{ClientKind, claude, codex}
use hsin_rs.Core.Clients.Settings.{client_eq}
use hsin_rs.Errors.{AppError, DaemonError}
use hsin_rs.Login.{
  LoginSession, LoginManager, is_active, is_busy, session_of, login_session, update, outcome_of,
  cleaned_of, run_official_login, cancel_answer, admit, start_official_login,
}
use hsin_rs.Login.Steps.{IsRunning, Reaches}
use hsin_rs.Login.Sessions.{Each-login_session, keep-cons, one_if}
use hsin_rs.Login.Consistent.{IsConsistent, finished-IsConsistent, unreported_active}
use hsin_rs.Login.Safe.{reaches-IsSafe}

login_session-update :
    (id : Text) (f : LoginSession → LoginSession) (m : LoginManager) {s : LoginSession}
    → login_session id m ≡ ok s
    → login_session id (update id f m) ≡ ok (f s)
unfolding login_session update
login_session-update id f [] h = cc
login_session-update id f (x ∷ m) h = elim (Bool-cases (text_eq id x.0)) [
  | inl k ↦ rw (k, k) (ap (λ t. ok (f t)) (ok-injective (rw k at h)))
  | inr k ↦ rw (k, k) (login_session-update id f m (rw k at h))
]

-- A session that a change takes out of a count.
keep-drops :
    (p : Text × LoginSession → Bool) (id : Text) (f : LoginSession → LoginSession)
    (m : LoginManager) {s : LoginSession}
    → login_session id m ≡ ok s
    → ((name : Text) → p (name, s) ≡ true)
    → ((name : Text) → p (name, f s) ≡ false)
    → suc (length (keep p (update id f m))) ≤ length (keep p m)
unfolding login_session update
keep-drops p id f [] h was is = cc
keep-drops p id f (x ∷ m) {s} h was is = elim (Bool-cases (text_eq id x.0)) [
  | inl k ↦ rw k (
      let same : x.1 ≡ s = ok-injective (rw k at h) in
      let before = ap (λ t. p (x.0, t)) same ∙ was x.0 in
      let after = ap (λ t. p (x.0, f t)) same ∙ is x.0 in
      omega (arith, keep-cons p (x.0, f x.1) m, keep-cons p x m, ap one_if before, ap one_if after))
  | inr k ↦ rw k (
      let rest = keep-drops p id f m (rw k at h) was is in
      omega (arith, keep-cons p x (update id f m), keep-cons p x m, rest))
]

any_of-none :
    (p : Text × LoginSession → Bool) (m : LoginManager) → length (keep p m) ≡ 0 → any_of p m ≡ false
any_of-none p [] h = refl
any_of-none p (x ∷ m) h = elim (Bool-cases (p x)) [
  | inl k ↦ absurd (omega (arith, keep-cons p x m, ap one_if k))
  | inr k ↦ rw k (any_of-none p m (omega (arith, keep-cons p x m)))
]

start-free :
    (id : Text) (client : ClientKind) (m : LoginManager)
    → any_of (is_busy client) m ≡ false
    → (after : LoginManager) × (start_official_login true (ok tt) id client m
        ≡ ok ((session_of id client).status, after))
unfolding start_official_login admit
start-free id client m free = rw free (_, refl)

client_eq_refl : (c : ClientKind) → client_eq c c ≡ true
client_eq_refl claude = refl
client_eq_refl codex = refl

answered_done :
    (was_active : Bool) (s : LoginSession)
    → s.done ≡ true
    → cancel_answer was_active s ≡ ok s.status
unfolding cancel_answer
answered_done true s h = rw h refl
answered_done false s h = refl

-- What a client and the daemon see of a login that its worker has reported.
pub record IsOver (id : Text) (client : ClientKind) (m : LoginManager) : Type 0 where
  pub session : LoginSession
  pub known : login_session id m ≡ ok session
  pub over : is_active session ≡ false
  pub answered : (was_active : Bool) → cancel_answer was_active session ≡ ok session.status
  pub free :
      (next : Text)
      → (after : LoginManager) × (start_official_login true (ok tt) next client m
          ≡ ok ((session_of next client).status, after))

-- Whether the home was prepared, the login cancelled early, the client's process succeeded, and the home removed: a
-- worker that ends leaves its session over and known, a call that cancels it is answered, and the daemon, unlocked and
-- with the client installed, admits the client's next login.
pub report-IsOver :
    (id : Text) {m : LoginManager}
    → Reaches [] m
    → (running : IsRunning id m)
    → (prepared cleaned : Result DaemonError (Unit {0})) (early : Bool)
      (child : Result AppError (Option Text))
    → IsOver id running.session.status.client
        (update id (run_official_login prepared early child cleaned) m)
unfolding run_official_login is_busy cancel_answer
report-IsOver id {m} reached running prepared cleaned early child =
    let s = running.session in
    let client = s.status.client in
    let safe = reaches-IsSafe reached in
    let c = Each-login_session IsConsistent id m safe.each running.known in
    let f = run_official_login prepared early child cleaned in
    let (after, over) =
      finished-IsConsistent (outcome_of prepared early child) (cleaned_of s.cleanup_allowed cleaned)
        s c in
    let reported = after.reported ∙ ap not over in
    let fewer =
      keep-drops (is_busy client) id f m running.known
        (λ name.
          ap (λ a. a && client_eq client client) (unreported_active s c running.unreported)
          ∙ client_eq_refl client)
        (λ name. ap (λ a. a && client_eq (f s).status.client client) over) in
    let one = safe.one client in
    record {
      session = f s;
      known = login_session-update id f m running.known;
      over = over;
      answered = λ was_active. answered_done was_active (f s) reported;
      free = λ next.
          start-free next client (update id f m)
            (any_of-none (is_busy client) (update id f m) (omega arith));
    }
