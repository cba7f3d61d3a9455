-- ===== src/Login/Safe.antt =====
-- What holds of the login sessions of crates/hsind/src/app/official_login.rs in every state that they reach.
use hsin_rs.Prelude.{
  true-false, suc, ◌≤◌, leb, Bool, Bool-cases, true, false, not, not-eq-false, ◌&&◌, List, [], ◌∷◌,
  ◌++◌, length, All, any_of, keep, drop, Text, codes, if◌then◌else◌, if_ind, inl, inr, ◌≡◌, refl,
  ap, sym, ◌∙◌, arith, Result, ok, refuse, refuse-eq-ok, refuse-then, >>=-eq-ok, ◌>>◌, ok-injective,
}
use mathlib.Core.Path.{subst}
use hsin_rs.Core.Enums.{ClientKind, claude, codex}
use hsin_rs.Core.Clients.Settings.{client_eq}
use hsin_rs.Errors.{DaemonError, locked, conflict, invalid}
use hsin_rs.Login.{
  OfficialLoginStatus, LoginSession, LoginManager, is_active, is_busy, session_of, login_session,
  await_browser, outcome_of, cleaned_of, run_official_login, admit, start_official_login,
  takes_code, valid_manual_code, submit_official_login, request_cancel, max_retained_logins,
}
use hsin_rs.Login.Steps.{
  Step, start, submit, cancel, browser, spawned, taken, report, Reaches, here, then_step,
}
use hsin_rs.Login.Sessions.{Each, Each-keep, keep-none, keep-keep-le, active-le, keep-cons, one_if}
use hsin_rs.Login.Consistent.{
  IsConsistent, IsSafe, update-IsSafe, await_browser-Allows, finished-IsConsistent, quiet_Allows,
  running_session,
}

append-All :
    {A : Type 0} (P : A → Type 0) (xs : List A) (x : A) → All P xs → P x → All P (xs ++ (x ∷ []))
append-All P [] x h k = (k, tt)
append-All P (y ∷ xs) x h k = (h.0, append-All P xs x h.1 k)

drop_one : {A : Type 0} (P : A → Type 0) (xs : List A) → All P xs → All P (drop 1 xs)
drop_one P [] h = tt
drop_one P (x ∷ xs) h = h.1

and_left : (a b : Bool) → (a && b) ≡ true → a ≡ true
and_left true b h = refl
and_left false b h = cc

client_eq→eq : (a b : ClientKind) → client_eq a b ≡ true → a ≡ b
client_eq→eq claude claude h = refl
client_eq→eq codex codex h = refl
client_eq→eq claude codex h = cc
client_eq→eq codex claude h = cc

-- The sessions that stay when one is admitted.
record Retains (m retained : LoginManager) : Type 0 where
  fewer :
      (client : ClientKind)
      → length (keep (is_busy client) retained) ≤ length (keep (is_busy client) m)
  room : suc (length retained) ≤ max_retained_logins
  still : Each IsConsistent retained

retains :
    (m : LoginManager)
    → IsSafe m
    → Retains m (if leb max_retained_logins (length m) then keep (λ s. is_active s.1) m else m)
retains m safe =
    if_ind (Retains m) (leb max_retained_logins (length m))
      (λ full. record {
        fewer = λ client. keep-keep-le (is_busy client) (λ s. is_active s.1) m;
        room = omega (arith, active-le m, safe.one claude, safe.one codex);
        still = Each-keep IsConsistent (λ s. is_active s.1) m safe.each;
      })
      (λ room. record { fewer = λ client. omega arith; room = ground arith; still = safe.each })

admitted :
    (id : Text) (client : ClientKind) (m retained : LoginManager)
    → IsSafe m
    → any_of (is_busy client) m ≡ false
    → Retains m retained
    → IsSafe ((id, session_of id client) ∷ retained)
unfolding is_busy is_active
admitted id client m retained safe free kept = record {
  one = λ c.
      let count = keep-cons (is_busy c) (id, session_of id client) retained in
      let fewer = kept.fewer c in
      let before = safe.one c in
      elim (Bool-cases (client_eq client c)) [
        | inl same ↦
            let e = client_eq→eq client c same in
            let zero_left =
              keep-none (is_busy c) m (ap (λ c. any_of (is_busy c) m) (sym e) ∙ free) in
            omega (arith, count, ap one_if same, zero_left)
        | inr other ↦ omega (arith, count, ap one_if other)
      ];
  retained = kept.room;
  each = (record { reported = refl; told = (refl, refl, refl); pasted = tt }, kept.still);
}

admit-IsSafe :
    (id : Text) (client : ClientKind) (m : LoginManager) {after : LoginManager}
    → IsSafe m
    → admit id client m ≡ ok after
    → IsSafe after
unfolding admit
admit-IsSafe id client m {after} safe done =
    let (free, e) =
      refuse-then (any_of (is_busy client) m)
        (conflict (codes "an official login is already in progress for this client")) _ done in
    let retained = if leb max_retained_logins (length m) then keep (λ s. is_active s.1) m else m in
    subst IsSafe (ok-injective e) (admitted id client m retained safe free (retains m safe))

start-IsSafe :
    (is_unlocked : Bool) (found : Result DaemonError (Unit {0})) (id : Text) (client : ClientKind)
    (m : LoginManager) {status : OfficialLoginStatus} {after : LoginManager}
    → IsSafe m
    → start_official_login is_unlocked found id client m ≡ ok (status, after)
    → IsSafe after
unfolding start_official_login
start-IsSafe is_unlocked found id client m safe done =
    let (unit, ready, rest) = >>=-eq-ok (refuse (not is_unlocked) locked >> found) _ done in
    let (after, admitted, last) = >>=-eq-ok (admit id client m) _ rest in
    subst IsSafe (ap (λ r. r.1) (ok-injective last)) (admit-IsSafe id client m safe admitted)

submit-IsSafe :
    (sent : Bool) (id code : Text) (m : LoginManager) {status : OfficialLoginStatus}
    {after : LoginManager}
    → IsSafe m
    → submit_official_login sent id code m ≡ ok (status, after)
    → IsSafe after
unfolding submit_official_login is_active
submit-IsSafe sent id code m safe done =
    let (s, known, rest) = >>=-eq-ok (login_session id m) _ done in
    let (u, checked, last) =
      >>=-eq-ok
        (refuse (not (takes_code s))
            (invalid (codes "this login does not accept a pasted authorization code"))
          >> refuse (not (valid_manual_code code)) (
              invalid (codes "paste the complete authorization code and state without line breaks"))
          >> refuse (not sent) (conflict (codes "the login is busy or has finished")))
        _ rest in
    let (u2, checked2, was_sent) =
      >>=-eq-ok
        (refuse (not (takes_code s))
            (invalid (codes "this login does not accept a pasted authorization code"))
          >> refuse (not (valid_manual_code code)) (
              invalid
                (codes "paste the complete authorization code and state without line breaks")))
        _ checked in
    let (takes, valid) =
      refuse-then (not (takes_code s))
        (invalid (codes "this login does not accept a pasted authorization code")) _ checked2 in
    let is_valid =
      not-eq-false (valid_manual_code code) (refuse-eq-ok (not (valid_manual_code code)) _ valid) in
    let is_claude =
      and_left (client_eq s.status.client claude) _ (not-eq-false (takes_code s) takes) in
    subst IsSafe (ap (λ r. r.1) (ok-injective last)) (
      update-IsSafe id (λ s. record s { input = s.input ++ (code ∷ []) }) m safe
        (λ t again c.
          let same = ok-injective (sym known ∙ again) in
          quiet_Allows (λ s. record s { input = s.input ++ (code ∷ []) }) t refl
            (record {
              reported = c.reported;
              told = c.told;
              pasted = append-All _ t.input code c.pasted (
                is_valid,
                ap (λ (t : LoginSession). client_eq t.status.client claude) (sym same) ∙ is_claude,
              );
            })))

request_cancel-IsSafe :
    (id : Text) (m : LoginManager) {after : LoginManager}
    → IsSafe m
    → request_cancel id m ≡ ok after
    → IsSafe after
unfolding request_cancel
request_cancel-IsSafe id m safe done =
    let (s, known, last) = >>=-eq-ok (login_session id m) _ done in
    subst IsSafe (ok-injective last) (
      if_ind IsSafe (is_active s)
        (λ active.
          update-IsSafe id (λ s. record s { cancel = true }) m safe
            (λ s known c.
              quiet_Allows (λ s. record s { cancel = true }) s refl
                (record { reported = c.reported; told = c.told; pasted = c.pasted })))
        (λ over. safe))

step-IsSafe : {m after : LoginManager} → IsSafe m → Step m after → IsSafe after
unfolding run_official_login is_busy
step-IsSafe {m} safe (start is_unlocked found id client done) =
    start-IsSafe is_unlocked found id client m safe done
step-IsSafe {m} safe (submit sent id code done) = submit-IsSafe sent id code m safe done
step-IsSafe {m} safe (cancel id done) = request_cancel-IsSafe id m safe done
step-IsSafe {m} safe (browser id url running) =
    update-IsSafe id (await_browser url) m safe
      (λ s known c. await_browser-Allows url s (running_session running s known) c)
step-IsSafe {m} safe (spawned id allowed running) =
    update-IsSafe id (λ s. record s { cleanup_allowed = allowed }) m safe
      (λ s known c.
        quiet_Allows (λ s. record s { cleanup_allowed = allowed }) s refl
          (record { reported = c.reported; told = c.told; pasted = c.pasted }))
step-IsSafe {m} safe (taken id running) =
    update-IsSafe id (λ s. record s { input = drop 1 s.input }) m safe
      (λ s known c.
        quiet_Allows (λ s. record s { input = drop 1 s.input }) s refl
          (record { reported = c.reported; told = c.told; pasted = drop_one _ s.input c.pasted }))
step-IsSafe {m} safe (report id prepared cleaned early child running) =
    update-IsSafe id (run_official_login prepared early child cleaned) m safe (λ s known c.
      let (consistent, over) =
        finished-IsConsistent (outcome_of prepared early child)
          (cleaned_of s.cleanup_allowed cleaned) s c in
      record {
        consistent = consistent;
        rests = λ client name busy.
            let after = run_official_login prepared early child cleaned s in
            let active = and_left (is_active after) (client_eq after.status.client client) busy in
            absurd (true-false (sym active ∙ over));
      })

-- In every state that the daemon reaches from its start, without sessions: a client has one active login at most; no
-- more than 32 sessions are kept; a session is reported exactly when it is over, its status tells what its state says,
-- and the pasted codes that wait for it are valid and for Claude.
pub reaches-IsSafe : {m : LoginManager} → Reaches [] m → IsSafe m
reaches-IsSafe here = record { one = λ c. omega arith; retained = omega arith; each = tt }
reaches-IsSafe (then_step reached step) = step-IsSafe (reaches-IsSafe reached) step
