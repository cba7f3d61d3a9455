-- ===== src/Login/Consistent.antt =====
-- What a login session of crates/hsind/src/app/official_login.rs tells in each state, and the changes that keep it so.
use hsin_rs.Prelude.{
  ◌≤◌, true, false, not, not-eq-false, ◌&&◌, Option, none, some, is_some, length, All, keep, Text,
  ◌≡◌, refl, ap, sym, ◌∙◌, arith, Result, ok, err, ok-injective,
}
use hsin_rs.Core.Enums.{ClientKind, claude}
use hsin_rs.Core.Clients.Settings.{client_eq}
use hsin_rs.Errors.{AppError, DaemonError}
use hsin_rs.Login.{
  OfficialLoginState, starting, awaiting_browser, completed, cancelled, failed, OfficialLoginStatus,
  LoginSession, LoginManager, is_active_state, is_active, is_busy, login_session, update,
  await_browser, finished, valid_manual_code, max_retained_logins,
}
use hsin_rs.Login.Steps.{IsRunning}
use hsin_rs.Login.Sessions.{Each, Each-login_session, Each-update, keep-update, length-update}

-- What a status tells in each state.
abbrev pub Told : OfficialLoginState → Option Text → Option Text → Option AppError → Type 0
Told starting url provider_id error = (url ≡ none) × (provider_id ≡ none) × (error ≡ none)
Told awaiting_browser url provider_id error =
    (is_some url ≡ true) × (provider_id ≡ none) × (error ≡ none)
Told completed url provider_id error = (url ≡ none) × (is_some provider_id ≡ true) × (error ≡ none)
Told cancelled url provider_id error = (url ≡ none) × (provider_id ≡ none) × (error ≡ none)
Told failed url provider_id error = (url ≡ none) × (is_some error ≡ true)

-- A session is reported exactly when it is over, and takes pasted codes for Claude only, which are valid.
pub record IsConsistent (s : LoginSession) : Type 0 where
  pub reported : s.done ≡ not (is_active s)
  pub told : Told s.status.state s.status.browser_url s.status.provider_id s.status.error
  pub pasted :
      All (λ c. (valid_manual_code c ≡ true) × (client_eq s.status.client claude ≡ true)) s.input

-- One active session per client at most, and no more than are retained.
pub record IsSafe (m : LoginManager) : Type 0 where
  pub one : (client : ClientKind) → length (keep (is_busy client) m) ≤ 1
  pub retained : length m ≤ max_retained_logins
  pub each : Each IsConsistent m

-- A change of a session that leaves it consistent, and does not make it active.
pub record Allows (f : LoginSession → LoginSession) (s : LoginSession) : Type 0 where
  pub consistent : IsConsistent (f s)
  pub rests :
      (client : ClientKind) (name : Text)
      → is_busy client (name, f s) ≡ true
      → is_busy client (name, s) ≡ true

pub update-IsSafe :
    (id : Text) (f : LoginSession → LoginSession) (m : LoginManager)
    → IsSafe m
    → ((s : LoginSession) → login_session id m ≡ ok s → IsConsistent s → Allows f s)
    → IsSafe (update id f m)
update-IsSafe id f m safe allows = record {
  one = λ client.
      let fewer = keep-update (is_busy client) id f m (λ name s known busy.
        (allows s known (Each-login_session IsConsistent id m safe.each known)).rests client name
          busy) in
      let before = safe.one client in omega arith;
  retained = omega (arith, length-update id f m, safe.retained);
  each = Each-update IsConsistent id f m safe.each (λ s known c. (allows s known c).consistent);
}

active_clear :
    (state : OfficialLoginState) (url : Option Text) {provider_id : Option Text}
    {error : Option AppError}
    → is_active_state state ≡ true
    → Told state url provider_id error
    → (provider_id ≡ none) × (error ≡ none)
active_clear starting url h t = (t.1, t.2)
active_clear awaiting_browser url h t = (t.1, t.2)
active_clear completed url h t = cc
active_clear cancelled url h t = cc
active_clear failed url h t = cc

-- A worker that has not reported has an active session.
pub unreported_active : (s : LoginSession) → IsConsistent s → s.done ≡ false → is_active s ≡ true
unreported_active s c h = not-eq-false (is_active s) (sym c.reported ∙ h)

pub await_browser-Allows :
    (url : Text) (s : LoginSession) → s.done ≡ false → IsConsistent s → Allows (await_browser url) s
unfolding await_browser is_active is_busy
await_browser-Allows url s running c =
    let active = unreported_active s c running in
    record {
      consistent = record {
        reported = running;
        told =
            let (p, e) = active_clear s.status.state s.status.browser_url active c.told in
            (refl, p, e);
        pasted = c.pasted;
      };
      rests = λ client name busy. rw active busy;
    }

pub finished-IsConsistent :
    (outcome : Result AppError (Option Text)) (cleaned : Result DaemonError (Unit {0}))
    (s : LoginSession)
    → IsConsistent s
    → IsConsistent (finished outcome cleaned s) × (is_active (finished outcome cleaned s) ≡ false)
unfolding is_active
finished-IsConsistent (ok (some id)) (ok u) s c =
    (record { reported = refl; told = (refl, refl, refl); pasted = c.pasted }, refl)
finished-IsConsistent (ok none) (ok u) s c =
    (record { reported = refl; told = (refl, refl, refl); pasted = c.pasted }, refl)
finished-IsConsistent (err e) cleaned s c =
    (record { reported = refl; told = (refl, refl); pasted = c.pasted }, refl)
finished-IsConsistent (ok (some id)) (err e) s c =
    (record { reported = refl; told = (refl, refl); pasted = c.pasted }, refl)
finished-IsConsistent (ok none) (err e) s c =
    (record { reported = refl; told = (refl, refl); pasted = c.pasted }, refl)

pub quiet_Allows :
    (f : LoginSession → LoginSession) (s : LoginSession)
    → (f s).status ≡ s.status
    → IsConsistent (f s)
    → Allows f s
unfolding is_busy is_active
quiet_Allows f s same c = record {
  consistent = c;
  rests = λ client name busy.
      ap (λ (t : OfficialLoginStatus). is_active_state t.state && client_eq t.client client)
        (sym same)
      ∙ busy;
}

pub running_session :
    {id : Text} {m : LoginManager} (r : IsRunning id m) (s : LoginSession)
    → login_session id m ≡ ok s
    → s.done ≡ false
running_session r s known = ap (λ t. t.done) (ok-injective (sym known ∙ r.known)) ∙ r.unreported
