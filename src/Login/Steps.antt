-- ===== src/Login/Steps.antt =====
-- The steps of the login sessions of crates/hsind/src/app/official_login.rs: the calls that come over IPC, and what the
-- worker of a session does until it reports.
use hsin_rs.Prelude.{Bool, false, Option, Text, Result, ok, drop, ◌≡◌}
use hsin_rs.Core.Enums.{ClientKind}
use hsin_rs.Errors.{AppError, DaemonError}
use hsin_rs.Login.{
  OfficialLoginStatus, LoginSession, LoginManager, login_session, update, await_browser,
  start_official_login, submit_official_login, request_cancel, run_official_login,
}

-- A worker that has not reported.
pub record IsRunning (id : Text) (m : LoginManager) : Type 0 where
  pub session : LoginSession
  pub known : login_session id m ≡ ok session
  pub unreported : session.done ≡ false

pub data Step (m : LoginManager) : LoginManager → Type 0 where
  start :
      (is_unlocked : Bool) (found : Result DaemonError (Unit {0})) (id : Text) (client : ClientKind)
      {status : OfficialLoginStatus} {after : LoginManager}
      → start_official_login is_unlocked found id client m ≡ ok (status, after)
      → Step m after
  submit :
      (sent : Bool) (id code : Text) {status : OfficialLoginStatus} {after : LoginManager}
      → submit_official_login sent id code m ≡ ok (status, after)
      → Step m after
  cancel : (id : Text) {after : LoginManager} → request_cancel id m ≡ ok after → Step m after
  browser : (id : Text) (url : Text) → IsRunning id m → Step m (update id (await_browser url) m)
  spawned :
      (id : Text) (allowed : Bool)
      → IsRunning id m
      → Step m (update id (λ s. record s { cleanup_allowed = allowed }) m)
  taken :
      (id : Text) → IsRunning id m → Step m (update id (λ s. record s { input = drop 1 s.input }) m)
  report :
      (id : Text) (prepared cleaned : Result DaemonError (Unit {0})) (cancelled_early : Bool)
      (child : Result AppError (Option Text))
      → IsRunning id m
      → Step m (update id (run_official_login prepared cancelled_early child cleaned) m)

pub data Reaches (m : LoginManager) : LoginManager → Type 0 where
  here : Reaches m m
  then_step : {mid after : LoginManager} → Reaches m mid → Step mid after → Reaches m after
