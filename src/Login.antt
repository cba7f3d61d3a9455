-- ===== src/Login.antt =====
-- crates/hsind/src/app/official_login.rs: the daemon's login sessions of the official clients, from `start_official_login`
-- to the end of `run_official_login`, with the types of crates/hsin-core/src/lib.rs. What a session runs (the client's
-- process, its isolated home) is known by its outcome.
pub mod Steps
pub mod Sessions
pub mod Consistent
pub mod Safe
pub mod Ends
use hsin_rs.Prelude.{
  ℕ, ltb, leb, ◌*◌, ◌==◌, Bool, true, false, not, ◌&&◌, ◌||◌, Option, none, some, List, [], ◌∷◌,
  ◌++◌, length, any_of, keep, is_nil, Text, text_eq, codes, is_control, contains_char, utf8_len,
  if◌then◌else◌, Result, ok, err, ◌>>=◌, ◌>>◌, refuse, ok_or,
}
use hsin_rs.Core.Enums.{ClientKind, claude, codex}
use hsin_rs.Core.Clients.Settings.{client_eq}
use hsin_rs.Errors.{
  AppError, DaemonError, ErrorCode, app_error, to_app_error, locked, conflict, invalid, not_found,
  config, key_store_locked, key_store_unavailable, config_conflict, revision_conflict,
}

pub data OfficialLoginState : Type 0 where
  starting awaiting_browser completed cancelled failed : OfficialLoginState

pub record OfficialLoginStatus : Type 0 where
  pub login_id : Text
  pub client : ClientKind
  pub state : OfficialLoginState
  pub browser_url : Option Text
  pub provider_id : Option Text
  pub error : Option AppError

-- The flags of the two `watch` channels, and what the worker has not yet taken from `input`.
pub record LoginSession : Type 0 where
  pub status : OfficialLoginStatus
  pub cancel : Bool
  pub done : Bool
  pub input : List Text
  pub cleanup_allowed : Bool

-- `LoginManager`: the sessions by their IDs.
abbrev pub LoginManager : Type 0
LoginManager = List (Text × LoginSession)

abbrev pub is_active_state : OfficialLoginState → Bool
is_active_state starting = true
is_active_state awaiting_browser = true
is_active_state _ = false

unfoldable pub is_active : LoginSession → Bool
is_active s = is_active_state s.status.state

abbrev pub is_awaiting : OfficialLoginState → Bool
is_awaiting awaiting_browser = true
is_awaiting _ = false

unfoldable pub await_browser : Text → LoginSession → LoginSession
await_browser url s = record s {
  status = record s.status { state = awaiting_browser; browser_url = some url };
}

abbrev pub finish : OfficialLoginState → Option Text → Option AppError → LoginSession → LoginSession
finish state provider_id error s = record s {
  status = record s.status {
    state = state;
    browser_url = none;
    provider_id = provider_id;
    error = error;
  };
  done = true;
}

-- `sessions.get(login_id)`, and a change to the session that it finds.
unfoldable pub login_session : Text → LoginManager → Result DaemonError LoginSession
unfolding text_eq
login_session id [] = err (not_found (codes "official login session"))
login_session id (s ∷ ss) =
    let rest = login_session id ss in if text_eq id s.0 then ok s.1 else rest

unfoldable pub update : Text → (LoginSession → LoginSession) → LoginManager → LoginManager
unfolding text_eq
update id f [] = []
update id f (s ∷ ss) =
    let rest = update id f ss in if text_eq id s.0 then (s.0, f s.1) ∷ ss else s ∷ rest

abbrev pub max_retained_logins : ℕ
max_retained_logins = 32

-- A session that holds the client's login.
unfoldable pub is_busy : ClientKind → Text × LoginSession → Bool
unfolding is_active
is_busy client s = is_active s.1 && client_eq s.1.status.client client

abbrev pub session_of : Text → ClientKind → LoginSession
session_of login_id client = record {
  status = record {
    login_id = login_id;
    client = client;
    state = starting;
    browser_url = none;
    provider_id = none;
    error = none;
  };
  cancel = false;
  done = false;
  input = [];
  cleanup_allowed = true;
}

-- The block under the lock of the sessions.
unfoldable pub admit : Text → ClientKind → LoginManager → Result DaemonError LoginManager
unfolding is_busy
admit login_id client sessions =
    refuse (any_of (is_busy client) sessions)
      (conflict (codes "an official login is already in progress for this client"))
    >> (let retained =
          if leb max_retained_logins (length sessions)
          then keep (λ s. is_active s.1) sessions
          else sessions in
        ok ((login_id, session_of login_id client) ∷ retained))

-- The environment and the client's executable are found or not; `login_id` is a new UUID.
unfoldable pub start_official_login :
    Bool
    → Result DaemonError (Unit {0})
    → Text
    → ClientKind
    → LoginManager
    → Result DaemonError (OfficialLoginStatus × LoginManager)
unfolding admit
start_official_login is_unlocked found login_id client sessions =
    refuse (not is_unlocked) locked >> found >>= λ _.
    admit login_id client sessions >>= λ after. ok ((session_of login_id client).status, after)

unfoldable pub official_login_status : Text → LoginManager → Result DaemonError OfficialLoginStatus
unfolding login_session
official_login_status id sessions = login_session id sessions >>= λ s. ok s.status

-- `code.split_once('#')`
unfoldable pub split_mark : Text → Option (Text × Text)
split_mark [] = none
split_mark (c ∷ t) = elim (split_mark t) [
  | none ↦ if c == b'#' then some ([], t) else none
  | some (a, b) ↦ if c == b'#' then some ([], t) else some (c ∷ a, b)
]

unfoldable pub valid_manual_code : Text → Bool
unfolding utf8_len is_control split_mark contains_char
valid_manual_code code =
    if ltb (16 * 1024) (utf8_len code) || any_of is_control code
    then false
    else elim (split_mark code) [
      | none ↦ false
      | some (authorization, state) ↦
          not (is_nil authorization) && (not (is_nil state) && not (contains_char b'#' state))
    ]

abbrev pub takes_code : LoginSession → Bool
takes_code s = client_eq s.status.client claude && is_awaiting s.status.state

-- `sent` is whether the channel took the code within its second.
unfoldable pub submit_official_login :
    Bool → Text → Text → LoginManager → Result DaemonError (OfficialLoginStatus × LoginManager)
unfolding login_session valid_manual_code update
submit_official_login sent id code sessions = login_session id sessions >>= λ s.
    refuse (not (takes_code s))
      (invalid (codes "this login does not accept a pasted authorization code"))
    >> refuse (not (valid_manual_code code))
        (invalid (codes "paste the complete authorization code and state without line breaks"))
    >> refuse (not sent) (conflict (codes "the login is busy or has finished"))
    >> ok (s.status, update id (λ s. record s { input = s.input ++ (code ∷ []) }) sessions)

-- The first half of `cancel_official_login`: the flag of an active session is set.
unfoldable pub request_cancel : Text → LoginManager → Result DaemonError LoginManager
unfolding login_session update is_active
request_cancel id sessions = login_session id sessions >>= λ s.
    ok (if is_active s then update id (λ s. record s { cancel = true }) sessions else sessions)

-- The second half: `was_active` is what the first half saw, and `sessions` what the sessions are when the worker
-- has reported, or when twenty seconds are over.
unfoldable pub cancel_answer : Bool → LoginSession → Result DaemonError OfficialLoginStatus
cancel_answer was_active s =
    refuse (was_active && not s.done)
      (conflict (codes "official login cleanup is still in progress"))
    >> ok s.status

abbrev login_message : ErrorCode → Text
login_message key_store_locked =
    codes "unlock hsin's credential storage before adding an official account"
login_message key_store_unavailable =
    codes "unlock hsin's credential storage before adding an official account"
login_message ErrorCode.permission_denied =
    codes "the official client login is restricted by configuration or administrator policy"
login_message config_conflict = codes "official authentication changed during login; try again"
login_message revision_conflict = codes "official authentication changed during login; try again"
login_message _ =
    codes
      "cannot complete or clean up the isolated official login; check the official client and try again"

unfoldable pub login_error : DaemonError → AppError
unfolding to_app_error
login_error e =
    let code = (to_app_error e).code in
    record (app_error code) { args = ("message", login_message code) ∷ [] }

-- The end of `run_official_login`, by what the client's process and the removal of its home gave.
abbrev pub finished :
    Result AppError (Option Text) → Result DaemonError (Unit {0}) → LoginSession → LoginSession
finished (ok (some provider_id)) (ok _) s = finish completed (some provider_id) none s
finished (ok none) (ok _) s = finish cancelled none none s
finished (err error) _ s = finish failed none (some error) s
finished (ok provider_id) (err error) s = finish failed provider_id (some (login_error error)) s

-- What the worker does: it prepares the home, leaves if it is cancelled by then, and else runs the client's process,
-- whose outcome is the last argument.
abbrev pub outcome_of :
    Result DaemonError (Unit {0})
    → Bool
    → Result AppError (Option Text)
    → Result AppError (Option Text)
outcome_of (err error) cancel child = err (login_error error)
outcome_of (ok _) true child = ok none
outcome_of (ok _) false child = child

-- Without leave to clean, the home stays.
abbrev pub cleaned_of : Bool → Result DaemonError (Unit {0}) → Result DaemonError (Unit {0})
cleaned_of true cleaned = cleaned
cleaned_of false cleaned =
    err (config (codes "cannot verify that the isolated login process tree has exited"))

unfoldable pub run_official_login :
    Result DaemonError (Unit {0})
    → Bool
    → Result AppError (Option Text)
    → Result DaemonError (Unit {0})
    → LoginSession
    → LoginSession
run_official_login prepared cancelled_early child cleaned s =
    finished (outcome_of prepared cancelled_early child) (cleaned_of s.cleanup_allowed cleaned) s
