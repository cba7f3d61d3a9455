-- ===== src/Errors/Types.antt =====
-- Error codes, application errors, daemon errors, and the conversion between them.
use hsin_rs.Prelude.{
  ℕ, Bool, true, false, ◌||◌, Option, none, some, List, [], ◌∷◌, ◌++◌, String, Text, codes,
  starts_with, decimal, if◌then◌else◌,
}
use hsin_rs.Core.Enums.{ClientKind}

pub data ErrorCode : Type 0 where
  invalid_argument not_found already_exists revision_conflict config_conflict : ErrorCode
  config_unavailable key_store_locked key_store_unavailable authentication_failed : ErrorCode
  permission_denied protocol_mismatch frame_too_large timeout daemon_unavailable : ErrorCode
  oauth_proxy_unsupported no_active_provider current_credential_unavailable : ErrorCode
  codex_official_auth_unavailable internal : ErrorCode

abbrev pub error_code_as_str : ErrorCode → String
error_code_as_str invalid_argument = "invalid_argument"
error_code_as_str not_found = "not_found"
error_code_as_str already_exists = "already_exists"
error_code_as_str revision_conflict = "revision_conflict"
error_code_as_str config_conflict = "config_conflict"
error_code_as_str config_unavailable = "config_unavailable"
error_code_as_str key_store_locked = "key_store_locked"
error_code_as_str key_store_unavailable = "key_store_unavailable"
error_code_as_str authentication_failed = "authentication_failed"
error_code_as_str permission_denied = "permission_denied"
error_code_as_str protocol_mismatch = "protocol_mismatch"
error_code_as_str frame_too_large = "frame_too_large"
error_code_as_str timeout = "timeout"
error_code_as_str daemon_unavailable = "daemon_unavailable"
error_code_as_str oauth_proxy_unsupported = "oauth_proxy_unsupported"
error_code_as_str no_active_provider = "no_active_provider"
error_code_as_str current_credential_unavailable = "current_credential_unavailable"
error_code_as_str codex_official_auth_unavailable = "codex_official_auth_unavailable"
error_code_as_str internal = "internal"

pub record ConfigOwnerInfo : Type 0 where
  pub instance_id : Text
  pub instance_home : Text
  pub instance_label : Text
  pub daemon_version : Text

pub record ConfigOwnershipStatus : Type 0 where
  pub client : ClientKind
  pub target_id : Text
  pub config_path : Text
  pub generation : ℕ  -- u64
  pub owner : Option ConfigOwnerInfo
  pub owner_is_self : Bool
  pub takeover_available : Bool
  pub takeover_unavailable_reason : Option String

pub record ConfigConflictDetails : Type 0 where
  pub targets : List ConfigOwnershipStatus

pub record AppError : Type 0 where
  pub code : ErrorCode
  pub args : List (String × Text)
  pub retryable : Bool
  pub config_conflict : Option ConfigConflictDetails

abbrev pub app_error : ErrorCode → AppError
app_error code = record { code = code; args = []; retryable = false; config_conflict = none }

-- What a library error carries is its text.
pub data DaemonError : Type 0 where
  locked oauth_proxy_unsupported no_active_provider current_credential_unavailable : DaemonError
  codex_official_auth_unavailable crypto : DaemonError
  not_found conflict invalid config protocol database io json keyring : Text → DaemonError
  permission_denied internal : Text → DaemonError
  ownership : ConfigConflictDetails → DaemonError
  unsupported_database_version : ℕ → DaemonError

-- the `#[error(…)]` lines
unfoldable pub error_text : DaemonError → Text
unfolding decimal
error_text locked = codes "daemon is locked because the system keyring is unavailable"
error_text (not_found m) = codes "not found: " ++ m
error_text (conflict m) = codes "conflict: " ++ m
error_text (ownership d) =
    codes "client configuration ownership conflict; inspect status before taking over"
error_text (invalid m) = codes "invalid input: " ++ m
error_text oauth_proxy_unsupported = codes "Official OAuth providers cannot use the local proxy"
error_text no_active_provider = codes "no active Provider is configured for this client"
error_text current_credential_unavailable =
    codes "the current client configuration does not expose an importable API key"
error_text codex_official_auth_unavailable =
    codes "no preserved Codex official login is available; switch to Official and sign in first"
error_text (config m) = codes "configuration error: " ++ m
error_text (protocol m) = codes "protocol error: " ++ m
error_text (database m) = codes "database error: " ++ m
error_text (unsupported_database_version v) =
    codes "database schema version " ++ (decimal v ++ codes " is newer than this hsind supports")
error_text (io m) = codes "I/O error: " ++ m
error_text (json m) = codes "serialization error: " ++ m
error_text crypto = codes "cryptographic operation failed"
error_text (keyring m) = codes "system keyring error: " ++ m
error_text (permission_denied m) = codes "permission denied: " ++ m
error_text (internal m) = codes "internal error: " ++ m

-- `DaemonError::code`, the code that the daemon logs
unfoldable pub daemon_error_code : DaemonError → String
daemon_error_code locked = "security_locked"
daemon_error_code (not_found m) = "not_found"
daemon_error_code (conflict m) = "conflict"
daemon_error_code (ownership d) = "config_conflict"
daemon_error_code (invalid m) = "invalid_input"
daemon_error_code oauth_proxy_unsupported = "oauth_proxy_unsupported"
daemon_error_code no_active_provider = "no_active_provider"
daemon_error_code current_credential_unavailable = "current_credential_unavailable"
daemon_error_code codex_official_auth_unavailable = "codex_official_auth_unavailable"
daemon_error_code (config m) = "config_error"
daemon_error_code (protocol m) = "protocol_error"
daemon_error_code (database m) = "database_error"
daemon_error_code (unsupported_database_version v) = "database_version_unsupported"
daemon_error_code (io m) = "io_error"
daemon_error_code (json m) = "serialization_error"
daemon_error_code crypto = "crypto_error"
daemon_error_code (keyring m) = "keyring_error"
daemon_error_code (permission_denied m) = "permission_denied"
daemon_error_code (internal m) = "internal_error"

unfoldable pub is_retryable : DaemonError → Bool
is_retryable (conflict m) = true
is_retryable (ownership d) = true
is_retryable (io m) = true
is_retryable (database m) = true
is_retryable _ = false

pub record WireError : Type 0 where
  pub code : String
  pub args : List (String × Text)
  pub retryable : Bool

unfoldable pub wire : DaemonError → WireError
unfolding daemon_error_code error_text is_retryable
wire e = record {
  code = daemon_error_code e;
  args = ("message", error_text e) ∷ [];
  retryable = is_retryable e;
}

-- `str::contains`
unfoldable pub contains_text : Text → Text → Bool
unfolding starts_with
contains_text p [] = starts_with p []
contains_text p (c ∷ s) = starts_with p (c ∷ s) || contains_text p s

unfoldable pub wire_code : DaemonError → ErrorCode
unfolding contains_text
wire_code locked = key_store_locked
wire_code (not_found m) = ErrorCode.not_found
wire_code (conflict m) =
    if contains_text (codes "revision") m || contains_text (codes "changed or was removed") m
    then revision_conflict
    else config_conflict
wire_code (ownership d) = config_conflict
wire_code (invalid m) = invalid_argument
wire_code oauth_proxy_unsupported = ErrorCode.oauth_proxy_unsupported
wire_code no_active_provider = ErrorCode.no_active_provider
wire_code current_credential_unavailable = ErrorCode.current_credential_unavailable
wire_code codex_official_auth_unavailable = ErrorCode.codex_official_auth_unavailable
wire_code (config m) = config_unavailable
wire_code (io m) = config_unavailable
wire_code (protocol m) = protocol_mismatch
wire_code (keyring m) = key_store_unavailable
wire_code (permission_denied m) = ErrorCode.permission_denied
wire_code _ = ErrorCode.internal

abbrev conflict_details : DaemonError → Option ConfigConflictDetails
conflict_details (ownership d) = some d
conflict_details _ = none

unfoldable pub to_app_error : DaemonError → AppError
unfolding wire_code error_text is_retryable
to_app_error e = record {
  code = wire_code e;
  args = ("message", error_text e) ∷ [];
  retryable = is_retryable e;
  config_conflict = conflict_details e;
}
