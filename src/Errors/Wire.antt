-- ===== src/Errors/Wire.antt =====
-- The codes that tell a client to try again: `DaemonError::wire` of crates/hsind/src/error.rs.
use hsin_rs.Prelude.{Bool, false, ◌||◌, List, [], ◌∷◌, String, str_eq, ◌≡◌, refl}
use hsin_rs.Errors.Types.{
  DaemonError, locked, oauth_proxy_unsupported, no_active_provider, current_credential_unavailable,
  codex_official_auth_unavailable, crypto, not_found, conflict, invalid, config, protocol, database,
  io, json, keyring, permission_denied, internal, ownership, unsupported_database_version,
  WireError, wire, daemon_error_code, is_retryable,
}

-- whether a code is one of these
abbrev is_one_of : String → List String → Bool
is_one_of code [] = false
is_one_of code (c ∷ cs) = str_eq code c || is_one_of code cs

abbrev retried_codes : List String
retried_codes = "conflict" ∷ "config_conflict" ∷ "io_error" ∷ "database_error" ∷ []

-- An error on the wire is marked to be tried again exactly when its code is that of a conflict, of
-- an ownership conflict, of a file or of the database: the code alone tells it.
pub wire-retryable :
    (e : DaemonError)
    → WireError.retryable (wire e) ≡ is_one_of (WireError.code (wire e)) retried_codes
unfolding wire daemon_error_code is_retryable
wire-retryable locked = refl
wire-retryable (not_found m) = refl
wire-retryable (conflict m) = refl
wire-retryable (ownership d) = refl
wire-retryable (invalid m) = refl
wire-retryable oauth_proxy_unsupported = refl
wire-retryable no_active_provider = refl
wire-retryable current_credential_unavailable = refl
wire-retryable codex_official_auth_unavailable = refl
wire-retryable (config m) = refl
wire-retryable (protocol m) = refl
wire-retryable (database m) = refl
wire-retryable (unsupported_database_version v) = refl
wire-retryable (io m) = refl
wire-retryable (json m) = refl
wire-retryable crypto = refl
wire-retryable (keyring m) = refl
wire-retryable (permission_denied m) = refl
wire-retryable (internal m) = refl
