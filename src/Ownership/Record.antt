-- ===== src/Ownership/Record.antt =====
-- The ownership record of one configuration file, and what a valid one holds.
use hsin_rs.Prelude.{
  ℕ, ◌==◌, Bool, not, ◌&&◌, ◌||◌, Option, none, is_some_and, is_nil, List, Text, codes, text_eq,
  utf8_len, is_ascii_hexdigit, any_of, all_of, Result, refuse, ◌>>◌,
}
use hsin_rs.Core.Model.{claude_model_env_keys}
use hsin_rs.Errors.{ConfigOwnerInfo, DaemonError, conflict}

pub data IpcEndpoint : Type 0 where
  filesystem namespaced : Text → IpcEndpoint

pub record ManagedScope : Type 0 where
  pub official_auth_store : Option Text
  pub codex_auth : Bool
  pub codex_keys : List Text
  pub claude_model_keys : List Text

pub record Fingerprints : Type 0 where
  pub official_auth : Option Text
  pub config : Text
  pub auth : Option Text

pub data PendingKind : Type 0 where
  write release takeover : PendingKind

pub record Pending : Type 0 where
  pub request_id : Text
  pub kind : PendingKind
  pub requester : Option ConfigOwnerInfo

pub record Record : Type 0 where
  pub owner : Option ConfigOwnerInfo
  pub generation : ℕ  -- u64
  pub endpoint : Option IpcEndpoint
  pub scope : ManagedScope
  pub fingerprints : Fingerprints
  pub pending : Option Pending

abbrev pub unclaimed : ℕ → ManagedScope → Fingerprints → Record
unclaimed generation scope fingerprints = record {
  owner = none;
  generation = generation;
  endpoint = none;
  scope = scope;
  fingerprints = fingerprints;
  pending = none;
}

abbrev pub invalid_record : Text → DaemonError
invalid_record message = conflict message

unfoldable pub is_fingerprint : Text → Bool
unfolding utf8_len is_ascii_hexdigit
is_fingerprint value = utf8_len value == 64 && all_of is_ascii_hexdigit value

abbrev pub is_not_fingerprint : Option Text → Bool
is_not_fingerprint o = is_some_and o (λ value. not (is_fingerprint value))

abbrev pub is_supported_key : Text → Bool
is_supported_key key = any_of (λ allowed. text_eq (codes allowed) key) claude_model_env_keys

unfoldable pub validate_record : Record → Result DaemonError (Unit {0})
validate_record r = do
  refuse
      ((not (is_nil r.fingerprints.config) && not (is_fingerprint r.fingerprints.config))
        || is_not_fingerprint r.fingerprints.auth
        || is_not_fingerprint r.fingerprints.official_auth
        || is_not_fingerprint r.scope.official_auth_store)
      (invalid_record
        (codes "configuration ownership fingerprints must contain only SHA-256 digests"))
  refuse (any_of (λ key. not (is_supported_key key)) r.scope.claude_model_keys)
      (invalid_record (codes "configuration ownership contains an unsupported model-mapping key"))
