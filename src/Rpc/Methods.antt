-- ===== src/Rpc/Methods.antt =====
-- The methods that `dispatch` of crates/hsind/src/rpc.rs knows, under the names of the module
-- `method` of crates/hsin-ipc/src/lib.rs, and the order of its match.
use hsin_rs.Prelude.{String, str_eq, List, [], ◌∷◌, Option, none, some, if◌then◌else◌, ◌≡◌, refl}

pub data Method : Type 0 where
  official_login_start official_login_status official_login_submit official_login_cancel : Method
  official_account_rename config_takeover config_release provider_list : Method
  provider_add provider_edit provider_remove provider_switch : Method
  provider_import_current provider_discover_models codex_image_list codex_image_switch : Method
  mode_set status stats_sync stats_query : Method
  pricing_list pricing_set pricing_remove pricing_refresh : Method
  doctor settings_get settings_set security_status : Method
  security_export_recovery_key security_import_recovery_key security_rotate_key credential_resolve :
      Method
  daemon_shutdown : Method

abbrev pub method_name : Method → String
method_name official_login_start = "official_account.login.start"
method_name official_login_status = "official_account.login.status"
method_name official_login_submit = "official_account.login.submit"
method_name official_login_cancel = "official_account.login.cancel"
method_name official_account_rename = "official_account.rename"
method_name config_takeover = "config.takeover"
method_name config_release = "config.release"
method_name provider_list = "provider.list"
method_name provider_add = "provider.add"
method_name provider_edit = "provider.edit"
method_name provider_remove = "provider.remove"
method_name provider_switch = "provider.switch"
method_name provider_import_current = "provider.import_current"
method_name provider_discover_models = "provider.discover_models"
method_name codex_image_list = "codex_image.list"
method_name codex_image_switch = "codex_image.switch"
method_name mode_set = "mode.set"
method_name status = "status"
method_name stats_sync = "stats.sync"
method_name stats_query = "stats.query"
method_name pricing_list = "pricing.list"
method_name pricing_set = "pricing.set"
method_name pricing_remove = "pricing.remove"
method_name pricing_refresh = "pricing.refresh"
method_name doctor = "doctor"
method_name settings_get = "settings.get"
method_name settings_set = "settings.set"
method_name security_status = "security.status"
method_name security_export_recovery_key = "security.export_recovery_key"
method_name security_import_recovery_key = "security.import_recovery_key"
method_name security_rotate_key = "security.rotate_key"
method_name credential_resolve = "credential.resolve"
method_name daemon_shutdown = "daemon.shutdown"

-- The arms of the match, in its order.
abbrev pub arms : List Method
arms =
    official_login_start ∷ official_login_status ∷ official_login_submit ∷ official_login_cancel
    ∷ official_account_rename ∷ config_takeover ∷ config_release ∷ provider_list ∷ provider_add
    ∷ provider_edit ∷ provider_remove ∷ provider_switch ∷ provider_import_current
    ∷ provider_discover_models ∷ codex_image_list ∷ codex_image_switch ∷ mode_set ∷ status
    ∷ stats_sync ∷ stats_query ∷ pricing_list ∷ pricing_set ∷ pricing_remove ∷ pricing_refresh
    ∷ doctor ∷ settings_get ∷ settings_set ∷ security_status ∷ security_export_recovery_key
    ∷ security_import_recovery_key ∷ security_rotate_key ∷ credential_resolve ∷ daemon_shutdown ∷ []

abbrev pub find_arm : String → List Method → Option Method
find_arm name [] = none
find_arm name (m ∷ ms) = if str_eq name (method_name m) then some m else find_arm name ms

unfoldable pub method_of : String → Option Method
method_of name = find_arm name arms

-- No arm hides another: every method is found under its own name.
pub method_of-method_name : (m : Method) → method_of (method_name m) ≡ some m
unfolding method_of
method_of-method_name official_login_start = refl
method_of-method_name official_login_status = refl
method_of-method_name official_login_submit = refl
method_of-method_name official_login_cancel = refl
method_of-method_name official_account_rename = refl
method_of-method_name config_takeover = refl
method_of-method_name config_release = refl
method_of-method_name provider_list = refl
method_of-method_name provider_add = refl
method_of-method_name provider_edit = refl
method_of-method_name provider_remove = refl
method_of-method_name provider_switch = refl
method_of-method_name provider_import_current = refl
method_of-method_name provider_discover_models = refl
method_of-method_name codex_image_list = refl
method_of-method_name codex_image_switch = refl
method_of-method_name mode_set = refl
method_of-method_name status = refl
method_of-method_name stats_sync = refl
method_of-method_name stats_query = refl
method_of-method_name pricing_list = refl
method_of-method_name pricing_set = refl
method_of-method_name pricing_remove = refl
method_of-method_name pricing_refresh = refl
method_of-method_name doctor = refl
method_of-method_name settings_get = refl
method_of-method_name settings_set = refl
method_of-method_name security_status = refl
method_of-method_name security_export_recovery_key = refl
method_of-method_name security_import_recovery_key = refl
method_of-method_name security_rotate_key = refl
method_of-method_name credential_resolve = refl
method_of-method_name daemon_shutdown = refl
