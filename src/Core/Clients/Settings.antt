-- ===== src/Core/Clients/Settings.antt =====
-- `ClientSettings` and `ClientAuthSettings` of crates/hsin-core/src/lib.rs.
use hsin_rs.Prelude.{
  ℕ, ltb, leb, ◌==◌, List, [], ◌∷◌, length, is_nil, all_of, any_of, keep, Bool, true, false, not,
  ◌&&◌, i64_max,
}
use hsin_rs.Core.Enums.{ClientKind, codex, claude}

pub record ClientSettings : Type 0 where
  pub order : List ClientKind
  pub visible : List ClientKind
  pub codex_context_max_presets : List ℕ  -- u64
  pub codex_context_compact_presets : List ℕ  -- u64

pub data OfficialAccountDisplay : Type 0 where
  email name name_and_email : OfficialAccountDisplay

pub record ClientAuthSettings : Type 0 where
  pub codex_disable_custom_auth : Bool
  pub codex_preserve_official_auth : Bool
  pub claude_disable_custom_auth : Bool
  pub codex_official_account_display : OfficialAccountDisplay
  pub claude_official_account_display : OfficialAccountDisplay

-- the derived `PartialEq`
abbrev pub client_eq : ClientKind → ClientKind → Bool
client_eq codex codex = true
client_eq codex claude = false
client_eq claude codex = false
client_eq claude claude = true

abbrev pub all_clients : List ClientKind
all_clients = codex ∷ claude ∷ []

-- `candidates.iter().filter(|candidate| *candidate == client).count()`
abbrev pub count_client : ClientKind → List ClientKind → ℕ
count_client c cs = length (keep (λ d. client_eq d c) cs)

-- `slice::contains`
abbrev pub contains_client : List ClientKind → ClientKind → Bool
contains_client cs c = any_of (λ d. client_eq d c) cs

-- `values.windows(2).all(|pair| pair[0] < pair[1])`
unfoldable pub strictly_ascending : List ℕ → Bool
strictly_ascending [] = true
strictly_ascending (x ∷ []) = true
strictly_ascending (x ∷ y ∷ xs) = ltb x y && strictly_ascending (y ∷ xs)

unfoldable pub valid_context_presets : List ℕ → Bool
unfolding strictly_ascending
valid_context_presets values =
    all_of (λ value. ltb 0 value && leb value i64_max) values && strictly_ascending values

unfoldable pub is_valid : ClientSettings → Bool
is_valid s =
    length s.order == length all_clients
    && all_of (λ client. count_client client s.order == 1) all_clients
    && not (is_nil s.visible)
    && leb (length s.visible) (length all_clients)
    && all_of (λ client. contains_client s.order client && count_client client s.visible == 1)
        s.visible
    && valid_context_presets s.codex_context_max_presets
    && valid_context_presets s.codex_context_compact_presets

unfoldable pub visible_in_order : ClientSettings → List ClientKind
visible_in_order s = keep (λ client. contains_client s.visible client) s.order

abbrev pub default_client_settings : ClientSettings
default_client_settings = record {
  order = all_clients;
  visible = all_clients;
  codex_context_max_presets = 272_000 ∷ 1_000_000 ∷ [];
  codex_context_compact_presets = 258_000 ∷ 900_000 ∷ [];
}

unfoldable pub official_account_display : ClientAuthSettings → ClientKind → OfficialAccountDisplay
official_account_display s codex = s.codex_official_account_display
official_account_display s claude = s.claude_official_account_display

unfoldable pub disable_custom_auth : ClientAuthSettings → ClientKind → Bool
disable_custom_auth s codex = s.codex_disable_custom_auth
disable_custom_auth s claude = s.claude_disable_custom_auth

unfoldable pub set_disable_custom_auth : ClientAuthSettings → ClientKind → Bool → ClientAuthSettings
set_disable_custom_auth s codex disabled = record s { codex_disable_custom_auth = disabled }
set_disable_custom_auth s claude disabled = record s { claude_disable_custom_auth = disabled }
