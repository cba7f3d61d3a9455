-- ===== src/Core/Enums/Types.antt =====
-- crates/hsin-core/src/lib.rs: the enums of clients, connections and credentials, each with its
-- `as_str` and the arms of its `FromStr`.
use hsin_rs.Prelude.{
  Text, codes, text_eq, Option, none, some, [], ◌∷◌, if◌then◌else◌, trim, lower, ◌≡◌, refl,
}
use hsin_rs.Core.Enums.Interface.{EnumText, one_of}

pub data ClientKind : Type 0 where
  codex claude : ClientKind

abbrev pub client_as_str : ClientKind → Text
client_as_str ClientKind.codex = codes "codex"
client_as_str ClientKind.claude = codes "claude"

unfoldable pub client_arms : Text → Option ClientKind
unfolding text_eq
client_arms v =
    if text_eq v (codes "codex")
    then some ClientKind.codex
    else if one_of v ("claude" ∷ "claude-code" ∷ "claude_code" ∷ [])
    then some ClientKind.claude
    else none

pub client_arms-as_str : (a : ClientKind) → client_arms (client_as_str a) ≡ some a
unfolding client_arms
client_arms-as_str ClientKind.codex = refl
client_arms-as_str ClientKind.claude = refl

pub client_as_str_normal : (a : ClientKind) → trim (lower (client_as_str a)) ≡ client_as_str a
unfolding trim lower
client_as_str_normal ClientKind.codex = refl
client_as_str_normal ClientKind.claude = refl

instance abbrev pub client_text : EnumText ClientKind
client_text = record {
  kind = "client";
  as_str = client_as_str;
  arms = client_arms;
  arms-as_str = client_arms-as_str;
  as_str_normal = client_as_str_normal;
}

pub data ConnectionMode : Type 0 where
  direct proxy : ConnectionMode

abbrev pub connection_mode_as_str : ConnectionMode → Text
connection_mode_as_str ConnectionMode.direct = codes "direct"
connection_mode_as_str ConnectionMode.proxy = codes "proxy"

unfoldable pub connection_mode_arms : Text → Option ConnectionMode
unfolding text_eq
connection_mode_arms v =
    if text_eq v (codes "direct")
    then some ConnectionMode.direct
    else if text_eq v (codes "proxy")
    then some ConnectionMode.proxy
    else none

pub connection_mode_arms-as_str :
    (a : ConnectionMode) → connection_mode_arms (connection_mode_as_str a) ≡ some a
unfolding connection_mode_arms
connection_mode_arms-as_str ConnectionMode.direct = refl
connection_mode_arms-as_str ConnectionMode.proxy = refl

pub connection_mode_as_str_normal :
    (a : ConnectionMode) → trim (lower (connection_mode_as_str a)) ≡ connection_mode_as_str a
unfolding trim lower
connection_mode_as_str_normal ConnectionMode.direct = refl
connection_mode_as_str_normal ConnectionMode.proxy = refl

instance abbrev pub connection_mode_text : EnumText ConnectionMode
connection_mode_text = record {
  kind = "connection_mode";
  as_str = connection_mode_as_str;
  arms = connection_mode_arms;
  arms-as_str = connection_mode_arms-as_str;
  as_str_normal = connection_mode_as_str_normal;
}

pub data AuthScheme : Type 0 where
  bearer x_api_key oauth : AuthScheme

abbrev pub auth_scheme_as_str : AuthScheme → Text
auth_scheme_as_str AuthScheme.bearer = codes "bearer"
auth_scheme_as_str AuthScheme.x_api_key = codes "x_api_key"
auth_scheme_as_str AuthScheme.oauth = codes "oauth"

unfoldable pub auth_scheme_arms : Text → Option AuthScheme
unfolding text_eq
auth_scheme_arms v =
    if text_eq v (codes "bearer")
    then some AuthScheme.bearer
    else if one_of v ("x_api_key" ∷ "x-api-key" ∷ "xapikey" ∷ [])
    then some AuthScheme.x_api_key
    else if text_eq v (codes "oauth")
    then some AuthScheme.oauth
    else none

pub auth_scheme_arms-as_str : (a : AuthScheme) → auth_scheme_arms (auth_scheme_as_str a) ≡ some a
unfolding auth_scheme_arms
auth_scheme_arms-as_str AuthScheme.bearer = refl
auth_scheme_arms-as_str AuthScheme.x_api_key = refl
auth_scheme_arms-as_str AuthScheme.oauth = refl

pub auth_scheme_as_str_normal :
    (a : AuthScheme) → trim (lower (auth_scheme_as_str a)) ≡ auth_scheme_as_str a
unfolding trim lower
auth_scheme_as_str_normal AuthScheme.bearer = refl
auth_scheme_as_str_normal AuthScheme.x_api_key = refl
auth_scheme_as_str_normal AuthScheme.oauth = refl

instance abbrev pub auth_scheme_text : EnumText AuthScheme
auth_scheme_text = record {
  kind = "auth_scheme";
  as_str = auth_scheme_as_str;
  arms = auth_scheme_arms;
  arms-as_str = auth_scheme_arms-as_str;
  as_str_normal = auth_scheme_as_str_normal;
}

pub data ProviderScope : Type 0 where
  primary image_only : ProviderScope

abbrev pub scope_as_str : ProviderScope → Text
scope_as_str ProviderScope.primary = codes "primary"
scope_as_str ProviderScope.image_only = codes "image_only"

unfoldable pub scope_arms : Text → Option ProviderScope
unfolding text_eq
scope_arms v =
    if text_eq v (codes "primary")
    then some ProviderScope.primary
    else if one_of v ("image_only" ∷ "image-only" ∷ [])
    then some ProviderScope.image_only
    else none

pub scope_arms-as_str : (a : ProviderScope) → scope_arms (scope_as_str a) ≡ some a
unfolding scope_arms
scope_arms-as_str ProviderScope.primary = refl
scope_arms-as_str ProviderScope.image_only = refl

pub scope_as_str_normal : (a : ProviderScope) → trim (lower (scope_as_str a)) ≡ scope_as_str a
unfolding trim lower
scope_as_str_normal ProviderScope.primary = refl
scope_as_str_normal ProviderScope.image_only = refl

instance abbrev pub scope_text : EnumText ProviderScope
scope_text = record {
  kind = "provider scope";
  as_str = scope_as_str;
  arms = scope_arms;
  arms-as_str = scope_arms-as_str;
  as_str_normal = scope_as_str_normal;
}
