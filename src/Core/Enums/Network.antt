-- ===== src/Core/Enums/Network.antt =====
-- crates/hsin-core/src/lib.rs: the enums of outbound proxies, each with its `as_str` and the arms
-- of its `FromStr`.
use hsin_rs.Prelude.{
  Text, codes, text_eq, Option, none, some, [], ◌∷◌, if◌then◌else◌, trim, lower, ◌≡◌, refl,
}
use hsin_rs.Core.Enums.Interface.{EnumText, one_of}

pub data UpstreamProxyMode : Type 0 where
  direct system manual : UpstreamProxyMode

abbrev pub upstream_mode_as_str : UpstreamProxyMode → Text
upstream_mode_as_str UpstreamProxyMode.direct = codes "direct"
upstream_mode_as_str UpstreamProxyMode.system = codes "system"
upstream_mode_as_str UpstreamProxyMode.manual = codes "manual"

unfoldable pub upstream_mode_arms : Text → Option UpstreamProxyMode
unfolding text_eq
upstream_mode_arms v =
    if text_eq v (codes "direct")
    then some UpstreamProxyMode.direct
    else if text_eq v (codes "system")
    then some UpstreamProxyMode.system
    else if text_eq v (codes "manual")
    then some UpstreamProxyMode.manual
    else none

pub upstream_mode_arms-as_str :
    (a : UpstreamProxyMode) → upstream_mode_arms (upstream_mode_as_str a) ≡ some a
unfolding upstream_mode_arms
upstream_mode_arms-as_str UpstreamProxyMode.direct = refl
upstream_mode_arms-as_str UpstreamProxyMode.system = refl
upstream_mode_arms-as_str UpstreamProxyMode.manual = refl

pub upstream_mode_as_str_normal :
    (a : UpstreamProxyMode) → trim (lower (upstream_mode_as_str a)) ≡ upstream_mode_as_str a
unfolding trim lower
upstream_mode_as_str_normal UpstreamProxyMode.direct = refl
upstream_mode_as_str_normal UpstreamProxyMode.system = refl
upstream_mode_as_str_normal UpstreamProxyMode.manual = refl

instance abbrev pub upstream_mode_text : EnumText UpstreamProxyMode
upstream_mode_text = record {
  kind = "upstream proxy mode";
  as_str = upstream_mode_as_str;
  arms = upstream_mode_arms;
  arms-as_str = upstream_mode_arms-as_str;
  as_str_normal = upstream_mode_as_str_normal;
}

pub data ProviderProxyMode : Type 0 where
  inherit direct system manual : ProviderProxyMode

abbrev pub provider_mode_as_str : ProviderProxyMode → Text
provider_mode_as_str ProviderProxyMode.inherit = codes "inherit"
provider_mode_as_str ProviderProxyMode.direct = codes "direct"
provider_mode_as_str ProviderProxyMode.system = codes "system"
provider_mode_as_str ProviderProxyMode.manual = codes "manual"

unfoldable pub provider_mode_arms : Text → Option ProviderProxyMode
unfolding text_eq
provider_mode_arms v =
    if text_eq v (codes "inherit")
    then some ProviderProxyMode.inherit
    else if text_eq v (codes "direct")
    then some ProviderProxyMode.direct
    else if text_eq v (codes "system")
    then some ProviderProxyMode.system
    else if text_eq v (codes "manual")
    then some ProviderProxyMode.manual
    else none

pub provider_mode_arms-as_str :
    (a : ProviderProxyMode) → provider_mode_arms (provider_mode_as_str a) ≡ some a
unfolding provider_mode_arms
provider_mode_arms-as_str ProviderProxyMode.inherit = refl
provider_mode_arms-as_str ProviderProxyMode.direct = refl
provider_mode_arms-as_str ProviderProxyMode.system = refl
provider_mode_arms-as_str ProviderProxyMode.manual = refl

pub provider_mode_as_str_normal :
    (a : ProviderProxyMode) → trim (lower (provider_mode_as_str a)) ≡ provider_mode_as_str a
unfolding trim lower
provider_mode_as_str_normal ProviderProxyMode.inherit = refl
provider_mode_as_str_normal ProviderProxyMode.direct = refl
provider_mode_as_str_normal ProviderProxyMode.system = refl
provider_mode_as_str_normal ProviderProxyMode.manual = refl

instance abbrev pub provider_mode_text : EnumText ProviderProxyMode
provider_mode_text = record {
  kind = "provider proxy mode";
  as_str = provider_mode_as_str;
  arms = provider_mode_arms;
  arms-as_str = provider_mode_arms-as_str;
  as_str_normal = provider_mode_as_str_normal;
}

pub data ProxyProtocol : Type 0 where
  http socks5 : ProxyProtocol

abbrev pub protocol_as_str : ProxyProtocol → Text
protocol_as_str ProxyProtocol.http = codes "http"
protocol_as_str ProxyProtocol.socks5 = codes "socks5"

unfoldable pub protocol_arms : Text → Option ProxyProtocol
unfolding text_eq
protocol_arms v =
    if text_eq v (codes "http")
    then some ProxyProtocol.http
    else if one_of v ("socks5" ∷ "socks5h" ∷ [])
    then some ProxyProtocol.socks5
    else none

pub protocol_arms-as_str : (a : ProxyProtocol) → protocol_arms (protocol_as_str a) ≡ some a
unfolding protocol_arms
protocol_arms-as_str ProxyProtocol.http = refl
protocol_arms-as_str ProxyProtocol.socks5 = refl

pub protocol_as_str_normal :
    (a : ProxyProtocol) → trim (lower (protocol_as_str a)) ≡ protocol_as_str a
unfolding trim lower
protocol_as_str_normal ProxyProtocol.http = refl
protocol_as_str_normal ProxyProtocol.socks5 = refl

instance abbrev pub protocol_text : EnumText ProxyProtocol
protocol_text = record {
  kind = "proxy protocol";
  as_str = protocol_as_str;
  arms = protocol_arms;
  arms-as_str = protocol_arms-as_str;
  as_str_normal = protocol_as_str_normal;
}
