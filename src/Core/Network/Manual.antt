-- ===== src/Core/Network/Manual.antt =====
-- `ManualProxyConfig`, `UpstreamProxyConfig` and `ProviderProxyConfig` of
-- crates/hsin-core/src/lib.rs.

use hsin_rs.Prelude.{
  ℕ, ltb, ◌==◌, Bool, true, false, not, ◌&&◌, ◌||◌, Text, codes, text_eq, trim, is_nil, length,
  any_of, is_whitespace, is_control, decimal, is_none, is_some, [], ◌++◌, if◌then◌else◌, ok, ok_or,
  ◌>>=◌, ◌>>◌, refuse,
}
use hsin_rs.Core.Validation.{Checked, invalid}
use hsin_rs.Core.Enums.{ProxyProtocol, http, UpstreamProxyMode, ProviderProxyMode}
use hsin_rs.Core.Network.Parsers.{Url, NetParsers}

pub record ManualProxyConfig : Type 0 where
  pub protocol : ProxyProtocol
  pub host : Text
  pub port : ℕ  -- u16
  pub username : Text
  pub password_configured : Bool

abbrev pub default_manual_proxy : ManualProxyConfig
default_manual_proxy = record {
  protocol = http;
  host = codes "127.0.0.1";
  port = 7890;
  username = [];
  password_configured = false;
}

pub record UpstreamProxyConfig : Type 0 where
  pub mode : UpstreamProxyMode
  pub manual : ManualProxyConfig

pub record ProviderProxyConfig : Type 0 where
  pub mode : ProviderProxyMode
  pub manual : ManualProxyConfig

-- The URL carries nothing but a host and a port.
abbrev pub is_bare : Url → Bool
is_bare url =
    is_some url.host_str
    && is_nil url.username
    && is_none url.password
    && text_eq url.path (codes "/")
    && is_none url.query
    && is_none url.fragment

-- `format!("http://{authority_host}:{}", self.port)`
unfoldable pub authority_url : NetParsers → Text → ℕ → Text
unfolding decimal
authority_url net host port =
    let authority = if net.is_ipv6_addr host then codes "[" ++ (host ++ codes "]") else host in
    codes "http://" ++ (authority ++ (codes ":" ++ decimal port))

unfoldable pub manual_validate : NetParsers → ManualProxyConfig → Checked (Unit {0})
unfolding authority_url
manual_validate net c = do
  let host = trim c.host
  refuse (is_nil host) (invalid "network_proxy.host" "empty")
  refuse (ltb 253 (length host) || any_of is_whitespace host)
      (invalid "network_proxy.host" "invalid")
  url ←
      ok_or (net.parse_url (authority_url net host c.port)) (invalid "network_proxy.host" "invalid")
  refuse (not (is_bare url)) (invalid "network_proxy.host" "invalid")
  refuse (c.port == 0) (invalid "network_proxy.port" "invalid")
  refuse (ltb 256 (length c.username) || any_of is_control c.username)
      (invalid "network_proxy.username" "invalid")
  refuse (c.password_configured && is_nil (trim c.username))
      (invalid "network_proxy.username" "required_for_password")

abbrev upstream_manual : UpstreamProxyMode → Bool
upstream_manual UpstreamProxyMode.manual = true
upstream_manual _ = false

abbrev provider_manual : ProviderProxyMode → Bool
provider_manual ProviderProxyMode.manual = true
provider_manual _ = false

unfoldable pub upstream_validate : NetParsers → UpstreamProxyConfig → Checked (Unit {0})
upstream_validate net c = if upstream_manual c.mode then manual_validate net c.manual else ok tt

unfoldable pub provider_proxy_validate : NetParsers → ProviderProxyConfig → Checked (Unit {0})
provider_proxy_validate net c =
    if provider_manual c.mode then manual_validate net c.manual else ok tt
