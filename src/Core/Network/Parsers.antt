-- ===== src/Core/Network/Parsers.antt =====
-- The parsers that crates/hsin-core/src/lib.rs calls and does not implement: `Url::parse` of the
-- crate `url`, with what its accessors return, and the address parsers of `std::net`.
use hsin_rs.Prelude.{Bool, Option, Text}

pub record Url : Type 0 where
  pub scheme : Text
  pub host_str : Option Text
  pub username : Text
  pub password : Option Text
  pub path : Text
  pub query : Option Text
  pub fragment : Option Text

pub record NetParsers : Type 0 where
  pub parse_url : Text → Option Url
  pub is_ip_addr : Text → Bool  -- `value.parse::<IpAddr>().is_ok()`
  pub is_ipv6_addr : Text → Bool  -- `value.parse::<Ipv6Addr>().is_ok()`
