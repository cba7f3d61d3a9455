-- ===== src/Core/Network/Convert.antt =====
-- `provider_name_from_url`, `normalize_generated_provider_name` and `convert_provider_base_url` of
-- crates/hsin-core/src/lib.rs.

pub mod RoundTrip
use hsin_rs.Prelude.{
  ℕ, ◌==◌, Bool, true, false, not, ◌||◌, Option, none, some, List, [], ◌∷◌, ◌++◌, Text, codes,
  text_eq, trim, is_nil, trim_end_matches, strip_prefix, strip_suffix, ends_with, contains_char,
  eq_ignore_ascii_case, and_then, unwrap_or, or_else, is_some_and, if◌then◌else◌,
}
use hsin_rs.Core.Enums.{ClientKind, codex, claude}
use hsin_rs.Core.Network.Parsers.{Url, NetParsers}

abbrev glue : ℕ → ℕ → List Text → List Text
glue c d [] = []
glue c d (part ∷ parts) = if d == c then [] ∷ part ∷ parts else (d ∷ part) ∷ parts

-- `str::split` at one character
unfoldable pub split_at : ℕ → Text → List Text
split_at c [] = [] ∷ []
split_at c (d ∷ s) = glue c d (split_at c s)

abbrev second_last : List Text → Option Text
second_last [] = none
second_last (a ∷ []) = none
second_last (a ∷ b ∷ []) = some a
second_last (a ∷ b ∷ c ∷ r) = second_last (b ∷ c ∷ r)

-- The brackets of an IPv6 literal belong to the URL, not to the address.
abbrev unbracketed : Text → Text
unbracketed host =
    unwrap_or (and_then (strip_prefix (codes "[") host) (λ inner. strip_suffix (codes "]") inner))
      host

abbrev name_of_host : NetParsers → Text → Option Text
name_of_host net host =
    if is_nil host
    then none
    else let bare = unbracketed host in
      if net.is_ip_addr bare || not (contains_char b'.' bare)
      then some bare
      else second_last (split_at b'.' bare)

unfoldable pub provider_name_from_url : NetParsers → Text → Option Text
unfolding split_at strip_prefix strip_suffix contains_char trim_end_matches
provider_name_from_url net value =
    and_then (net.parse_url (trim value))
      λ url. and_then url.host_str λ host. name_of_host net (trim_end_matches b'.' host)

unfoldable pub normalize_generated_provider_name : NetParsers → Text → Text → Text
unfolding provider_name_from_url eq_ignore_ascii_case trim
normalize_generated_provider_name net current base_url =
    let current = trim current in
    let host = and_then (net.parse_url (trim base_url)) (λ (url : Url). url.host_str) in
    if is_some_and host (λ h. eq_ignore_ascii_case current h)
    then unwrap_or (provider_name_from_url net base_url) current
    else current

unfoldable pub convert_provider_base_url : Text → ClientKind → ClientKind → Text
unfolding strip_suffix trim_end_matches ends_with
convert_provider_base_url base_url codex claude =
    unwrap_or (or_else (strip_suffix (codes "/v1/") base_url) (strip_suffix (codes "/v1") base_url))
      base_url
convert_provider_base_url base_url claude codex =
    let trimmed = trim_end_matches b'/' base_url in
    if ends_with (codes "/v1") trimmed then trimmed else trimmed ++ codes "/v1"
convert_provider_base_url base_url codex codex = base_url
convert_provider_base_url base_url claude claude = base_url
