-- ===== src/Examples/Gateway.antt =====
-- Requests through the local proxy, with header maps as functions.
use hsin_rs.Prelude.{
  true, false, Option, none, some, [], ◌∷◌, Text, codes, trim, text_eq, text_eq_refl, if◌then◌else◌,
  ok, err, ◌≡◌, ◌⊎◌, refl,
}
use hsin_rs.Core.Enums.{codex, bearer, primary, ProviderProxyMode}
use hsin_rs.Core.Model.{CodexImageConfig, has_model, default_tuning, normalized}
use hsin_rs.Core.Model.Image.Normal.{IsNormal, normalized-IsNormal}
use hsin_rs.Core.Network.{default_manual_proxy}
use hsin_rs.Core.Provider.{Provider}
use hsin_rs.Errors.{not_found}
use hsin_rs.Proxy.Headers.{Http, authorization, managed_key, remove_all, remove_hop_by_hop}
use hsin_rs.Proxy.Headers.Authorized.{Presents}
use hsin_rs.Proxy.Image.{ImageJson, rewrite_image_body, rewrite_image_body-has_model}
use hsin_rs.Proxy.Forward.{
  Answers, Snapshot, Request, Outgoing, replaced, credential_header, outgoing_headers,
  is_image_request, forward,
}
use hsin_rs.Proxy.Forward.Credential.{is_stripped, outgoing_headers-get, forward-authorized}

abbrev Headers : Type 0
Headers = Text → Option Text

abbrev without : Text → Headers → Headers
without n h m = if text_eq m n then none else h m

abbrev with_header : Text → Text → Headers → Headers
with_header n v h m = if text_eq m n then some v else h m

without-same : (n : Text) (h : Headers) → without n h n ≡ none
without-same n h = rw (text_eq_refl n) refl

without-other : (n m : Text) (h : Headers) → text_eq n m ≡ false → without m h n ≡ h n
without-other n m h e = rw e refl

with_header-same : (n v : Text) (h : Headers) → with_header n v h n ≡ some v
with_header-same n v h = rw (text_eq_refl n) refl

with_header-other : (n m v : Text) (h : Headers) → text_eq n m ≡ false → with_header m v h n ≡ h n
with_header-other n m v h e = rw e refl

abbrev http : Http
http = record {
  H = Headers;
  Value = Text;
  get = λ n h. h n;
  get_all = λ n h. elim (h n) [ none ↦ [] | some v ↦ v ∷ [] ];
  remove = without;
  insert = with_header;
  to_str = some;
  from_str = some;
  header_name = some;
  parse_usize = λ _. none;
  get-remove = without-same;
  get-remove_other = without-other;
  get-insert = with_header-same;
  get-insert_other = with_header-other;
}

-- An image request is its model.
abbrev json : ImageJson
json = record {
  Value = Option Text;
  Object = Option Text;
  from_slice = λ b. some (some b);
  as_object = some;
  model_of = λ o. o;
  set_model = λ m o. some m;
  to_vec = λ o. o;
  model_of-set_model = λ m o. refl;
  from_slice-to_vec = λ o b h. read o h;
}
  where
    read :
        (o : Option Text) {b : Text}
        → o ≡ some b
        → ◌≡◌ {A = Option (Option Text)} (some (some b)) (some o)
    read o h = rw h refl

abbrev images : CodexImageConfig
images = record {
  enabled = true;
  models = codes "gpt-image-1" ∷ codes "gpt-image-2" ∷ [];
  preferred_model = some (codes "gpt-image-2");
}

images-IsNormal : IsNormal images
unfolding normalized trim
images-IsNormal = normalized-IsNormal images {c' = images} refl

rewrite_image_body-has_model_example :
    (m : Text) × (◌≡◌ {A = Option Text} (some (codes "gpt-image-2")) (some m))
    × (has_model m images.models ≡ true)
unfolding rewrite_image_body
rewrite_image_body-has_model_example =
    rewrite_image_body-has_model json (some (codes "dall-e-3")) none images images-IsNormal refl

-- A client sends its capability and lists a header of its own in `Connection`.
abbrev sent : Headers
sent n =
    if text_eq n authorization
    then some (codes "Bearer local")
    else if text_eq n (codes "connection")
    then some (codes "x-mine")
    else none

abbrev leaving : Headers
leaving =
    with_header authorization (codes "Bearer key")
      (remove_all http replaced (remove_hop_by_hop http sent))

outgoing_headers-get_example :
    (name text value : Text) × (credential_header http json bearer (codes "key") ≡ ok (name, text))
    × (◌≡◌ {A = Option Text} (some text) (some value))
    × (leaving name ≡ some value)
    × ((n : Text) → is_stripped http json n ≡ true → text_eq n name ≡ false → leaving n ≡ none)
unfolding outgoing_headers
outgoing_headers-get_example =
    outgoing_headers-get http json bearer (codes "key") sent {out = leaving} refl

abbrev provider : Provider
provider = record {
  id = codes "p";
  client = codex;
  name = codes "P";
  description = [];
  base_url = codes "https://api.example.com/v1/";
  auth_scheme = bearer;
  official = false;
  official_account = none;
  credential_configured = true;
  credential_preview = none;
  model = none;
  codex_config_name = none;
  claude_model_mapping = none;
  scope = primary;
  codex_image = images;
  codex_tuning = default_tuning;
  network_proxy = record { mode = ProviderProxyMode.inherit; manual = default_manual_proxy };
  revision = 1;
}

abbrev answers : Answers
answers = record {
  permit = true;
  proxy_capability = ok (codes "local");
  disable_custom_auth = ok false;
  image_upstream_snapshot = err (not_found []);
  upstream_snapshot = ok (record { provider = provider; credential = codes "key" });
}

abbrev request : Request http json
request = record {
  method = codes "POST";
  path = codes "/codex/v1/responses";
  query = none;
  headers = sent;
  body = some (1 ∷ []);
  peer_is_loopback = true;
}

abbrev forwarded : Outgoing http json
forwarded = record {
  method = codes "POST";
  url = codes "https://api.example.com/v1/responses";
  headers = leaving;
  body = some (1 ∷ []);
}

forward-authorized_example :
    (answers.permit ≡ true)
    × (capability : Text) × (answers.proxy_capability ≡ ok capability)
    × (Presents http sent capability
        ⊎ ((answers.disable_custom_auth ≡ ok true)
            × (request.peer_is_loopback ≡ true)
            × Presents http sent managed_key))
    × (s : Snapshot) × ((if is_image_request http json codex request.path
          then answers.image_upstream_snapshot
          else answers.upstream_snapshot)
        ≡ ok s)
    × (outgoing_headers http json s.provider.auth_scheme s.credential sent ≡ ok leaving)
unfolding forward
forward-authorized_example =
    forward-authorized http json answers codex (codes "/codex/v1") request {o = forwarded} refl
