-- ===== src/Proxy/Forward.antt =====
-- `forward` of crates/hsind/src/proxy.rs, up to the request that it sends upstream. What it asks of
-- the application is the record `Answers`.
pub mod Credential
use hsin_rs.Prelude.{
  ℕ, ◌==◌, Bool, true, false, not, ◌&&◌, ◌||◌, Option, none, some, and_then, List, [], ◌∷◌, ◌++◌,
  Text, codes, text_eq, if◌then◌else◌, Result, ok, err, ok_or, ◌>>=◌, refuse, ◌>>◌, ◌≡◌,
}
use hsin_rs.Core.Enums.{ClientKind, codex, claude, AuthScheme, bearer, x_api_key, oauth}
use hsin_rs.Core.Provider.{Provider}
use hsin_rs.Errors.{DaemonError, locked, not_found, error_text}
use hsin_rs.Ipc.Protocol.{Bytes}
use hsin_rs.Proxy.Headers.{
  Http, authorization, api_key_name, authorized, upstream_url, remove_all, remove_hop_by_hop,
}
use hsin_rs.Proxy.Image.{Reply, text_response, ImageJson, rewrite_image_body}

abbrev error_status : DaemonError → ℕ
error_status locked = 503
error_status (not_found m) = 502
error_status _ = 500

unfoldable pub error_response : DaemonError → Reply
unfolding error_text
error_response e = text_response (error_status e) (error_text e)

pub record Snapshot : Type 0 where
  pub provider : Provider
  pub credential : Text

pub record Answers : Type 0 where
  pub permit : Bool
  pub proxy_capability : Result DaemonError Text
  pub disable_custom_auth : Result DaemonError Bool
  pub image_upstream_snapshot : Result DaemonError Snapshot
  pub upstream_snapshot : Result DaemonError Snapshot

-- The headers that never leave as the client sent them.
abbrev pub replaced : List Text
replaced =
    authorization
    ∷ api_key_name
    ∷ codes "host"
    ∷ codes "content-length"
    ∷ codes "x-openai-actor-authorization"
    ∷ []

module _ (http : Http) (json : ImageJson) where
  open http use {H, Value, get, insert, to_str, from_str, parse_usize}

  pub record Request : Type 0 where
    pub method : Text
    pub path : Text
    pub query : Option Text
    pub headers : H
    pub body : Option Bytes
    pub peer_is_loopback : Bool

  pub record Outgoing : Type 0 where
    pub method : Text
    pub url : Text
    pub headers : H
    pub body : Option Bytes

  abbrev answered : {A : Type 0} → Result DaemonError A → Result Reply A
  answered (ok a) = ok a
  answered (err e) = err (error_response e)

  abbrev answered_image : Result DaemonError Snapshot → Result Reply Snapshot
  answered_image (err (not_found m)) =
      err (text_response 503 (codes "no active Codex image provider"))
  answered_image r = answered r

  abbrev managed_key_enabled : Result DaemonError Bool → Bool
  managed_key_enabled (ok b) = b
  managed_key_enabled (err e) = false

  abbrev is_codex : ClientKind → Bool
  is_codex codex = true
  is_codex claude = false

  unfoldable pub is_image_request : ClientKind → Text → Bool
  unfolding text_eq
  is_image_request kind path =
      is_codex kind
      && (text_eq path (codes "/codex/v1/images/generations")
          || text_eq path (codes "/codex/v1/images/edits"))

  -- The header that carries the credential upstream, and its value.
  abbrev pub credential_header : AuthScheme → Text → Result Reply (Text × Text)
  credential_header bearer credential = ok (authorization, codes "Bearer " ++ credential)
  credential_header x_api_key credential = ok (api_key_name, credential)
  credential_header oauth credential =
      err (text_response 502 (codes "Official OAuth providers cannot use the local proxy"))

  unfoldable pub outgoing_headers : AuthScheme → Text → H → Result Reply H
  unfolding remove_hop_by_hop
  outgoing_headers scheme credential headers = do
    (name, text) ← credential_header scheme credential
    value ← ok_or (from_str text) (text_response 502 (codes "invalid upstream credential"))
    ok (insert name value (remove_all http replaced (remove_hop_by_hop http headers)))

  abbrev outgoing_body : Bool → Request → Provider → Result Reply (Option Bytes)
  outgoing_body false r provider = ok r.body
  outgoing_body true r provider =
      rewrite_image_body json r.body
        (and_then (and_then (get (codes "content-length") r.headers) to_str) parse_usize)
        provider.codex_image
      >>= λ b. ok (some b)

  unfoldable pub forward : Answers → ClientKind → Text → Request → Result Reply Outgoing
  unfolding authorized upstream_url is_image_request outgoing_headers rewrite_image_body
      error_response
  forward app kind prefix r = do
    refuse (not app.permit) (text_response 429 (codes "proxy concurrency limit reached"))
    capability ← answered app.proxy_capability
    refuse
        (not (
          authorized http r.headers capability (managed_key_enabled app.disable_custom_auth)
            r.peer_is_loopback))
        (text_response 401 (codes "invalid local proxy capability"))
    let image_request = is_image_request kind r.path
    refuse (image_request && not (text_eq r.method (codes "POST")))
        (text_response 405 (codes "image endpoint requires POST"))
    snapshot ←
        if image_request
        then answered_image app.image_upstream_snapshot
        else answered app.upstream_snapshot
    headers ← outgoing_headers snapshot.provider.auth_scheme snapshot.credential r.headers
    body ← outgoing_body image_request r snapshot.provider
    ok (record {
      method = r.method;
      url = upstream_url snapshot.provider.base_url prefix r.path r.query;
      headers = headers;
      body = body;
    })
