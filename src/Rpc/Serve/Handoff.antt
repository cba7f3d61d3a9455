-- ===== src/Rpc/Serve/Handoff.antt =====
-- What a client of another release can reach: the handoff of configuration, and nothing else.
use hsin_rs.Prelude.{
  ℕ, ◌==◌, Bool, true, false, not, ◌&&◌, ◌||◌, List, [], ◌∷◌, String, str_eq, str_eq_iff, Text,
  if_ind, Result, ok, err, ◌>>=◌, refuse-then, ok-injective, ◌≡◌, refl, arith,
}
use hsin_rs.Errors.{DaemonError}
use hsin_rs.Ipc.Protocol.{
  protocol_version, version_code, json_rpc_version, system_hello, config_release, config_handoff,
  has_capability, HelloParams, HelloResult, JsonRpcRequest, JsonRpcResponse,
}
use hsin_rs.Rpc.Methods.{Method, method_of}
use hsin_rs.Rpc.Serve.{
  Daemon, Connection, fresh, negotiate_hello, dispatch, hello_arm, parsed, respond, done,
  write_timeout, write_failed, Event, received, disconnected, silent, read_failed, serve_connection,
  Run,
}

abbrev differs : Result Text HelloParams → Bool
differs (ok params) = not (params.version_code == version_code)
differs (err message) = true

-- The request is no hello of this release's version code.
abbrev pub is_foreign : {S V : Type 0} → Daemon S V → JsonRpcRequest V → Bool
is_foreign d r = not (str_eq r.method system_hello) || differs (d.parse_hello r.params)

abbrev pub all_foreign : {S V : Type 0} → Daemon S V → List (Event V) → Bool
all_foreign d [] = true
all_foreign d (received r w ∷ es) = is_foreign d r && all_foreign d es
all_foreign d (_ ∷ es) = all_foreign d es

-- A negotiation with another release succeeds only as a handoff.
negotiate_hello-handoff :
    (instance_id version : Text) (params : HelloParams) {r : HelloResult} {handoff : Bool}
    → negotiate_hello instance_id version params ≡ ok (r, handoff)
    → (params.version_code == version_code) ≡ false
    → handoff ≡ true
unfolding negotiate_hello
negotiate_hello-handoff instance_id version params h k =
    let (e, h₁) = refuse-then (not (params.protocol_version == protocol_version)) _ _ h in
    let (e', h₂) =
      refuse-then
        (not (params.version_code == version_code)
          && not (has_capability config_handoff params.capabilities))
        _ _ h₁ in
    let made = ok-injective h₂ in ground (arith, made)

module _ {S V : Type 0} (d : Daemon S V) (P : S → Type 0) where
  abbrev Restricted : Connection → Type 0
  Restricted c = (not c.hello_complete || c.config_release_only) ≡ true

  abbrev Held : (JsonRpcResponse V × Connection × S) → Type 0
  Held r = Restricted r.1 × P r.2

  hello_arm-handoff :
      (id : ℕ) (c : Connection) (m : Result DaemonError (HelloResult × Bool))
      → ((r : HelloResult) (handoff : Bool) → m ≡ ok (r, handoff) → handoff ≡ true)
      → Restricted c
      → Restricted (hello_arm d id c m).1
  hello_arm-handoff id c (ok (r, handoff)) h k = h r handoff refl
  hello_arm-handoff id c (err e) h k = k

  hello_arm-Restricted :
      (id : ℕ) (c : Connection) (r : Result Text HelloParams) (instance_id version : Text)
      → differs r ≡ true
      → Restricted c
      → Restricted (hello_arm d id c (parsed d r >>= negotiate_hello instance_id version)).1
  hello_arm-Restricted id c (err m) instance_id version h k = k
  hello_arm-Restricted id c (ok params) instance_id version h k =
      hello_arm-handoff id c (negotiate_hello instance_id version params)
        (λ r handoff made. negotiate_hello-handoff instance_id version params made (ground arith)) k

  module _
      (keep : (params : V) (app : S) → P app → P (d.run Method.config_release params app).1) where
    dispatch-Held :
        (id : ℕ) (name : String) (params : V) (app : S)
        → str_eq name config_release ≡ true
        → P app
        → P (dispatch d id name params app).1
    unfolding dispatch method_of
    dispatch-Held id name params app h p =
        let same : name ≡ config_release = (str_eq_iff name config_release).0 h in
        rw same (keep params app p)

    respond-Held :
        (r : JsonRpcRequest V) (c : Connection) (app : S)
        → is_foreign d r ≡ true
        → Restricted c
        → P app
        → Held (respond d r c app)
    unfolding respond
    respond-Held r c app foreign k p =
        if_ind Held (not (str_eq r.jsonrpc json_rpc_version)) (λ _. (k, p))
          (λ _.
            if_ind Held (not c.hello_complete && not (str_eq r.method system_hello)) (λ _. (k, p))
              (λ pending.
                if_ind Held (str_eq r.method system_hello)
                  (λ hello.
                    (hello_arm-Restricted r.id c (d.parse_hello r.params) _ _ (ground arith) k, p))
                  (λ other.
                    if_ind Held (c.config_release_only && not (str_eq r.method config_release))
                      (λ _. (k, p))
                      (λ release. (k, dispatch-Held r.id r.method r.params app (ground arith) p)))))

    held :
        (es : List (Event V)) (c : Connection) (app : S)
        → all_foreign d es ≡ true
        → Restricted c
        → P app
        → P (serve_connection d es c app).app
    unfolding serve_connection
    held [] c app h k p = p
    held (disconnected ∷ es) c app h k p = p
    held (read_failed m ∷ es) c app h k p = p
    held (silent ∷ es) c app h k p =
        if_ind {A = Run S V} (λ r. P r.app) c.hello_complete (λ _. held es c app h k p) (λ _. p)
    held (received r done ∷ es) c app h k p =
        let (k', p') = respond-Held r c app (ground arith) k p in
        held es (respond d r c app).1 (respond d r c app).2 (ground arith) k' p'
    held (received r write_timeout ∷ es) c app h k p = (respond-Held r c app (ground arith) k p).1
    held (received r (write_failed m) ∷ es) c app h k p =
        (respond-Held r c app (ground arith) k p).1

    -- What config.release keeps of the application, a whole connection keeps on which no hello
    -- carries this release's version code.
    pub serve_connection-keeps :
        (es : List (Event V)) (app : S)
        → all_foreign d es ≡ true
        → P app
        → P (serve_connection d es fresh app).app
    serve_connection-keeps es app h p = held es fresh app h refl p
