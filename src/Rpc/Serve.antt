-- ===== src/Rpc/Serve.antt =====
-- `negotiate_hello`, `dispatch` and the loop of `serve_connection` of crates/hsind/src/rpc.rs. The
-- operations of the application are the interface `Daemon`; what one round of the loop meets on
-- the connection is an `Event`.
pub mod Trace
pub mod Handoff
use Prim.Native.String.{◌++◌ as append}
use hsin_rs.Prelude.{
  ℕ, ◌==◌, Bool, true, false, not, ◌&&◌, ◌||◌, Option, none, some, List, [], ◌∷◌, ◌++◌, String,
  str_eq, Text, codes, decimal, if◌then◌else◌, Result, ok, err, ◌>>=◌, refuse, ◌>>◌, ◌≡◌,
}
use hsin_rs.Errors.{DaemonError, protocol, invalid, json, to_app_error}
use hsin_rs.Ipc.Protocol.{
  protocol_version, version_code, json_rpc_version, system_hello, config_release, config_ownership,
  config_handoff, HelloParams, HelloResult, has_capability, application, protocol_failure,
  invalid_request, method_not_found, JsonRpcRequest, JsonRpcResponse, success, failure,
}
use hsin_rs.Rpc.Methods.{Method, daemon_shutdown, method_of}

-- What the loop calls: `serde_json` on the messages, and the application. `run` parses the
-- parameters of a method, performs its operation and writes the result as a value.
pub record Daemon (S V : Type 0) : Type 0 where
  pub instance_id : S → Text
  pub daemon_version : Text
  pub parse_hello : V → Result Text HelloParams
  pub hello_value : HelloResult → Result Text V
  pub run : Method → V → S → Result DaemonError V × S

-- The two flags that the loop keeps.
pub record Connection : Type 0 where
  pub hello_complete : Bool
  pub config_release_only : Bool

abbrev pub fresh : Connection
fresh = record { hello_complete = false; config_release_only = false }

abbrev pub daemon_capabilities : List String
daemon_capabilities =
    "official_accounts.v1" ∷ "providers.v1" ∷ "local_proxy.v1" ∷ "security.v1" ∷ "config_saga.v1"
    ∷ "model_discovery.v1" ∷ "codex_image.v1" ∷ "usage_stats.v1" ∷ "usage_pricing.v1"
    ∷ "context_presets.v1" ∷ "plan_mode_reasoning.v1" ∷ config_ownership ∷ config_handoff ∷ []

abbrev incompatible : Text → ℕ → ℕ → DaemonError
incompatible what theirs ours =
    protocol (what ++ (decimal theirs ++ (codes " is incompatible with " ++ decimal ours)))

unfoldable pub negotiate_hello : Text → Text → HelloParams → Result DaemonError (HelloResult × Bool)
negotiate_hello instance_id daemon_version params = do
  refuse (not (params.protocol_version == protocol_version))
      (incompatible (codes "protocol ") params.protocol_version protocol_version)
  refuse
      (not (params.version_code == version_code)
        && not (has_capability config_handoff params.capabilities))
      (incompatible (codes "version code ") params.version_code version_code)
  ok (
    record {
      protocol_version = protocol_version;
      version_code = version_code;
      daemon_version = daemon_version;
      capabilities = daemon_capabilities;
      instance_id = some instance_id;
    },
    has_capability config_handoff params.capabilities,
  )

module _ {S V : Type 0} (d : Daemon S V) where
  open d use {instance_id, daemon_version, parse_hello, hello_value, run}

  -- `failure` of the module, and the macro `call!`
  abbrev pub answer : ℕ → Result DaemonError V → JsonRpcResponse V
  answer id (ok value) = success json_rpc_version id value
  answer id (err e) = failure json_rpc_version id (application (to_app_error e))

  abbrev pub protocol_answer : ℕ → String → JsonRpcResponse V
  protocol_answer id message =
      failure json_rpc_version id (protocol_failure invalid_request message)

  abbrev dispatch_arm : ℕ → String → V → Option Method → S → JsonRpcResponse V × S
  dispatch_arm id name params none app = (
    failure json_rpc_version id (protocol_failure method_not_found (append "unknown method " name)),
    app,
  )
  dispatch_arm id name params (some m) app =
      let (result, app') = run m params app in (answer id result, app')

  unfoldable pub dispatch : ℕ → String → V → S → JsonRpcResponse V × S
  dispatch id name params app = dispatch_arm id name params (method_of name) app

  abbrev parsed : {A : Type 0} → Result Text A → Result DaemonError A
  parsed (ok a) = ok a
  parsed (err message) = err (invalid message)

  -- `success` of the module
  abbrev written : ℕ → Result Text V → JsonRpcResponse V
  written id (ok value) = success json_rpc_version id value
  written id (err message) = answer id (err (json message))

  abbrev hello_arm :
      ℕ → Connection → Result DaemonError (HelloResult × Bool) → JsonRpcResponse V × Connection
  hello_arm id c (ok (result, handoff)) = (
    written id (hello_value result),
    record { hello_complete = true; config_release_only = handoff },
  )
  hello_arm id c (err e) = (answer id (err e), c)

  -- One request: its response, and what it leaves of the connection and of the application.
  unfoldable pub respond : JsonRpcRequest V → Connection → S → JsonRpcResponse V × Connection × S
  unfolding dispatch negotiate_hello
  respond request c app =
      let id = request.id in
      if not (str_eq request.jsonrpc json_rpc_version)
      then (protocol_answer id "invalid JSON-RPC version", c, app)
      else if not c.hello_complete && not (str_eq request.method system_hello)
      then (protocol_answer id "system.hello must be called first", c, app)
      else if str_eq request.method system_hello
      then (let (response, c') = hello_arm id c (
            parsed (parse_hello request.params)
            >>= negotiate_hello (instance_id app) daemon_version) in
          (response, c', app))
      else if c.config_release_only && not (str_eq request.method config_release)
      then (
        protocol_answer id "configuration handoff connection permits only config.release",
        c,
        app,
      )
      else (let (response, app') = dispatch id request.method request.params app in
          (response, c, app'))

-- How writing a response ends.
pub data Writing : Type 0 where
  done write_timeout : Writing
  write_failed : Text → Writing

-- What a round of the loop reads: a request, whose response is then written; the end of the
-- connection (`UnexpectedEof` or `ConnectionReset`); another error; or nothing in ten seconds,
-- which ends only a connection that has not said hello.
pub data Event (V : Type 0) : Type 0 where
  received : JsonRpcRequest V → Writing → Event V
  disconnected silent : Event V
  read_failed : Text → Event V

pub record Run (S V : Type 0) : Type 0 where
  pub responses : List (JsonRpcResponse V)
  pub connection : Connection
  pub app : S
  pub result : Option (Result DaemonError (Unit {0}))

module _ {S V : Type 0} (d : Daemon S V) where
  abbrev pub prepend : JsonRpcResponse V → Run S V → Run S V
  prepend response r = record r { responses = response ∷ r.responses }

  abbrev ended : Connection → S → Result DaemonError (Unit {0}) → Run S V
  ended c app result = record { responses = []; connection = c; app = app; result = some result }

  -- The rounds of the loop on what the connection brings, in order; no result while it is open.
  unfoldable pub serve_connection : List (Event V) → Connection → S → Run S V
  unfolding respond
  serve_connection [] c app = record { responses = []; connection = c; app = app; result = none }
  serve_connection (disconnected ∷ es) c app = ended c app (ok tt)
  serve_connection (read_failed message ∷ es) c app = ended c app (err (protocol message))
  serve_connection (silent ∷ es) c app =
      let rest = serve_connection es c app in
      if c.hello_complete then rest else ended c app (err (protocol (codes "IPC hello timed out")))
  serve_connection (received request done ∷ es) c app =
      let (response, c', app') = respond d request c app in
      prepend response (serve_connection es c' app')
  serve_connection (received request write_timeout ∷ es) c app =
      let (response, c', app') = respond d request c app in
      ended c' app' (err (protocol (codes "IPC response timed out")))
  serve_connection (received request (write_failed message) ∷ es) c app =
      let (response, c', app') = respond d request c app in ended c' app' (err (protocol message))
