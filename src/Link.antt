-- ===== src/Link.antt =====
-- The two ends of a connection together: `IpcClient` of crates/hsin-ipc/src/lib.rs and `serve_connection` of
-- crates/hsind/src/rpc.rs, on the bytes between them.
pub mod Exchange
use hsin_rs.Prelude.{Option, none, some, List, [], ◌++◌, Result, ok, err, ok_or, ◌≡◌}
use hsin_rs.Errors.{DaemonError, to_app_error}
use hsin_rs.Ipc.Protocol.{
  Bytes, HelloParams, HelloResult, JsonRpcRequest, application, TransportError, json, rpc,
}
use hsin_rs.Ipc.Frame.{read_frame, write_frame}
use hsin_rs.Ipc.Client.{Wire}
use hsin_rs.Rpc.Serve.{Daemon, Connection, respond}

module _ (w : Wire) where
  open w use {V, requests, responses, hello_params, hello_result}

  module _ {S : Type 0} (d : Daemon S V) where
    abbrev pub round_of :
        Result TransportError (JsonRpcRequest V)
        → Connection
        → S
        → Result TransportError Bytes × Connection × S
    round_of (err e) c app = (err e, c, app)
    round_of (ok request) c app =
        let (response, c', app') = respond d request c app in
        (write_frame responses response, c', app')

    -- One round of the loop of `serve_connection`: from the bytes of a frame to those of the response.
    unfoldable pub serve_round :
        Bytes → Connection → S → Result TransportError Bytes × Connection × S
    unfolding read_frame respond write_frame
    serve_round input c app = round_of (read_frame requests input).0 c app

    -- `serde_json` on the two ends: what one writes of a hello and of its answer, the other reads as it was.
    pub record Agrees (params : HelloParams) (result : HelloResult) : Type 0 where
      pub value : V
      pub params_read : d.parse_hello (hello_params params) ≡ ok params
      pub written : d.hello_value result ≡ ok value
      pub result_read : hello_result value ≡ some result

  -- What a caller is told of the result of the daemon's operation.
  abbrev pub told : {A : Type 0} → (V → Option A) → Result DaemonError V → Result TransportError A
  told parse (ok value) = ok_or (parse value) json
  told parse (err e) = err (rpc (application (to_app_error e)))
