-- ===== src/Examples/Wire.antt =====
-- Frames and calls of the local protocol, with a small format in place of JSON.
pub mod Round
use hsin_rs.Prelude.{
  Bool, true, false, Option, none, some, [], ◌∷◌, ◌++◌, String, str_eq, str_eq_iff, codes,
  if◌then◌else◌, ok, is_ok, ◌≡◌, refl, sym,
}
use hsin_rs.Ipc.Protocol.{
  Bytes, Codec, protocol_version, version_code, json_rpc_version, HelloParams, HelloResult,
  JsonRpcRequest, new_request, JsonRpcResponse, success, failure,
}
use hsin_rs.Ipc.Frame.{write_frame, read_frame}
use hsin_rs.Ipc.Frame.RoundTrip.{read_frame-write_frame}
use hsin_rs.Ipc.Client.{Wire, Stream, Client, from_stream, call, hello, hello_for_config_release}
use hsin_rs.Ipc.Client.Gate.{Answered, call_closed, call-Answered}
use hsin_rs.Ipc.Client.Hello.{hello-eq-ok, hello_for_config_release-call}

abbrev raw : Codec Bytes
raw = record { to_vec = some; from_slice = some; from_slice-to_vec = λ a b h. sym h }

read_frame-write_frame_example :
    read_frame raw ((0 ∷ 0 ∷ 0 ∷ 2 ∷ 7 ∷ 8 ∷ []) ++ 9 ∷ []) ≡ (ok (7 ∷ 8 ∷ []), 9 ∷ [])
unfolding write_frame
read_frame-write_frame_example = read_frame-write_frame raw (7 ∷ 8 ∷ []) (9 ∷ []) refl

-- A request is its id, if it is a JSON-RPC 2.0 request without parameters for the method `name`.
abbrev request_bytes : String → JsonRpcRequest (Unit {0}) → Option Bytes
request_bytes name r =
    if str_eq r.jsonrpc json_rpc_version
    then if str_eq r.method name then some (r.id ∷ []) else none
    else none

abbrev request_of : String → Bytes → Option (JsonRpcRequest (Unit {0}))
request_of name (id ∷ []) = some (new_request id name tt)
request_of name _ = none

some-injective : {a b : Bytes} → ◌≡◌ {A = Option Bytes} (some a) (some b) → a ≡ b
some-injective h = cc

request_of-request_bytes :
    (name : String) (r : JsonRpcRequest (Unit {0})) (b : Bytes)
    → request_bytes name r ≡ some b
    → request_of name b ≡ some r
request_of-request_bytes name r b h =
    written (str_eq r.jsonrpc json_rpc_version) (str_eq r.method name) refl refl h
  where
    written :
        (p q : Bool)
        → str_eq r.jsonrpc json_rpc_version ≡ p
        → str_eq r.method name ≡ q
        → (if p then if q then some (r.id ∷ []) else none else none) ≡ some b
        → request_of name b ≡ some r
    written true true e e' k =
        let version : r.jsonrpc ≡ json_rpc_version = (str_eq_iff r.jsonrpc json_rpc_version).0 e in
        let method : r.method ≡ name = (str_eq_iff r.method name).0 e' in
        let bytes : r.id ∷ [] ≡ b = some-injective k in rw (← bytes) (sym (cc))
    written true false e e' k = cc
    written false true e e' k = cc
    written false false e e' k = cc

-- A response is its id, if it is a JSON-RPC 2.0 success without a result.
abbrev response_bytes : JsonRpcResponse (Unit {0}) → Option Bytes
response_bytes (success version id result) =
    if str_eq version json_rpc_version then some (id ∷ []) else none
response_bytes (failure version id error) = none

abbrev response_of : Bytes → Option (JsonRpcResponse (Unit {0}))
response_of (id ∷ []) = some (success json_rpc_version id tt)
response_of _ = none

response_of-response_bytes :
    (r : JsonRpcResponse (Unit {0})) (b : Bytes)
    → response_bytes r ≡ some b
    → response_of b ≡ some r
response_of-response_bytes (success version id result) b h =
    written (str_eq version json_rpc_version) refl h
  where
    written :
        (p : Bool)
        → str_eq version json_rpc_version ≡ p
        → (if p then some (id ∷ []) else none) ≡ some b
        → response_of b ≡ some (success version id result)
    written true e k =
        let same : version ≡ json_rpc_version = (str_eq_iff version json_rpc_version).0 e in
        let bytes : id ∷ [] ≡ b = some-injective k in rw (← bytes) (sym (cc))
    written false e k = cc
response_of-response_bytes (failure version id error) b h = cc

abbrev owner_result : HelloResult
owner_result = record {
  protocol_version = protocol_version;
  version_code = version_code;
  daemon_version = codes "1.4.0";
  capabilities = "config_ownership.v1" ∷ [];
  instance_id = some (codes "a");
}

abbrev wire_of : String → Wire
wire_of name = record {
  V = Unit {0};
  requests = record {
    to_vec = request_bytes name;
    from_slice = request_of name;
    from_slice-to_vec = request_of-request_bytes name;
  };
  responses = record {
    to_vec = response_bytes;
    from_slice = response_of;
    from_slice-to_vec = response_of-response_bytes;
  };
  hello_params = λ _. tt;
  hello_result = λ _. some owner_result;
}

-- A connection on which a response to request 1 waits.
abbrev answered : Stream
answered = record { sent = []; incoming = 0 ∷ 0 ∷ 0 ∷ 1 ∷ 1 ∷ [] }

abbrev ready : Client
ready = record {
  stream = answered;
  next_id = 1;
  handshake_complete = true;
  config_release_only = false;
}

abbrev params : HelloParams
params = record {
  protocol_version = protocol_version;
  version_code = version_code;
  client_name = codes "hsin";
  client_version = codes "1.4.0";
  capabilities = [];
}

call-Answered_example :
    Answered
      (wire_of "status")
      (λ v. some v)
      "status"
      tt
      ready
      tt
      (record {
        stream = record { sent = 0 ∷ 0 ∷ 0 ∷ 1 ∷ 1 ∷ []; incoming = [] };
        next_id = 2;
        handshake_complete = true;
        config_release_only = false;
      })
unfolding call write_frame read_frame
call-Answered_example = call-Answered (wire_of "status") (λ v. some v) "status" tt ready refl

hello-eq-ok_example :
    (owner_result.protocol_version ≡ protocol_version)
    × (owner_result.version_code ≡ version_code)
    × ((hello (wire_of "system.hello") params none (from_stream answered)).1.handshake_complete
        ≡ true)
    × ((hello (wire_of "system.hello") params none (from_stream answered)).1.config_release_only
        ≡ false)
unfolding hello write_frame read_frame
hello-eq-ok_example =
    hello-eq-ok (wire_of "system.hello") params none (from_stream answered) {a = owner_result} refl

hello_for_config_release-call_example :
    let d =
      (hello_for_config_release
        (wire_of "system.hello")
        params
        none
        none
        (from_stream answered)).1 in
    ((call (wire_of "system.hello") (λ v. some v) "status" tt none d).1 ≡ d)
    × (is_ok (call (wire_of "system.hello") (λ v. some v) "status" tt none d).0 ≡ false)
hello_for_config_release-call_example =
    hello_for_config_release-call (wire_of "system.hello") (λ v. some v) params none none
      (from_stream answered) "status" tt none refl
