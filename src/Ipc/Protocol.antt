-- ===== src/Ipc/Protocol.antt =====
-- crates/hsin-ipc/src/lib.rs: the messages of the local RPC protocol and its errors. What
-- `serde_json` does with them is the parameter `Wire`.
use hsin_rs.Prelude.{
  ℕ, ℤ, minus, Bool, Option, none, some, List, [], String, str_eq, Text, Result, ok, err, any_of,
  ◌≡◌,
}
use hsin_rs.Errors.{AppError, error_code_as_str}

abbrev pub protocol_version : ℕ
protocol_version = 2

abbrev pub version_code : ℕ
version_code = 36

abbrev pub json_rpc_version : String
json_rpc_version = "2.0"

abbrev pub max_frame_size : ℕ
max_frame_size = 1_048_576

abbrev pub system_hello : String
system_hello = "system.hello"

abbrev pub config_release : String
config_release = "config.release"

abbrev pub config_ownership : String
config_ownership = "config_ownership.v1"

abbrev pub config_handoff : String
config_handoff = "config_handoff.v1"

pub record HelloParams : Type 0 where
  pub protocol_version : ℕ  -- u32
  pub version_code : ℕ  -- u32
  pub client_name : Text
  pub client_version : Text
  pub capabilities : List String

abbrev pub new_hello : Text → Text → HelloParams
new_hello name version = record {
  protocol_version = protocol_version;
  version_code = version_code;
  client_name = name;
  client_version = version;
  capabilities = [];
}

pub record HelloResult : Type 0 where
  pub protocol_version : ℕ  -- u32
  pub version_code : ℕ  -- u32
  pub daemon_version : Text
  pub capabilities : List String
  pub instance_id : Option Text

-- `capabilities.iter().any(|item| item == capability)`
abbrev pub has_capability : String → List String → Bool
has_capability c items = any_of (λ item. str_eq item c) items

pub record RpcError : Type 0 where
  pub code : ℤ  -- i32
  pub message : String
  pub data_of : Option AppError

abbrev pub parse_error : ℤ
parse_error = minus 32_700

abbrev pub invalid_request : ℤ
invalid_request = minus 32_600

abbrev pub method_not_found : ℤ
method_not_found = minus 32_601

abbrev pub invalid_params : ℤ
invalid_params = minus 32_602

abbrev pub internal_error : ℤ
internal_error = minus 32_603

abbrev pub application_error : ℤ
application_error = minus 32_000

abbrev pub application : AppError → RpcError
application error = record {
  code = application_error;
  message = error_code_as_str error.code;
  data_of = some error;
}

abbrev pub protocol_failure : ℤ → String → RpcError
protocol_failure code message = record { code = code; message = message; data_of = none }

pub record JsonRpcRequest (V : Type 0) : Type 0 where
  pub jsonrpc : String
  pub id : ℕ  -- u64
  pub method : String
  pub params : V

abbrev pub new_request : {V : Type 0} → ℕ → String → V → JsonRpcRequest V
new_request id method params = record {
  jsonrpc = json_rpc_version;
  id = id;
  method = method;
  params = params;
}

pub data JsonRpcResponse (V : Type 0) : Type 0 where
  success : String → ℕ → V → JsonRpcResponse V
  failure : String → ℕ → RpcError → JsonRpcResponse V

module _ {V : Type 0} where
  abbrev pub response_id : JsonRpcResponse V → ℕ
  response_id (success jsonrpc id result) = id
  response_id (failure jsonrpc id error) = id

  abbrev pub response_jsonrpc : JsonRpcResponse V → String
  response_jsonrpc (success jsonrpc id result) = jsonrpc
  response_jsonrpc (failure jsonrpc id error) = jsonrpc

  abbrev pub into_result : JsonRpcResponse V → Result RpcError V
  into_result (success jsonrpc id result) = ok result
  into_result (failure jsonrpc id error) = err error

pub data TransportError : Type 0 where
  io json timeout handshake_required : TransportError
  frame_too_large : ℕ → ℕ → TransportError
  protocol_mismatch version_code_mismatch response_id_mismatch : ℕ → ℕ → TransportError
  invalid_json_rpc_version invalid_request_error : String → TransportError
  rpc : RpcError → TransportError

abbrev pub Bytes : Type 0
Bytes = List ℕ

-- `serde_json`: how values become bytes and are read back. What is written reads back as it was.
pub record Codec (A : Type 0) : Type 0 where
  pub to_vec : A → Option Bytes
  pub from_slice : Bytes → Option A
  pub from_slice-to_vec : (a : A) (b : Bytes) → to_vec a ≡ some b → from_slice b ≡ some a
