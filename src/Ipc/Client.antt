-- ===== src/Ipc/Client.antt =====
-- `IpcClient` of crates/hsin-ipc/src/lib.rs. The connection is what has been sent and what is still
-- to come; a call that times out leaves it in a state that the environment chooses.
pub mod Gate
pub mod Hello
use hsin_rs.Prelude.{
  ℕ, ◌+◌, ◌≤◌, ltb, leb, ◌==◌, Bool, true, false, not, ◌&&◌, ◌||◌, Option, none, some, is_some_and,
  is_none, is_nil, List, [], ◌∷◌, ◌++◌, max, wrapping_add, String, str_eq, Text, codes, text_eq,
  decimal, if◌then◌else◌, Result, ok, err, ok_or, ◌>>=◌, refuse, ◌>>◌,
}
use hsin_rs.Errors.{AppError, ErrorCode}
use hsin_rs.Ipc.Protocol.{
  protocol_version, version_code, json_rpc_version, system_hello, config_release, config_ownership,
  config_handoff, HelloParams, HelloResult, has_capability, RpcError, JsonRpcRequest, new_request,
  JsonRpcResponse, response_id, response_jsonrpc, into_result, TransportError, json, timeout,
  handshake_required, protocol_mismatch, version_code_mismatch, response_id_mismatch,
  invalid_json_rpc_version, invalid_request_error, rpc, Bytes, Codec,
}
use hsin_rs.Ipc.Frame.{write_frame, read_frame}

-- What `serde_json` does for the messages of a connection.
pub record Wire : Type 1 where
  pub V : Type 0
  pub requests : Codec (JsonRpcRequest V)
  pub responses : Codec (JsonRpcResponse V)
  pub hello_params : HelloParams → V
  pub hello_result : V → Option HelloResult

pub record Stream : Type 0 where
  pub sent : Bytes
  pub incoming : Bytes

pub record Client : Type 0 where
  pub stream : Stream
  pub next_id : ℕ  -- u64
  pub handshake_complete : Bool
  pub config_release_only : Bool

abbrev pub from_stream : Stream → Client
from_stream stream = record {
  stream = stream;
  next_id = 1;
  handshake_complete = false;
  config_release_only = false;
}

-- An action on the connection that may fail; what it did before failing stays done.
abbrev pub Action : Type 0 → Type 0
Action A = Client → Result TransportError A × Client

abbrev pub and_do :
    {A B : Type 0}
    → Result TransportError A × Client
    → (A → Action B)
    → Result TransportError B × Client
and_do (ok a, c) f = f a c
and_do (err e, c) f = (err e, c)

-- `self.next_id.wrapping_add(1).max(1)`
abbrev pub following : ℕ → ℕ
following id = max (wrapping_add id 1) 1

-- `.await?` of the remote error
abbrev pub remote : {V : Type 0} → Result RpcError V → Result TransportError V
remote (ok v) = ok v
remote (err e) = err (rpc e)

-- The timer of a call: `some s` when it fires and the connection is left at `s`.
abbrev pub timed :
    {A : Type 0}
    → Option Stream
    → Result TransportError A × Stream
    → Result TransportError A × Stream
timed none r = r
timed (some s) r = (err timeout, s)

abbrev lookup_arg : String → List (String × Text) → Option Text
lookup_arg k [] = none
lookup_arg k ((j, v) ∷ args) = if str_eq j k then some v else lookup_arg k args

abbrev is_mismatch : ErrorCode → Bool
is_mismatch ErrorCode.protocol_mismatch = true
is_mismatch _ = false

abbrev pub legacy_owner_code : ℕ
legacy_owner_code = 33

abbrev pub handoff_introduced_code : ℕ
handoff_introduced_code = 34

-- What the daemon of the legacy release answers to a hello with another version code.
abbrev pub legacy_message : Text
legacy_message = codes "protocol error: version code 36 is incompatible with 33"

unfoldable pub is_legacy : TransportError → Bool
unfolding text_eq
is_legacy (rpc error) = is_some_and error.data_of λ d.
    is_mismatch d.code && is_some_and (lookup_arg "message" d.args) (λ m. text_eq m legacy_message)
is_legacy _ = false

module _ (w : Wire) where
  open w use {V, requests, responses, hello_params, hello_result}

  abbrev pub check_response : ℕ → JsonRpcResponse V → Result TransportError V
  check_response id response = do
    refuse (not (str_eq (response_jsonrpc response) json_rpc_version))
        (invalid_json_rpc_version (response_jsonrpc response))
    refuse (not (response_id response == id)) (response_id_mismatch id (response_id response))
    remote (into_result response)

  module _ {A : Type 0} (parse : V → Option A) where
    abbrev pub read_response : ℕ → Stream → Bytes → Result TransportError A × Stream
    read_response id s frame =
        let (response, rest) = read_frame responses s.incoming in
        (
          response >>= λ r. (check_response id r >>= λ v. ok_or (parse v) json),
          record { sent = s.sent ++ frame; incoming = rest },
        )

    abbrev pub after_write :
        ℕ → Stream → Result TransportError Bytes → Result TransportError A × Stream
    after_write id s (err e) = (err e, s)
    after_write id s (ok frame) = read_response id s frame

    unfoldable pub call_inner : String → V → Bool → Option Stream → Action A
    call_inner method params allow_before_handshake late c =
        if not allow_before_handshake && not c.handshake_complete
        then (err handshake_required, c)
        else let request = new_request c.next_id method params in
          let (result, stream) =
            timed late (after_write c.next_id c.stream (write_frame requests request)) in
          (result, record c { next_id = following c.next_id; stream = stream })

    unfoldable pub call : String → V → Option Stream → Action A
    unfolding call_inner
    call method params late c =
        if c.config_release_only && not (str_eq method config_release)
        then (
          err (
              invalid_request_error "configuration handoff connection permits only config.release"),
          c,
        )
        else call_inner method params false late c

  abbrev pub accept_hello : HelloResult → Action HelloResult
  accept_hello result c =
      if not (result.protocol_version == protocol_version)
      then (err (protocol_mismatch protocol_version result.protocol_version), c)
      else if not (result.version_code == version_code)
      then (err (version_code_mismatch version_code result.version_code), c)
      else (ok result, record c { handshake_complete = true; config_release_only = false })

  unfoldable pub hello : HelloParams → Option Stream → Action HelloResult
  unfolding call_inner
  hello params late c =
      and_do (call_inner hello_result system_hello (hello_params params) true late c) accept_hello

  abbrev pub with_handoff : HelloParams → HelloParams
  with_handoff params = record params {
    version_code = version_code;
    capabilities =
        if has_capability config_handoff params.capabilities
        then params.capabilities
        else params.capabilities ++ config_handoff ∷ [];
  }

  -- The first attempt, and the retry with the legacy code; the flag says which one it was.
  abbrev pub retry :
      HelloParams
      → Option Stream
      → Result TransportError HelloResult × Client
      → Result TransportError (HelloResult × Bool) × Client
  retry request late (ok result, c) = (ok (result, false), c)
  retry request late (err e, c) =
      if is_legacy e
      then and_do
          (call_inner hello_result system_hello
            (hello_params (record request { version_code = legacy_owner_code })) true late c)
          (λ result c'. (ok (result, true), c'))
      else (err e, c)

  abbrev pub compatible : HelloResult → Bool → Bool
  compatible result true = result.version_code == legacy_owner_code
  compatible result false =
      result.version_code == version_code
      || (has_capability config_handoff result.capabilities
          && leb handoff_introduced_code result.version_code)

  abbrev pub accept_owner : HelloResult × Bool → Action HelloResult
  accept_owner (result, legacy) c =
      if not (result.protocol_version == protocol_version)
      then (err (protocol_mismatch protocol_version result.protocol_version), c)
      else if not (compatible result legacy)
      then (
        err (
            version_code_mismatch (if legacy then legacy_owner_code else version_code)
              result.version_code),
        c,
      )
      else if not (is_some_and result.instance_id (λ id. not (is_nil id)))
          || not (has_capability config_ownership result.capabilities)
      then (
        err (invalid_request_error "configuration owner identity or release capability is missing"),
        c,
      )
      else (ok result, record c { handshake_complete = true })

  unfoldable pub hello_for_config_release :
      HelloParams → Option Stream → Option Stream → Action HelloResult
  unfolding call_inner is_legacy
  hello_for_config_release params late late' c =
      let start = record c { handshake_complete = false; config_release_only = true } in
      let request = with_handoff params in
      and_do
        (retry request late'
          (call_inner hello_result system_hello (hello_params request) true late start))
        accept_owner
