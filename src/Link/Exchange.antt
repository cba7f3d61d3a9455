-- ===== src/Link/Exchange.antt =====
-- What a client and the daemon exchange in a round: a call, and the hello before it.
use hsin_rs.Prelude.{
  ℕ, ◌==◌, Bool, Bool-cases, true, false, not, ◌&&◌, Option, none, some, [], ◌++◌, Text, Result, ok,
  err, ok_or, ◌>>=◌, String, str_eq, if◌then◌else◌, inl, inr, ◌≡◌, refl, ap, sym, ◌∙◌, arith,
}
use mathlib.Core.List.{append-nil}
use hsin_rs.Errors.{DaemonError}
use hsin_rs.Ipc.Protocol.{
  Bytes, HelloResult, new_hello, JsonRpcRequest, new_request, JsonRpcResponse, success,
  protocol_version, version_code, json_rpc_version, config_release, invalid_request_error,
  TransportError, json, system_hello,
}
use hsin_rs.Ipc.Frame.{read_frame, write_frame}
use hsin_rs.Ipc.Frame.RoundTrip.{read_frame-write_frame}
use hsin_rs.Ipc.Client.{
  Wire, Stream, Client, following, after_write, check_response, call, call_inner, hello, and_do,
  accept_hello,
}
use hsin_rs.Rpc.Methods.{Method, method_name}
use hsin_rs.Rpc.Serve.{Daemon, Connection, daemon_capabilities, answer, respond, negotiate_hello}
use hsin_rs.Rpc.Serve.Trace.{respond-method_name}
use hsin_rs.Link.{serve_round, round_of, Agrees, told}

equals_refl : (n : ℕ) → (n == n) ≡ true
equals_refl n = ground arith

-- What the daemon says of itself.
abbrev pub greeting : Text → Text → HelloResult
greeting instance_id daemon_version = record {
  protocol_version = protocol_version;
  version_code = version_code;
  daemon_version = daemon_version;
  capabilities = daemon_capabilities;
  instance_id = some instance_id;
}

module _ (w : Wire) where
  open w use {V, requests, responses, hello_params, hello_result}

  abbrev stream_after : Client → Bytes → Bytes → Stream
  stream_after c frame rest = record { sent = c.stream.sent ++ frame; incoming = rest }

  -- What the client has after a round: the next id, the frame sent, and the response taken.
  abbrev pub after_round : Client → Bytes → Bytes → Client
  after_round c frame rest = record c {
    next_id = following c.next_id;
    stream = record { sent = c.stream.sent ++ frame; incoming = rest };
  }

  call_inner-round :
      {A : Type 0} (parse : V → Option A) (method : String) (params : V) (allowed : Bool)
      (c : Client) {frame rest : Bytes} {response : JsonRpcResponse V}
      → (not allowed && not c.handshake_complete) ≡ false
      → write_frame requests (new_request c.next_id method params) ≡ ok frame
      → read_frame responses c.stream.incoming ≡ (ok response, rest)
      → call_inner w parse method params allowed none c ≡ (
        check_response w c.next_id response >>= (λ v. ok_or (parse v) json),
        after_round c frame rest,
      )
  unfolding call_inner
  call_inner-round {A} parse method params allowed c {frame} {rest} {response} ready sent read =
      let id = c.next_id in
      let exchanged : after_write w parse id c.stream
            (write_frame requests (new_request id method params))
          ≡ (
            check_response w id response >>= (λ v. ok_or (parse v) json),
            record { sent = c.stream.sent ++ frame; incoming = rest },
          ) =
        ap (after_write w parse id c.stream) sent
        ∙ ap
            (λ (r : Result TransportError (JsonRpcResponse V) × Bytes). (
              r.0 >>= (λ answer. (check_response w id answer >>= (λ v. ok_or (parse v) json))),
              stream_after c frame r.1,
            ))
            read in
      rw ready (
        ap
          (λ (r : Result TransportError A × Stream).
            (r.0, record c { next_id = following id; stream = r.1 }))
          exchanged)

  call-free :
      {A : Type 0} (parse : V → Option A) (method : String) (params : V) (c : Client)
      → c.config_release_only ≡ false
      → call w parse method params none c ≡ call_inner w parse method params false none c
  unfolding call
  call-free parse method params c h =
      ap
        (λ b.
          if b && not (str_eq method config_release)
          then (
            err (
                invalid_request_error
                  "configuration handoff connection permits only config.release"),
            c,
          )
          else call_inner w parse method params false none c)
        h

  module _ {S : Type 0} (d : Daemon S V) where
    serve_round-respond :
        (request : JsonRpcRequest V) (sc : Connection) (app : S) {frame : Bytes}
        → write_frame requests request ≡ ok frame
        → serve_round w d frame sc app ≡ round_of w d (ok request) sc app
    unfolding serve_round
    serve_round-respond request sc app {frame} h =
        ap (λ r. round_of w d r sc app)
          (ap (λ t. (read_frame requests t).0) (sym (append-nil frame))
            ∙ ap (λ r. r.0) (read_frame-write_frame requests request [] h))

    check_response-answer :
        {A : Type 0} (parse : V → Option A) (id : ℕ) (result : Result DaemonError V)
        → (check_response w id (answer d id result) >>= λ v. ok_or (parse v) json)
          ≡ told w parse result
    check_response-answer parse id (ok v) = rw (equals_refl id) refl
    check_response-answer parse id (err e) = rw (equals_refl id) refl

    respond-hello :
        (name version : Text) (id : ℕ) (sc : Connection) (app : S)
        (agrees : Agrees w d
          (new_hello name version)
          (greeting (d.instance_id app) d.daemon_version))
        → respond d (new_request id system_hello (hello_params (new_hello name version))) sc app ≡ (
          success json_rpc_version id agrees.value,
          record { hello_complete = true; config_release_only = false },
          app,
        )
    unfolding respond negotiate_hello
    respond-hello name version id sc app agrees = elim (Bool-cases sc.hello_complete) [
      | inl h ↦ rw (h, agrees.params_read, agrees.written) refl
      | inr h ↦ rw (h, agrees.params_read, agrees.written) refl
    ]

    -- A call of a method on a connection that both ends have opened, whose response arrives: the daemon runs exactly
    -- that method on the parameters that the client gave, once, and the caller is told its result.
    pub call-serve_round :
        {A : Type 0} (parse : V → Option A) (m : Method) (params : V) (c : Client)
        (sc after : Connection) (app app' : S) {frame reply rest : Bytes}
        → c.handshake_complete ≡ true
        → c.config_release_only ≡ false
        → sc.hello_complete ≡ true
        → sc.config_release_only ≡ false
        → write_frame requests (new_request c.next_id (method_name m) params) ≡ ok frame
        → serve_round w d frame sc app ≡ (ok reply, after, app')
        → c.stream.incoming ≡ reply ++ rest
        → (app' ≡ (d.run m params app).1)
          × (after ≡ sc)
          × (call w parse (method_name m) params none c
              ≡ (told w parse (d.run m params app).0, after_round c frame rest))
    call-serve_round parse m params c sc after app app' {frame} {reply} {rest} open_here free_here
          open_there free_there sent served arrived =
        let request = new_request c.next_id (method_name m) params in
        let result = d.run m params app in
        let response = answer d c.next_id result.0 in
        let round =
          sym (
            serve_round-respond request sc app sent
            ∙ ap (λ r. (write_frame responses r.0, r.1, r.2))
                (respond-method_name d m c.next_id params sc app open_there free_there))
          ∙ served in
        let read : read_frame responses c.stream.incoming ≡ (ok response, rest) =
          ap (read_frame responses) arrived
          ∙ read_frame-write_frame responses response rest (ap (λ r. r.0) round) in
        (
          ap (λ r. r.2) (sym round),
          ap (λ r. r.1) (sym round),
          call-free parse (method_name m) params c free_here
              ∙ call_inner-round parse (method_name m) params false c (ap not open_here) sent read
              ∙ ap (λ r. (r, after_round c frame rest))
                  (check_response-answer parse c.next_id result.0),
        )

    -- A hello between a client and a daemon of one release, whose response arrives: the client learns which daemon
    -- it is, both ends are open and take all methods, and the application is as it was.
    pub hello-serve_round :
        (name version : Text) (c : Client) (sc after : Connection) (app app' : S)
        {frame reply rest : Bytes}
        → Agrees w d (new_hello name version) (greeting (d.instance_id app) d.daemon_version)
        → write_frame requests
            (new_request c.next_id system_hello (hello_params (new_hello name version)))
          ≡ ok frame
        → serve_round w d frame sc app ≡ (ok reply, after, app')
        → c.stream.incoming ≡ reply ++ rest
        → (app' ≡ app)
          × (after ≡ record { hello_complete = true; config_release_only = false })
          × (hello w (new_hello name version) none c ≡ (
            ok (greeting (d.instance_id app) d.daemon_version),
            record (after_round c frame rest) {
              handshake_complete = true;
              config_release_only = false;
            },
          ))
    unfolding hello
    hello-serve_round name version c sc after app app' {frame} {reply} {rest} agrees sent served
          arrived =
        let params = hello_params (new_hello name version) in
        let request = new_request c.next_id system_hello params in
        let result = greeting (d.instance_id app) d.daemon_version in
        let response = success json_rpc_version c.next_id agrees.value in
        let round =
          sym (
            serve_round-respond request sc app sent
            ∙ ap (λ r. (write_frame responses r.0, r.1, r.2))
                (respond-hello name version c.next_id sc app agrees))
          ∙ served in
        let read : read_frame responses c.stream.incoming ≡ (ok response, rest) =
          ap (read_frame responses) arrived
          ∙ read_frame-write_frame responses response rest (ap (λ r. r.0) round) in
        (
          ap (λ r. r.2) (sym round),
          ap (λ r. r.1) (sym round),
          ap (λ r. and_do r (accept_hello w))
                (call_inner-round hello_result system_hello params true c refl sent read)
              ∙ rw (equals_refl c.next_id, agrees.result_read) refl,
        )
