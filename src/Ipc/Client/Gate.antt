-- ===== src/Ipc/Client/Gate.antt =====
-- When a call touches the connection, and which response it accepts.
use hsin_rs.Prelude.{
  ℕ, ◌≤◌, ◌==◌, Bool, true, false, not, ◌&&◌, ◌||◌, Option, none, some, ◌++◌, u64_max, String,
  str_eq, str_eq_iff, Result, ok, err, is_ok, >>=-eq-ok, refuse-then, ok_or-eq-ok, ◌≡◌, ◌≢◌, refl,
  sym, arith, ap, ◌∙◌,
}
use hsin_rs.Ipc.Protocol.{
  json_rpc_version, config_release, new_request, JsonRpcResponse, success, failure, TransportError,
  json, Bytes,
}
use hsin_rs.Ipc.Frame.{write_frame, read_frame}
use hsin_rs.Ipc.Client.{Wire, Stream, Client, following, check_response, after_write, call}

-- A call may go out: the hello is complete, and a restricted connection calls only config.release.
abbrev pub is_open : Client → String → Bool
is_open c method =
    c.handshake_complete && (not c.config_release_only || str_eq method config_release)

-- The id after an id is never 0 and never the same; it stays a u64.
pub following_lem :
    (id : ℕ) → id ≤ u64_max → (1 ≤ following id) × (following id ≤ u64_max) × (following id ≢ id)
following_lem id h = omega arith

module _ (w : Wire) where
  open w use {V, requests, responses}

  module _ {A : Type 0} (parse : V → Option A) where
    -- A call before the hello is complete, or of a method other than config.release on a connection
    -- restricted to that, fails, and leaves the client and its connection as they were.
    pub call_closed :
        (method : String) (params : V) (late : Option Stream) (c : Client)
        → is_open c method ≡ false
        → ((call w parse method params late c).1 ≡ c)
          × (is_ok (call w parse method params late c).0 ≡ false)
    unfolding call
    call_closed method params late c h = ground arith

    -- How a call succeeds: its request was written under the client's next id, and one frame was
    -- read, which answers that id in JSON-RPC 2.0.
    pub record Answered (method : String) (params : V) (c : Client) (a : A) (c' : Client)
        : Type 0 where
      pub opened : is_open c method ≡ true
      pub frame : Bytes
      pub written : write_frame requests (new_request c.next_id method params) ≡ ok frame
      pub result : V
      pub rest : Bytes
      pub response :
          read_frame responses c.stream.incoming
          ≡ (ok (success json_rpc_version c.next_id result), rest)
      pub parsed : parse result ≡ some a
      pub sent : c'.stream.sent ≡ c.stream.sent ++ frame
      pub left : c'.stream.incoming ≡ rest
      pub advanced : c'.next_id ≡ following c.next_id

    check_response-eq-ok :
        (id : ℕ) (r : JsonRpcResponse V) {v : V}
        → check_response w id r ≡ ok v
        → r ≡ success json_rpc_version id v
    check_response-eq-ok id (success j i result) {v} h =
        let (e, h1) = refuse-then (not (str_eq j json_rpc_version)) _ _ h in
        let (e', h2) = refuse-then (not (i == id)) _ _ h1 in
        let same : j ≡ json_rpc_version = (str_eq_iff j json_rpc_version).0 (ground arith) in
        let same_id : i ≡ id = ground arith in cc
    check_response-eq-ok id (failure j i error) {v} h =
        let (e, h1) = refuse-then (not (str_eq j json_rpc_version)) _ _ h in
        let (e', h2) = refuse-then (not (i == id)) _ _ h1 in cc

    is_open-call :
        (method : String) (params : V) (c : Client) {a : A} {c' : Client}
        → call w parse method params none c ≡ (ok a, c')
        → is_open c method ≡ true
    unfolding call
    is_open-call method params c h = ground arith

    -- What a call that may go out does, its timer not firing.
    call_open :
        (method : String) (params : V) (c : Client)
        → is_open c method ≡ true
        → call w parse method params none c ≡ (
            let r =
              after_write w parse c.next_id c.stream
                (write_frame requests (new_request c.next_id method params)) in
            (r.0, record c { next_id = following c.next_id; stream = r.1 }))
    unfolding call
    call_open method params c h = ground arith

    after_write-eq-ok :
        (id : ℕ) (s : Stream) (m : Result TransportError Bytes) {a : A}
        → (after_write w parse id s m).0 ≡ ok a
        → (frame : Bytes) × (m ≡ ok frame)
          × (result : V) × ((read_frame responses s.incoming).0
              ≡ ok (success json_rpc_version id result))
          × (parse result ≡ some a)
          × ((after_write w parse id s m).1
              ≡ record { sent = s.sent ++ frame; incoming = (read_frame responses s.incoming).1 })
    after_write-eq-ok id s (err e) h = cc
    after_write-eq-ok id s (ok frame) h =
        let (r, got, h₁) = >>=-eq-ok (read_frame responses s.incoming).0 _ h in
        let (v, checked, h₂) = >>=-eq-ok (check_response w id r) _ h₁ in
        let shape = check_response-eq-ok id r checked in
        (frame, refl, v, rw (← shape) got, ok_or-eq-ok (parse v) json h₂, refl)

    -- A call whose timer does not fire and that returns a value was open to its method; it wrote its
    -- request under the client's next id, read one frame, which answers that id in JSON-RPC 2.0,
    -- returned the parsed result, and moved on to the following id.
    pub call-Answered :
        (method : String) (params : V) (c : Client) {a : A} {c' : Client}
        → call w parse method params none c ≡ (ok a, c')
        → Answered method params c a c'
    call-Answered method params c {a} {c'} h =
        let m = write_frame requests (new_request c.next_id method params) in
        let ran = call_open method params c (is_open-call method params c h) in
        let (frame, written, v, got, parsed, left) =
          after_write-eq-ok c.next_id c.stream m (ap (λ r. r.0) (sym ran ∙ h)) in
        let after = ap (λ r. r.1) (sym ran ∙ h) in
        record {
          opened = is_open-call method params c h;
          frame = frame;
          written = written;
          result = v;
          rest = (read_frame responses c.stream.incoming).1;
          response = ap (λ r. (r, (read_frame responses c.stream.incoming).1)) got;
          parsed = parsed;
          sent = ap (λ d. d.stream.sent) (sym after) ∙ ap (λ s. s.sent) left;
          left = ap (λ d. d.stream.incoming) (sym after) ∙ ap (λ s. s.incoming) left;
          advanced = ap (λ d. d.next_id) (sym after);
        }
