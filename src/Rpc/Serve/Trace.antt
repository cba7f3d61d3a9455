-- ===== src/Rpc/Serve/Trace.antt =====
-- What a whole connection does: which responses it writes, and when the application is reached.
use hsin_rs.Prelude.{
  ℕ, Bool, true, false, not, ◌&&◌, Option, none, some, List, [], ◌∷◌, map, String, str_eq, Result,
  ◌≡◌, refl, arith, ap, sym, ◌∙◌, if_ind, Bool-cases, inl, inr, str_eq_iff,
}
use hsin_rs.Errors.{DaemonError}
use hsin_rs.Ipc.Protocol.{
  json_rpc_version, system_hello, config_release, HelloResult, JsonRpcRequest, new_request,
  JsonRpcResponse, response_id,
}
use hsin_rs.Rpc.Methods.{Method, method_of, method_name, method_of-method_name}
use hsin_rs.Rpc.Serve.{
  Daemon, Connection, answer, dispatch, dispatch_arm, hello_arm, respond, done, write_timeout,
  write_failed, Event, received, disconnected, silent, read_failed, Run, serve_connection,
}

abbrev pub request_ids : {V : Type 0} → List (Event V) → List ℕ
request_ids [] = []
request_ids (received request w ∷ es) = request.id ∷ request_ids es
request_ids (_ ∷ es) = request_ids es

module _ {S V : Type 0} (d : Daemon S V) where
  open d use {run}

  hello_arm-id :
      (id : ℕ) (c : Connection) (r : Result DaemonError (HelloResult × Bool))
      → response_id (hello_arm d id c r).0 ≡ id
  hello_arm-id id c r = ground arith

  dispatch_arm-id :
      (id : ℕ) (name : String) (params : V) (m : Option Method) (app : S)
      → response_id (dispatch_arm d id name params m app).0 ≡ id
  dispatch_arm-id id name params m app = ground arith

  -- Every response bears the id of its request.
  respond-id :
      (r : JsonRpcRequest V) (c : Connection) (app : S) → response_id (respond d r c app).0 ≡ r.id
  unfolding respond dispatch
  respond-id r c app = ground arith

  -- While a connection is open, its responses answer its requests one for one, in order.
  pub serve_connection-ids :
      (es : List (Event V)) (c : Connection) (app : S)
      → (serve_connection d es c app).result ≡ none
      → map response_id (serve_connection d es c app).responses ≡ request_ids es
  unfolding serve_connection
  serve_connection-ids [] c app h = refl
  serve_connection-ids (disconnected ∷ es) c app h = cc
  serve_connection-ids (read_failed m ∷ es) c app h = cc
  serve_connection-ids (silent ∷ es) c app h =
      if_ind {A = Run S V} (λ r. r.result ≡ none → map response_id r.responses ≡ request_ids es)
        c.hello_complete (λ _. serve_connection-ids es c app) (λ _ k. cc) h
  serve_connection-ids (received r done ∷ es) c app h =
      let c' = (respond d r c app).1 in
      let app' = (respond d r c app).2 in
      rw (respond-id r c app) (ap (λ l. r.id ∷ l) (serve_connection-ids es c' app' h))
  serve_connection-ids (received r write_timeout ∷ es) c app h = cc
  serve_connection-ids (received r (write_failed m) ∷ es) c app h = cc

  hello_arm-unopened :
      (id : ℕ) (c : Connection) (r : Result DaemonError (HelloResult × Bool))
      → (hello_arm d id c r).1.hello_complete ≡ false
      → c.hello_complete ≡ false
  hello_arm-unopened id c r h = ground arith

  abbrev Unopened : Connection → S → (JsonRpcResponse V × Connection × S) → Type 0
  Unopened c app r = r.1.hello_complete ≡ false → (r.2 ≡ app) × (c.hello_complete ≡ false)

  -- A round that leaves the hello open had it open, and left the application as it was.
  respond-Unopened :
      (r : JsonRpcRequest V) (c : Connection) (app : S) → Unopened c app (respond d r c app)
  unfolding respond dispatch
  respond-Unopened r c app =
      if_ind (Unopened c app) (not (str_eq r.jsonrpc json_rpc_version)) (λ _ h. (refl, h))
        (λ _.
          if_ind (Unopened c app) (not c.hello_complete && not (str_eq r.method system_hello))
            (λ _ h. (refl, h))
            (λ pending.
              if_ind (Unopened c app) (str_eq r.method system_hello)
                (λ _ h. (refl, hello_arm-unopened r.id c _ h))
                (λ other.
                  if_ind (Unopened c app)
                    (c.config_release_only && not (str_eq r.method config_release))
                    (λ _ h. (refl, h)) (λ _ h. ground arith))))

  unopened :
      (es : List (Event V)) (c : Connection) (app : S)
      → (serve_connection d es c app).connection.hello_complete ≡ false
      → ((serve_connection d es c app).app ≡ app) × (c.hello_complete ≡ false)
  unfolding serve_connection
  unopened [] c app h = (refl, h)
  unopened (disconnected ∷ es) c app h = (refl, h)
  unopened (read_failed m ∷ es) c app h = (refl, h)
  unopened (silent ∷ es) c app h =
      if_ind {A = Run S V}
        (λ r. r.connection.hello_complete ≡ false → (r.app ≡ app) × (c.hello_complete ≡ false))
        c.hello_complete (λ _. unopened es c app) (λ _ k. (refl, k)) h
  unopened (received r done ∷ es) c app h =
      let (same, closed) = unopened es (respond d r c app).1 (respond d r c app).2 h in
      let (same', closed') = respond-Unopened r c app closed in (same ∙ same', closed')
  unopened (received r write_timeout ∷ es) c app h = respond-Unopened r c app h
  unopened (received r (write_failed m) ∷ es) c app h = respond-Unopened r c app h

  -- On a connection that never completed a hello, the application is left as it was.
  pub serve_connection-unopened :
      (es : List (Event V)) (c : Connection) (app : S)
      → (serve_connection d es c app).connection.hello_complete ≡ false
      → (serve_connection d es c app).app ≡ app
  serve_connection-unopened es c app h = (unopened es c app h).0

  method_name-hello : (m : Method) → str_eq (method_name m) system_hello ≡ false
  unfolding method_of
  method_name-hello m = elim (Bool-cases (str_eq (method_name m) system_hello)) [
    | inl e ↦
        let same : method_name m ≡ system_hello = (str_eq_iff (method_name m) system_hello).0 e in
        let found : method_of system_hello ≡ some m =
          ap method_of (sym same) ∙ method_of-method_name m in
        cc
    | inr e ↦ e
  ]

  -- What a connection without the restriction does with a request for a known method: it runs that
  -- method on the parameters, and answers with its result.
  pub respond-method_name :
      (m : Method) (id : ℕ) (params : V) (c : Connection) (app : S)
      → c.hello_complete ≡ true
      → c.config_release_only ≡ false
      → respond d (new_request id (method_name m) params) c app
        ≡ (answer d id (run m params app).0, c, (run m params app).1)
  unfolding respond dispatch
  respond-method_name m id params c app h k =
      simp (h, k, method_name-hello m, method_of-method_name m)
