-- ===== src/Examples/Daemon.antt =====
-- Connections that the daemon serves, of an application that counts the methods it runs.
use hsin_rs.Prelude.{ℕ, suc, List, [], ◌∷◌, map, codes, Result, ok, ◌≡◌, refl}
use hsin_rs.Errors.{DaemonError}
use hsin_rs.Ipc.Protocol.{protocol_version, HelloParams, new_request, response_id}
use hsin_rs.Rpc.Methods.{Method, config_release}
use hsin_rs.Rpc.Serve.{Daemon, fresh, Event, received, done, disconnected, serve_connection}
use hsin_rs.Rpc.Serve.Trace.{serve_connection-ids, serve_connection-unopened}
use hsin_rs.Rpc.Serve.Handoff.{serve_connection-keeps}

abbrev hello_of : ℕ → HelloParams
hello_of code = record {
  protocol_version = protocol_version;
  version_code = code;
  client_name = codes "hsin";
  client_version = codes "1.4.0";
  capabilities = "config_handoff.v1" ∷ [];
}

-- A value is a number: as the parameters of a hello, its version code.
abbrev counter : Daemon ℕ ℕ
counter = record {
  instance_id = λ _. codes "a";
  daemon_version = codes "1.4.0";
  parse_hello = λ code. ok (hello_of code);
  hello_value = λ result. ok result.version_code;
  run = λ m v app. count m app;
}
  where
    count : Method → ℕ → Result DaemonError ℕ × ℕ
    count config_release app = (ok 7, app)
    count _ app = (ok 0, suc app)

-- A client of an older release says hello and asks for three things.
abbrev older_client : List (Event ℕ)
older_client =
    received (new_request 1 "system.hello" 33) done
    ∷ received (new_request 2 "status" 0) done
    ∷ received (new_request 3 "config.release" 0) done
    ∷ []

abbrev hasty_client : List (Event ℕ)
hasty_client = received (new_request 1 "daemon.shutdown" 0) done ∷ disconnected ∷ []

serve_connection-ids_example :
    map response_id (serve_connection counter older_client fresh 0).responses ≡ 1 ∷ 2 ∷ 3 ∷ []
unfolding serve_connection
serve_connection-ids_example = serve_connection-ids counter older_client fresh 0 refl

serve_connection-unopened_example : (serve_connection counter hasty_client fresh 5).app ≡ 5
unfolding serve_connection
serve_connection-unopened_example = serve_connection-unopened counter hasty_client fresh 5 refl

serve_connection-keeps_example : (serve_connection counter older_client fresh 5).app ≡ 5
serve_connection-keeps_example =
    serve_connection-keeps counter (λ app. app ≡ 5) (λ v app h. h) older_client 5 refl refl
