-- ===== src/Examples/Wire/Round.antt =====
-- Rounds between a client and a daemon that counts the methods it runs.
use hsin_rs.Prelude.{ℕ, suc, true, false, none, some, [], ◌∷◌, codes, ok, ◌≡◌, refl}
use hsin_rs.Ipc.Protocol.{Bytes, new_hello}
use hsin_rs.Ipc.Frame.{write_frame}
use hsin_rs.Ipc.Client.{Wire, from_stream, call, hello}
use hsin_rs.Rpc.Methods.{status, method_name, method_of}
use hsin_rs.Rpc.Serve.{Daemon, Connection, fresh, respond, negotiate_hello}
use hsin_rs.Link.{serve_round, told}
use hsin_rs.Link.Exchange.{after_round, greeting, call-serve_round, hello-serve_round}
use hsin_rs.Examples.Wire.{wire_of, answered, ready}

abbrev unit_daemon : Daemon ℕ (Unit {0})
unit_daemon = record {
  instance_id = λ _. codes "a";
  daemon_version = codes "1.4.0";
  parse_hello = λ _. ok (new_hello [] []);
  hello_value = λ _. ok tt;
  run = λ m v app. (ok tt, suc app);
}

abbrev opened : Connection
opened = record { hello_complete = true; config_release_only = false }

abbrev first_frame : Bytes
first_frame = 0 ∷ 0 ∷ 0 ∷ 1 ∷ 1 ∷ []

call-serve_round_example :
    (6 ≡ (unit_daemon.run status tt 5).1)
    × (opened ≡ opened)
    × (call (wire_of "status") (λ v. some v) (method_name status) tt none ready ≡ (
      told (wire_of "status") (λ v. some v) (unit_daemon.run status tt 5).0,
      after_round (wire_of "status") ready first_frame [],
    ))
unfolding serve_round write_frame respond method_of
call-serve_round_example =
    call-serve_round (wire_of "status") unit_daemon (λ v. some v) status tt ready opened opened 5 6
      {frame = first_frame} {reply = first_frame} {rest = []} refl refl refl refl refl refl refl

abbrev hello_wire : Wire
hello_wire = record (wire_of "system.hello") {
  hello_result = λ _. some (greeting (codes "a") (codes "1.4.0"));
}

hello-serve_round_example :
    (◌≡◌ {A = ℕ} 5 5)
    × (opened ≡ record { hello_complete = true; config_release_only = false })
    × (hello hello_wire (new_hello [] []) none (from_stream answered) ≡ (
      ok (greeting (codes "a") (codes "1.4.0")),
      record (after_round hello_wire (from_stream answered) first_frame []) {
        handshake_complete = true;
        config_release_only = false;
      },
    ))
unfolding serve_round write_frame respond negotiate_hello
hello-serve_round_example =
    hello-serve_round hello_wire unit_daemon [] [] (from_stream answered) fresh opened 5 5
      {frame = first_frame} {reply = first_frame} {rest = []}
      (record { value = tt; params_read = refl; written = refl; result_read = refl }) refl refl refl
