-- ===== src/Ipc/Client/Hello.antt =====
-- What a handshake establishes on the client's side.
use hsin_rs.Prelude.{
  Bool, true, false, Option, String, str_eq, Result, ok, err, is_ok, ◌≡◌, refl, arith, Bool-cases,
  inl, inr,
}
use hsin_rs.Ipc.Protocol.{
  protocol_version, version_code, config_release, system_hello, HelloParams, HelloResult,
  TransportError,
}
use hsin_rs.Ipc.Client.{
  Wire, Stream, Client, and_do, call_inner, call, accept_hello, hello, with_handoff, retry,
  accept_owner, hello_for_config_release, is_legacy, legacy_owner_code,
}
use hsin_rs.Ipc.Client.Gate.{call_closed}

module _ (w : Wire) where
  open w use {V, requests}

  accept_hello-eq-ok :
      (r : Result TransportError HelloResult × Client) {a : HelloResult}
      → (and_do r (accept_hello w)).0 ≡ ok a
      → (a.protocol_version ≡ protocol_version)
        × (a.version_code ≡ version_code)
        × ((and_do r (accept_hello w)).1.handshake_complete ≡ true)
        × ((and_do r (accept_hello w)).1.config_release_only ≡ false)
  accept_hello-eq-ok (ok b, c) {a} h = ground arith
  accept_hello-eq-ok (err e, c) {a} h = cc

  -- A hello that succeeds got exactly this release's protocol version and version code, and opens
  -- the connection to every method.
  pub hello-eq-ok :
      (params : HelloParams) (late : Option Stream) (c : Client) {a : HelloResult}
      → (hello w params late c).0 ≡ ok a
      → (a.protocol_version ≡ protocol_version)
        × (a.version_code ≡ version_code)
        × ((hello w params late c).1.handshake_complete ≡ true)
        × ((hello w params late c).1.config_release_only ≡ false)
  unfolding hello
  hello-eq-ok params late c h =
      accept_hello-eq-ok
        (call_inner w w.hello_result system_hello (w.hello_params params) true late c) h

  -- What the calls of a handshake leave of a client: closed to every method but config.release.
  abbrev IsRestricted : Client → Type 0
  IsRestricted c = (c.config_release_only ≡ true) × (c.handshake_complete ≡ false)

  call_inner-keeps :
      (request : HelloParams) (late : Option Stream) (c : Client)
      → IsRestricted c
      → IsRestricted
          (call_inner w w.hello_result system_hello (w.hello_params request) true late c).1
  unfolding call_inner
  call_inner-keeps request late c (h, k) = (h, k)

  and_do-keeps :
      (r : Result TransportError HelloResult × Client)
      → IsRestricted r.1
      → IsRestricted (and_do {B = HelloResult × Bool} r (λ result c'. (ok (result, true), c'))).1
  and_do-keeps (ok a, c) k = k
  and_do-keeps (err e, c) k = k

  retry-keeps :
      (request : HelloParams) (late : Option Stream)
      (r : Result TransportError HelloResult × Client)
      → IsRestricted r.1
      → IsRestricted (retry w request late r).1
  retry-keeps request late (ok a, c) k = k
  retry-keeps request late (err e, c) k = elim (Bool-cases (is_legacy e)) [
    | inl legacy ↦ rw legacy (
        and_do-keeps
          (call_inner w w.hello_result system_hello
            (w.hello_params (record request { version_code = legacy_owner_code })) true late c)
          (call_inner-keeps (record request { version_code = legacy_owner_code }) late c k))
    | inr modern ↦ rw modern k
  ]

  accept_owner-flags :
      (r : Result TransportError (HelloResult × Bool) × Client)
      → IsRestricted r.1
      → ((and_do r (accept_owner w)).1.config_release_only ≡ true)
        × ((and_do r (accept_owner w)).1.handshake_complete ≡ is_ok (and_do r (accept_owner w)).0)
  accept_owner-flags (ok (a, legacy), c) (h, k) = ground arith
  accept_owner-flags (err e, c) (h, k) = (h, k)

  -- After a handshake for a release, whatever came of it, the connection permits config.release
  -- alone, and that only if the handshake succeeded.
  pub hello_for_config_release_lem :
      (params : HelloParams) (late late' : Option Stream) (c : Client)
      → ((hello_for_config_release w params late late' c).1.config_release_only ≡ true)
        × ((hello_for_config_release w params late late' c).1.handshake_complete
            ≡ is_ok (hello_for_config_release w params late late' c).0)
  unfolding hello_for_config_release
  hello_for_config_release_lem params late late' c =
      let start = record c { handshake_complete = false; config_release_only = true } in
      let request = with_handoff w params in
      let first =
        call_inner w w.hello_result system_hello (w.hello_params request) true late start in
      accept_owner-flags (retry w request late' first)
        (retry-keeps request late' first (call_inner-keeps request late start (refl, refl)))

  -- A client that has shaken hands for a release answers every other method with an error and
  -- leaves the connection untouched.
  pub hello_for_config_release-call :
      {A : Type 0} (parse : V → Option A) (params : HelloParams) (late late' : Option Stream)
      (c : Client) (method : String) (args : V) (late'' : Option Stream)
      → str_eq method config_release ≡ false
      → let d = (hello_for_config_release w params late late' c).1 in
        ((call w parse method args late'' d).1 ≡ d)
        × (is_ok (call w parse method args late'' d).0 ≡ false)
  hello_for_config_release-call parse params late late' c method args late'' other =
      let d = (hello_for_config_release w params late late' c).1 in
      call_closed w parse method args late'' d
        (let restricted = (hello_for_config_release_lem params late late' c).0 in ground arith)
