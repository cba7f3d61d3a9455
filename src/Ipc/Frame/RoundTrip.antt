-- ===== src/Ipc/Frame/RoundTrip.antt =====
-- Reading a written frame, and refusing an oversized one.
use mathlib.Core.List.{append_assoc}
use hsin_rs.Prelude.{
  ℕ, ◌<◌, ◌≤◌, ltb, ltb→ge, ge→ltb, lt→ltb, Option, none, some, ◌++◌, take-length, drop-length,
  length, length-append, ok, err, ok_or, refuse-then, >>=-eq-ok, ok-injective, ◌≡◌, arith,
}
use hsin_rs.Ipc.Protocol.{Bytes, Codec, TransportError, json, frame_too_large, max_frame_size}
use hsin_rs.Ipc.Frame.{to_be_bytes, from_be_bytes, read_exact, write_frame, read_frame}

from_be_bytes-to_be_bytes : (n : ℕ) → n < 4_294_967_296 → from_be_bytes (to_be_bytes n) ≡ n
unfolding from_be_bytes to_be_bytes
from_be_bytes-to_be_bytes n h = omega arith

read_exact-append : (s rest : Bytes) → read_exact (length s) (s ++ rest) ≡ (ok s, rest)
unfolding read_exact
read_exact-append s rest =
    rw (ge→ltb (length (s ++ rest)) (length s) (omega (arith, length-append s rest)))
      (rw (take-length s rest, drop-length s rest))

four : (n : ℕ) (rest : Bytes) → read_exact 4 (to_be_bytes n ++ rest) ≡ (ok (to_be_bytes n), rest)
unfolding to_be_bytes
four n rest = read_exact-append (to_be_bytes n) rest

module _ {A : Type 0} (codec : Codec A) where
  write_frame-eq-ok :
      (v : A) {frame : Bytes}
      → write_frame codec v ≡ ok frame
      → (payload : Bytes) × (codec.to_vec v ≡ some payload)
        × (length payload ≤ max_frame_size)
        × (to_be_bytes (length payload) ++ payload ≡ frame)
  unfolding write_frame
  write_frame-eq-ok v h =
      let (payload, got, h₁) = >>=-eq-ok (ok_or (codec.to_vec v) json) _ h in
      let (small, h₂) = refuse-then (ltb max_frame_size (length payload)) _ _ h₁ in
      (
        payload,
        encoded (codec.to_vec v) json got,
        ltb→ge max_frame_size (length payload) small,
        ok-injective h₂,
      )
    where
      encoded : (o : Option Bytes) (e : TransportError) {p : Bytes} → ok_or o e ≡ ok p → o ≡ some p
      encoded none e k = cc
      encoded (some b) e k = cc

  -- What `write_frame` writes, `read_frame` reads back, and it leaves what follows the frame.
  pub read_frame-write_frame :
      (v : A) (rest : Bytes) {frame : Bytes}
      → write_frame codec v ≡ ok frame
      → read_frame codec (frame ++ rest) ≡ (ok v, rest)
  unfolding read_frame
  read_frame-write_frame v rest {frame} h =
      let (payload, enc, small, bytes) = write_frame-eq-ok v h in
      let n = length payload in
      rw (← bytes) (
        rw (append_assoc (to_be_bytes n) payload rest) (
          rw (four n (payload ++ rest)) (
            rw (from_be_bytes-to_be_bytes n (omega (arith, small))) (
              rw (ge→ltb max_frame_size n small) (
                rw (read_exact-append payload rest)
                  (rw (codec.from_slice-to_vec v payload enc)))))))

  -- A header that announces more than the largest frame is refused before any byte of the payload
  -- is read.
  pub read_frame_oversized :
      (n : ℕ) (rest : Bytes)
      → max_frame_size < n
      → n < 4_294_967_296
      → read_frame codec (to_be_bytes n ++ rest) ≡ (err (frame_too_large n max_frame_size), rest)
  unfolding read_frame
  read_frame_oversized n rest big fits =
      rw (four n rest) (rw (from_be_bytes-to_be_bytes n fits) (rw (lt→ltb max_frame_size n big)))
