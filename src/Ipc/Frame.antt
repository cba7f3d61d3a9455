-- ===== src/Ipc/Frame.antt =====
-- `write_frame` and `read_frame` of crates/hsin-ipc/src/lib.rs: a frame is the length of its
-- payload as a big-endian u32, and the payload. A writer is the bytes written so far, and accepts
-- what it is given; a reader is the bytes still to come, and its end is an I/O error.
pub mod RoundTrip
use hsin_rs.Prelude.{
  ℕ, ◌+◌, ◌*◌, ◌/◌, ◌%◌, ltb, Bool, true, false, Option, none, some, List, [], ◌∷◌, ◌++◌, take,
  drop, length, if◌then◌else◌, Result, ok, err, ok_or, ◌>>=◌, refuse, ◌>>◌,
}
use hsin_rs.Ipc.Protocol.{Bytes, Codec, TransportError, io, json, frame_too_large, max_frame_size}

-- `u32::to_be_bytes` and `u32::from_be_bytes`
unfoldable pub to_be_bytes : ℕ → Bytes
to_be_bytes n = n / 16_777_216 % 256 ∷ n / 65_536 % 256 ∷ n / 256 % 256 ∷ n % 256 ∷ []

unfoldable pub from_be_bytes : Bytes → ℕ
from_be_bytes (a ∷ b ∷ c ∷ d ∷ []) = a * 16_777_216 + b * 65_536 + c * 256 + d
from_be_bytes _ = 0

-- `read_exact`: on a short read all bytes are consumed.
unfoldable pub read_exact : ℕ → Bytes → Result TransportError Bytes × Bytes
read_exact n input =
    if ltb (length input) n then (err io, []) else (ok (take n input), drop n input)

module _ {A : Type 0} (codec : Codec A) where
  abbrev frame_of : Bytes → Result TransportError Bytes
  frame_of payload =
      refuse (ltb max_frame_size (length payload)) (frame_too_large (length payload) max_frame_size)
      >> ok (to_be_bytes (length payload) ++ payload)

  -- The bytes that `write_frame` writes.
  unfoldable pub write_frame : A → Result TransportError Bytes
  unfolding to_be_bytes
  write_frame value = do payload ← ok_or (codec.to_vec value) json; frame_of payload

  abbrev read_payload : Result TransportError Bytes × Bytes → Result TransportError A × Bytes
  read_payload (ok payload, rest) = (ok_or (codec.from_slice payload) json, rest)
  read_payload (err e, rest) = (err e, rest)

  abbrev read_body : Result TransportError Bytes × Bytes → Result TransportError A × Bytes
  read_body (ok header, rest) =
      let size = from_be_bytes header in
      if ltb max_frame_size size
      then (err (frame_too_large size max_frame_size), rest)
      else read_payload (read_exact size rest)
  read_body (err e, rest) = (err e, rest)

  unfoldable pub read_frame : Bytes → Result TransportError A × Bytes
  unfolding read_exact from_be_bytes
  read_frame input = read_body (read_exact 4 input)
