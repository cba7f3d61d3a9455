-- ===== src/Usage/Observer/Chunks.antt =====
-- The observer of crates/hsind/src/usage.rs does not depend on how a stream is cut: the loop over the events of a
-- longer buffer.
use hsin_rs.Prelude.{
  ℕ, zero, suc, ◌+◌, ◌≤◌, none, some, ◌++◌, length, take, drop, take-append, Option-cases, inl, inr,
  ◌≡◌, refl, ap, sym, ◌∙◌, arith,
}
use mathlib.Core.Path.{subst}
use hsin_rs.Ipc.Protocol.{Bytes}
use hsin_rs.Usage.Event.{Json}
use hsin_rs.Usage.Observer.{Observer, sse_boundary, consume_event, consume, consume_sse_events}
use hsin_rs.Usage.Observer.Reading.{with_buffer, consume_event-with_buffer}
use hsin_rs.Usage.Observer.Once.{consume_event-Step}
use hsin_rs.Usage.Observer.Bounds.{boundary-advances, length-drop-lt}
use hsin_rs.Usage.Observer.Boundary.{
  HasNoReturn, sse_boundary-append, drop-append, drop-HasNoReturn,
}

module _ (json : Json) where
  -- One turn of the loop, with its event.
  abbrev turned : ℕ × ℕ → Observer json → Observer json
  turned r o =
      consume_event json (take (r.0 + r.1) o.buffer)
        (with_buffer json (drop (r.0 + r.1) o.buffer) o)

  consume-turn :
      (fuel : ℕ) (o : Observer json) {r : ℕ × ℕ}
      → sse_boundary o.buffer ≡ some r
      → consume json (suc fuel) o ≡ consume json fuel (turned r o)
  unfolding consume
  consume-turn fuel o h = rw (h, consume) refl

  consume-still :
      (fuel : ℕ) (o : Observer json) → sse_boundary o.buffer ≡ none → consume json fuel o ≡ o
  unfolding consume
  consume-still zero o h = refl
  consume-still (suc fuel) o h = rw (h, consume) refl

  turned-shorter :
      (o : Observer json) {r : ℕ × ℕ}
      → sse_boundary o.buffer ≡ some r
      → ((turned r o).buffer ≡ drop (r.0 + r.1) o.buffer)
        × (suc (length (turned r o).buffer) ≤ length o.buffer)
  turned-shorter o {r} h =
      let rest = with_buffer json (drop (r.0 + r.1) o.buffer) o in
      let step = consume_event-Step json (take (r.0 + r.1) o.buffer) rest in
      let (d, some_bytes) = boundary-advances o.buffer h in
      let shorter = length-drop-lt (r.0 + r.1) o.buffer d some_bytes in
      (step.buffer, omega (arith, ap length step.buffer))

  nothing_left : (o : Observer json) → length o.buffer ≤ 0 → sse_boundary o.buffer ≡ none
  nothing_left o h = elim (Option-cases (sse_boundary o.buffer)) [
    | inl n ↦ n
    | inr (r, e) ↦ let (d, some_bytes) = boundary-advances o.buffer e in absurd (omega arith)
  ]

  -- More fuel than the buffer is long changes nothing.
  consume-enough :
      (f g : ℕ) (o : Observer json)
      → length o.buffer ≤ f
      → length o.buffer ≤ g
      → consume json f o ≡ consume json g o
  consume-enough zero g o h k =
      let n = nothing_left o h in consume-still zero o n ∙ sym (consume-still g o n)
  consume-enough (suc f) zero o h k =
      let n = nothing_left o k in consume-still (suc f) o n ∙ sym (consume-still zero o n)
  consume-enough (suc f) (suc g) o h k = elim (Option-cases (sse_boundary o.buffer)) [
    | inl n ↦ consume-still (suc f) o n ∙ sym (consume-still (suc g) o n)
    | inr (r, e) ↦
        let (same, shorter) = turned-shorter o e in
        consume-turn f o e
        ∙ consume-enough f g (turned r o) (omega arith) (omega arith)
        ∙ sym (consume-turn g o e)
  ]

  abbrev pub longer : Bytes → Observer json → Observer json
  longer b o = with_buffer json (o.buffer ++ b) o

  -- A turn is the same with more of the stream in the buffer.
  turned-longer :
      (b : Bytes) (o : Observer json) (r : ℕ × ℕ)
      → r.0 + r.1 ≤ length o.buffer
      → turned r (longer b o) ≡ longer b (turned r o)
  turned-longer b o r fits =
      let n = r.0 + r.1 in
      let event = take n o.buffer in
      let rest = with_buffer json (drop n o.buffer) o in
      ap (λ t. consume_event json t (with_buffer json (drop n (o.buffer ++ b)) o))
        (take-append n o.buffer b fits)
      ∙ consume_event-with_buffer json (drop n (o.buffer ++ b)) event rest
      ∙ ap (λ t. with_buffer json t (consume_event json event rest)) (drop-append n o.buffer b fits)
      ∙ ap (λ t. with_buffer json (t ++ b) (consume_event json event rest))
          (sym (consume_event-Step json event rest).buffer)

  -- Reading a stream whose lines end in line feeds in two parts is reading it whole.
  pub consume-longer :
      (fuel : ℕ) (b : Bytes) (o : Observer json)
      → HasNoReturn o.buffer
      → length o.buffer ≤ fuel
      → consume_sse_events json (longer b o)
        ≡ consume_sse_events json (longer b (consume json fuel o))
  unfolding consume_sse_events
  consume-longer zero b o clean h =
      ap (λ t. consume_sse_events json (longer b t)) (sym (consume-still zero o (nothing_left o h)))
  consume-longer (suc fuel) b o clean h = elim (Option-cases (sse_boundary o.buffer)) [
    | inl n ↦ ap (λ t. consume_sse_events json (longer b t)) (sym (consume-still (suc fuel) o n))
    | inr (r, e) ↦
        let (same, shorter) = turned-shorter o e in
        let (found, fits) = sse_boundary-append o.buffer b clean e in
        let (same_b, shorter_b) = turned-shorter (longer b o) found in
        let whole = length (o.buffer ++ b) in
        consume-enough whole (suc whole) (longer b o) (omega arith) (omega arith)
        ∙ consume-turn whole (longer b o) found
        ∙ consume-enough whole (length (turned r (longer b o)).buffer) (turned r (longer b o))
            (omega arith) (omega arith)
        ∙ ap (λ t. consume_sse_events json t) (turned-longer b o r fits)
        ∙ consume-longer fuel b (turned r o)
            (subst HasNoReturn (sym same) (drop-HasNoReturn (r.0 + r.1) o.buffer clean))
            (omega arith)
        ∙ ap (λ t. consume_sse_events json (longer b t)) (sym (consume-turn fuel o e))
  ]
