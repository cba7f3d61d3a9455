-- ===== src/Usage/Observer/Bounds.antt =====
-- What the observer of crates/hsind/src/usage.rs keeps of a stream, and that its loop over events ends.
use hsin_rs.Prelude.{
  ℕ, zero, suc, ◌+◌, ◌≤◌, ◌<◌, ltb, true, ◌||◌, Option, none, some, List, [], ◌∷◌, ◌++◌, length,
  length-append, take, drop, or_else, if_ind, option_ind, Option-cases, Bool-cases, and_then, inl,
  inr, ◌≡◌, refl, ap, sym, ◌∙◌, arith, saturating_add,
}
use hsin_rs.Ipc.Protocol.{Bytes}
use hsin_rs.Usage.Event.{Json}
use hsin_rs.Usage.Observer.{
  Observer, max_proxy_observation_bytes, position, sse_boundary, consume_event, consume,
  consume_sse_events, feed, finish,
}
use hsin_rs.Usage.Observer.Once.{counted_as, claude_done-Step, consume_event-Step, parse_json-Step}

length-drop-le : (n : ℕ) (xs : Bytes) → length (drop n xs) ≤ length xs
length-drop-le zero xs = omega arith
length-drop-le (suc n) [] = omega arith
length-drop-le (suc n) (x ∷ xs) = let h = length-drop-le n xs in omega arith

pub length-drop-lt : (n : ℕ) (xs : Bytes) → 1 ≤ n → 1 ≤ length xs → length (drop n xs) < length xs
length-drop-lt zero xs h k = absurd (omega arith)
length-drop-lt (suc n) [] h k = absurd (omega arith)
length-drop-lt (suc n) (x ∷ xs) h k = let le = length-drop-le n xs in omega arith

delimiter-advances :
    (a b : Option ℕ) {r : ℕ × ℕ}
    → or_else (and_then a (λ i. some (i, 2))) (and_then b (λ i. some (i, 4))) ≡ some r
    → 1 ≤ r.0 + r.1
delimiter-advances none none h = cc
delimiter-advances none (some i) {r} h =
    let e : (i, 4) ≡ r = cc in omega (arith, sym (ap (λ t. t.1) e))
delimiter-advances (some i) b {r} h =
    let e : (i, 2) ≡ r = cc in omega (arith, sym (ap (λ t. t.1) e))

not_empty : (bytes : Bytes) {r : ℕ × ℕ} → sse_boundary bytes ≡ some r → 1 ≤ length bytes
unfolding sse_boundary position
not_empty [] h = cc
not_empty (b ∷ bytes) h = omega arith

-- A boundary takes bytes, and the buffer has some.
pub boundary-advances :
    (bytes : Bytes) {r : ℕ × ℕ} → sse_boundary bytes ≡ some r → (1 ≤ r.0 + r.1) × (1 ≤ length bytes)
unfolding sse_boundary
boundary-advances bytes h = (
  delimiter-advances (position (b'\n' ∷ b'\n' ∷ []) bytes)
      (position (b'\r' ∷ b'\n' ∷ b'\r' ∷ b'\n' ∷ []) bytes) h,
  not_empty bytes h,
)

module _ (json : Json) where
  -- What any number of turns of the loop does to the observer.
  pub record Turn (o after : Observer json) : Type 0 where
    pub shrinks : length after.buffer ≤ length o.buffer
    pub exceeded : after.exceeded ≡ o.exceeded
    pub is_sse : after.is_sse ≡ o.is_sse
    pub once :
        length o.submitted ≡ counted_as o.recorded
        → length after.submitted ≡ counted_as after.recorded
    pub last : o.recorded ≡ true → (after.recorded ≡ true) × (after.submitted ≡ o.submitted)

  stays : (o : Observer json) → Turn o o
  stays o = record {
    shrinks = omega arith;
    exceeded = refl;
    is_sse = refl;
    once = λ h. h;
    last = λ h. (h, refl);
  }

  pub consume-Turn : (fuel : ℕ) (o : Observer json) → Turn o (consume json fuel o)
  unfolding consume
  consume-Turn zero o = stays o
  consume-Turn (suc fuel) o =
      option_ind (Turn o) (sse_boundary o.buffer) (λ n. stays o)
        (λ r h.
          let rest : Observer json = record o { buffer = drop (r.0 + r.1) o.buffer } in
          let event = take (r.0 + r.1) o.buffer in
          let step = consume_event-Step json event rest in
          let turn = consume-Turn fuel (consume_event json event rest) in
          let shorter = length-drop-le (r.0 + r.1) o.buffer in
          record {
            shrinks = omega (arith, turn.shrinks, ap length step.buffer);
            exceeded = turn.exceeded ∙ step.exceeded;
            is_sse = turn.is_sse ∙ step.is_sse;
            once = λ k. turn.once (step.once k);
            last = λ k.
                let (still, same) = step.last k in
                let (at_end, kept) = turn.last still in (at_end, kept ∙ same);
          })

  -- The turns that the length of the buffer allows are enough.
  consume-ends :
      (fuel : ℕ) (o : Observer json)
      → length o.buffer ≤ fuel
      → sse_boundary (consume json fuel o).buffer ≡ none
  unfolding consume
  consume-ends zero o enough = elim (Option-cases (sse_boundary o.buffer)) [
    | inl e ↦ e
    | inr (r, e) ↦ let (d, some_bytes) = boundary-advances o.buffer e in absurd (omega arith)
  ]
  consume-ends (suc fuel) o enough =
      option_ind (λ (after : Observer json). sse_boundary after.buffer ≡ none)
        (sse_boundary o.buffer) (λ n. n)
        (λ r e.
          let rest : Observer json = record o { buffer = drop (r.0 + r.1) o.buffer } in
          let event = take (r.0 + r.1) o.buffer in
          let step = consume_event-Step json event rest in
          let (d, some_bytes) = boundary-advances o.buffer e in
          let shorter = length-drop-lt (r.0 + r.1) o.buffer d some_bytes in
          consume-ends fuel (consume_event json event rest) (omega (arith, ap length step.buffer)))

  -- Whatever the stream, the loop over its events ends, and leaves no complete event in the buffer.
  pub consume_sse_events-ends :
      (o : Observer json) → sse_boundary (consume_sse_events json o).buffer ≡ none
  unfolding consume_sse_events
  consume_sse_events-ends o = consume-ends (length o.buffer) o (omega arith)

  -- What holds of an observer at all times.
  pub record IsSound (o : Observer json) : Type 0 where
    pub bounded : length o.buffer ≤ max_proxy_observation_bytes
    pub once : length o.submitted ≡ counted_as o.recorded

  feed-IsSound : (bytes : Bytes) (o : Observer json) → IsSound o → IsSound (feed json bytes o)
  unfolding feed consume_sse_events
  feed-IsSound bytes o sound =
      if_ind IsSound (o.exceeded || o.recorded) (λ closed. sound)
        (λ open_still.
          if_ind IsSound
            (ltb max_proxy_observation_bytes (saturating_add (length o.buffer) (length bytes)))
            (λ too_long. record { bounded = ground arith; once = sound.once })
            (λ short.
              let longer : Observer json = record o { buffer = o.buffer ++ bytes } in
              let size : length (o.buffer ++ bytes) ≤ max_proxy_observation_bytes =
                ground (arith, length-append o.buffer bytes) in
              if_ind IsSound o.is_sse
                (λ sse.
                  let turn = consume-Turn (length longer.buffer) longer in
                  record {
                    bounded = omega (arith, turn.shrinks, size);
                    once = turn.once sound.once;
                  })
                (λ whole. record { bounded = size; once = sound.once })))

  abbrev pub feed_all : List Bytes → Observer json → Observer json
  feed_all [] o = o
  feed_all (chunk ∷ chunks) o = feed_all chunks (feed json chunk o)

  -- However a response is cut into chunks, the observer of a new response never holds more than a mebibyte of it,
  -- and has submitted one event if it says so, none otherwise.
  pub feed_all-IsSound :
      (chunks : List Bytes) (o : Observer json) → IsSound o → IsSound (feed_all chunks o)
  feed_all-IsSound [] o sound = sound
  feed_all-IsSound (chunk ∷ chunks) o sound =
      feed_all-IsSound chunks (feed json chunk o) (feed-IsSound chunk o sound)

  abbrev Matches : Observer json → Type 0
  Matches after = length after.submitted ≡ counted_as after.recorded

  finish-once :
      (o : Observer json)
      → IsSound o
      → length (finish json o).submitted ≡ counted_as (finish json o).recorded
  unfolding finish consume_sse_events
  finish-once o sound =
      if_ind Matches (o.exceeded || o.recorded) (λ closed. sound.once)
        (λ open_still.
          if_ind Matches o.is_sse
            (λ sse.
              let turn = consume-Turn (length o.buffer) o in
              (claude_done-Step json (consume json (length o.buffer) o)).once
                (turn.once sound.once))
            (λ whole.
              option_ind Matches (json.from_slice o.buffer) (λ n. sound.once)
                (λ value h. (parse_json-Step json value o).once sound.once)))

  -- A response is billed once at most: whatever its chunks, from the first to the end of the stream.
  pub finish-feed_all :
      (chunks : List Bytes) (o : Observer json)
      → IsSound o
      → length (finish json (feed_all chunks o)).submitted ≤ 1
  finish-feed_all chunks o sound =
      let once = finish-once (feed_all chunks o) (feed_all-IsSound chunks o sound) in
      elim (Bool-cases (finish json (feed_all chunks o)).recorded) [
        | inl e ↦ omega (arith, once, ap counted_as e)
        | inr e ↦ omega (arith, once, ap counted_as e)
      ]
