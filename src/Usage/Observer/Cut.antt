-- ===== src/Usage/Observer/Cut.antt =====
-- The observer of crates/hsind/src/usage.rs does not depend on how a stream is cut: `feed` of its chunks, against
-- `feed` of the whole.
use hsin_rs.Prelude.{
  ◌+◌, ◌≤◌, ltb, Bool, Bool-cases, true, false, ◌||◌, List, [], ◌∷◌, ◌++◌, length, length-append,
  if_ind, inl, inr, ◌⊎◌, ◌≡◌, refl, ap, sym, ◌∙◌, arith, saturating_add,
}
use mathlib.Core.Path.{subst}
use mathlib.Core.List.{append_assoc, append-nil}
use hsin_rs.Ipc.Protocol.{Bytes}
use hsin_rs.Usage.Event.{Json}
use hsin_rs.Usage.Observer.{Observer, max_proxy_observation_bytes, consume_sse_events, feed, finish}
use hsin_rs.Usage.Observer.Reading.{with_buffer}
use hsin_rs.Usage.Observer.Boundary.{HasNoReturn}
use hsin_rs.Usage.Observer.Bounds.{consume-Turn, feed_all}
use hsin_rs.Usage.Observer.Chunks.{longer, consume-longer}

prefix-HasNoReturn : (a b : Bytes) → HasNoReturn (a ++ b) → HasNoReturn a
prefix-HasNoReturn [] b h = tt
prefix-HasNoReturn (x ∷ a) b h = (h.0, prefix-HasNoReturn a b h.1)

or_true : (a b : Bool) → b ≡ true → ¬ ((a || b) ≡ false)
or_true true b h k = cc
or_true false b h k = cc

-- The bytes of the chunks.
abbrev pub concat : List Bytes → Bytes
concat [] = []
concat (chunk ∷ chunks) = chunk ++ concat chunks

module _ (json : Json) where
  -- Observers that are the same, but for what they learned after their event.
  abbrev Same : Observer json → Observer json → Type 0
  Same x y = (x ≡ y) ⊎ ((x.recorded ≡ true) × (y.recorded ≡ true) × (x.submitted ≡ y.submitted))

  Same-then : {x y z : Observer json} → Same x y → Same y z → Same x z
  Same-then {z = z} (inl e) t = subst (λ w. Same w z) (sym e) t
  Same-then (inr (r, q, s)) (inl e) =
      inr (r, ap (λ w. w.recorded) (sym e) ∙ q, s ∙ ap (λ w. w.submitted) e)
  Same-then (inr (r, q, s)) (inr (r2, q2, s2)) = inr (r, q2, s ∙ s2)

  feed-closed : (a : Bytes) (o : Observer json) → o.recorded ≡ true → feed json a o ≡ o
  unfolding feed
  feed-closed a o h =
      if_ind (λ (after : Observer json). after ≡ o) (o.exceeded || o.recorded) (λ c. refl)
        (λ n. absurd (or_true o.exceeded o.recorded h n))

  finish-closed : (o : Observer json) → o.recorded ≡ true → finish json o ≡ o
  unfolding finish
  finish-closed o h =
      if_ind (λ (after : Observer json). after ≡ o) (o.exceeded || o.recorded) (λ c. refl)
        (λ n. absurd (or_true o.exceeded o.recorded h n))

  -- A stream that is read: it is one of events, no limit was met, and no event was found.
  pub record IsOpen (o : Observer json) : Type 0 where
    pub sse : o.is_sse ≡ true
    pub within : o.exceeded ≡ false
    pub waits : o.recorded ≡ false

  feed-open :
      (a : Bytes) (o : Observer json)
      → IsOpen o
      → length o.buffer + length a ≤ max_proxy_observation_bytes
      → feed json a o ≡ consume_sse_events json (longer json a o)
  unfolding feed
  feed-open a o h fits =
      let short : ltb max_proxy_observation_bytes (saturating_add (length o.buffer) (length a))
          ≡ false =
        ground arith in
      rw (h.within, h.waits, short, h.sse) refl

  feed_all-Same :
      (chunks : List Bytes) {x y : Observer json}
      → Same x y
      → Same (feed_all json chunks x) (feed_all json chunks y)
  feed_all-Same chunks (inl e) = inl (ap (feed_all json chunks) e)
  feed_all-Same [] (inr h) = inr h
  feed_all-Same (chunk ∷ chunks) {x} {y} (inr (r, q, s)) = feed_all-Same chunks (
      inr (
        ap (λ w. w.recorded) (feed-closed chunk x r) ∙ r,
        ap (λ w. w.recorded) (feed-closed chunk y q) ∙ q,
        ap (λ w. w.submitted) (feed-closed chunk x r)
            ∙ s
            ∙ ap (λ w. w.submitted) (sym (feed-closed chunk y q)),
      ))

  feed-then :
      (a b : Bytes) (o : Observer json)
      → IsOpen o
      → HasNoReturn (o.buffer ++ a)
      → length o.buffer + length (a ++ b) ≤ max_proxy_observation_bytes
      → Same (feed json b (feed json a o)) (feed json (a ++ b) o)
  unfolding consume_sse_events
  feed-then a b o h clean fits =
      let size = length-append a b in
      let size_a = length-append o.buffer a in
      let mid = consume_sse_events json (longer json a o) in
      let turn = consume-Turn json (length (o.buffer ++ a)) (longer json a o) in
      let first : feed json a o ≡ mid = feed-open a o h (omega arith) in
      let whole : feed json (a ++ b) o ≡ consume_sse_events json (longer json b mid) =
        feed-open (a ++ b) o h fits
        ∙ ap (λ t. consume_sse_events json (with_buffer json t o)) (sym (append_assoc o.buffer a b))
        ∙ consume-longer json (length (o.buffer ++ a)) b (longer json a o) clean (omega arith) in
      elim (Bool-cases mid.recorded) [
        | inl r ↦
            let after = longer json b mid in
            let (still, kept) = (consume-Turn json (length after.buffer) after).last r in
            let same = ap (feed json b) first ∙ feed-closed b mid r in
            inr (
              ap (λ w. w.recorded) same ∙ r,
              ap (λ w. w.recorded) whole ∙ still,
              ap (λ w. w.submitted) same ∙ sym kept ∙ ap (λ w. w.submitted) (sym whole),
            )
        | inr n ↦
            let open_still : IsOpen mid = record {
              sse = turn.is_sse ∙ h.sse;
              within = turn.exceeded ∙ h.within;
              waits = n;
            } in
            inl (
              ap (feed json b) first
              ∙ feed-open b mid open_still (omega (arith, turn.shrinks))
              ∙ sym whole)
      ]

  feed-concat :
      (chunks : List Bytes) (a : Bytes) (o : Observer json)
      → IsOpen o
      → HasNoReturn (o.buffer ++ (a ++ concat chunks))
      → length o.buffer + length (a ++ concat chunks) ≤ max_proxy_observation_bytes
      → Same (feed_all json chunks (feed json a o)) (feed json (a ++ concat chunks) o)
  feed-concat [] a o h clean fits = inl (ap (λ t. feed json t o) (sym (append-nil a)))
  feed-concat (chunk ∷ chunks) a o h clean fits =
      let regroup = append_assoc a chunk (concat chunks) in
      let clean_all = subst (λ t. HasNoReturn (o.buffer ++ t)) (sym regroup) clean in
      let size = ap length regroup in
      let size_all = length-append (a ++ chunk) (concat chunks) in
      let clean_a =
        prefix-HasNoReturn (o.buffer ++ a) (chunk ++ concat chunks)
          (subst HasNoReturn (sym (append_assoc o.buffer a (chunk ++ concat chunks))) clean) in
      Same-then (feed_all-Same chunks (feed-then a chunk o h clean_a (omega arith))) (
        Same-then (feed-concat chunks (a ++ chunk) o h clean_all (omega arith))
          (inl (ap (λ t. feed json t o) regroup)))

  finish-Same :
      {x y : Observer json} → Same x y → (finish json x).submitted ≡ (finish json y).submitted
  finish-Same (inl e) = ap (λ w. (finish json w).submitted) e
  finish-Same {x} {y} (inr (r, q, s)) =
      ap (λ w. w.submitted) (finish-closed x r)
      ∙ s
      ∙ ap (λ w. w.submitted) (sym (finish-closed y q))

  -- What is billed of a stream of at most a mebibyte, whose lines end in line feeds, does not depend on the chunks in
  -- which it comes: an observer that has not met its limit or its event submits what it submits of the whole.
  pub finish-concat :
      (chunk : Bytes) (chunks : List Bytes) (o : Observer json)
      → IsOpen o
      → HasNoReturn (o.buffer ++ (chunk ++ concat chunks))
      → length o.buffer + length (chunk ++ concat chunks) ≤ max_proxy_observation_bytes
      → (finish json (feed_all json (chunk ∷ chunks) o)).submitted
        ≡ (finish json (feed json (chunk ++ concat chunks) o)).submitted
  finish-concat chunk chunks o h clean fits = finish-Same (feed-concat chunks chunk o h clean fits)
