-- ===== src/Usage/Sync/Lines.antt =====
-- What the loop of `sync_file` of crates/hsind/src/usage.rs carries along the lines of a file.
use hsin_rs.Prelude.{
  ℕ, ◌+◌, ◌≤◌, ltb, ◌||◌, Option, none, some, List, [], ◌∷◌, ◌++◌, length, Text, if_ind,
  Option-cases, inl, inr, ◌≡◌, refl, sym, ap, ◌∙◌, arith, Result, ok, ◌>>=◌, >>=-eq-ok, >>=_assoc,
  ok-injective, saturating_add, u64_max,
}
use hsin_rs.Core.Enums.{ClientKind, claude, codex}
use hsin_rs.Errors.{DaemonError}
use hsin_rs.Ipc.Protocol.{Bytes}
use hsin_rs.Usage.Event.{Json, UsageEvent}
use hsin_rs.Usage.Lines.{total}
use hsin_rs.Usage.Quota.{quota_reading_key, record_quota_readings}
use hsin_rs.Usage.Session.{parse_codex_session}
use hsin_rs.Usage.Store.{Store}
use hsin_rs.Usage.Sync.{
  Read, observe, import, run_line, run_lines, routed, keyed, pop_line_end, max_session_line_bytes,
}

module _ (json : Json) where
  open json use {Value, Time, F64, before, from_slice}

  module _ (store : Store Time F64) where
    observe-keeps :
        (client : ClientKind) (hash : Text) (horizon : Time) (value : Value) (at : ℕ)
        (p : Read json store) {r : Option (UsageEvent Time) × Read json store}
        → observe json store client hash horizon value at p ≡ ok r
        → (r.1.offset ≡ p.offset) × (client ≡ claude → r.1.codex ≡ p.codex)
    unfolding observe
    observe-keeps claude hash horizon value at p done =
        let e = ok-injective done in
        (ap (λ r. r.1.offset) (sym e), λ c. ap (λ r. r.1.codex) (sym e))
    observe-keeps codex hash horizon value at p done =
        let (db, recorded, last) =
          >>=-eq-ok
            (record_quota_readings json store.insert_reading value (quota_reading_key json hash at)
              (parse_codex_session json value p.codex).0 (parse_codex_session json value p.codex).1
              horizon p.db)
            _ done in
        (ap (λ r. r.1.offset) (sym (ok-injective last)), λ c. cc)

    import-keeps :
        (client : ClientKind) (hash : Text) (started_at cutoff : Time) (at : ℕ)
        (parsed : Option (UsageEvent Time)) (p : Read json store) {q : Read json store}
        → import json store client hash started_at cutoff at parsed p ≡ ok q
        → (q.offset ≡ p.offset) × (q.codex ≡ p.codex)
    unfolding import
    import-keeps client hash started_at cutoff at none p {q} done =
        let e = sym (ok-injective done) in (ap (λ q. q.offset) e, ap (λ q. q.codex) e)
    import-keeps client hash started_at cutoff at (some event) p {q} landed =
        if_ind
          (λ (m : Result DaemonError (Read json store)).
            m ≡ ok q → (q.offset ≡ p.offset) × (q.codex ≡ p.codex))
          (before event.event_at started_at || before event.event_at cutoff)
          (λ old done.
            let e = sym (ok-injective done) in (ap (λ q. q.offset) e, ap (λ q. q.codex) e))
          (λ recent done.
            let (route, found, rest) =
              >>=-eq-ok (store.route_at client event.event_at p.db) _ done in
            let (inserted, stored, last) =
              >>=-eq-ok
                (store.insert_event (keyed json store hash at (routed json store route event)) p.db)
                _ rest in
            let e = sym (ok-injective last) in (ap (λ q. q.offset) e, ap (λ q. q.codex) e))
          landed

    module _ (client : ClientKind) (hash : Text) (started_at cutoff horizon : Time) where
      abbrev line : Bytes → Read json store → Result DaemonError (Read json store)
      line = run_line json store client hash started_at cutoff horizon

      abbrev lines : List Bytes → Read json store → Result DaemonError (Read json store)
      lines = run_lines json store client hash started_at cutoff horizon

      run_line-keeps :
          (l : Bytes) (p : Read json store) {q : Read json store}
          → line l p ≡ ok q
          → (q.offset ≡ saturating_add p.offset (length l)) × (client ≡ claude → q.codex ≡ p.codex)
      unfolding run_line
      run_line-keeps l p {q} =
          if_ind
            (λ (m : Result DaemonError (Read json store)).
              m ≡ ok q
              → (q.offset ≡ saturating_add p.offset (length l))
                × (client ≡ claude → q.codex ≡ p.codex))
            (ltb max_session_line_bytes (length l))
            (λ long done.
              let e = sym (ok-injective done) in (ap (λ q. q.offset) e, λ c. ap (λ q. q.codex) e))
            (λ short. elim (Option-cases (from_slice (pop_line_end l))) [
              | inl e ↦ rw e (λ done.
                  let e = sym (ok-injective done) in
                  (ap (λ q. q.offset) e, λ c. ap (λ q. q.codex) e))
              | inr (value, e) ↦ rw e (λ done.
                  let ((parsed, seen), observed, rest) =
                    >>=-eq-ok
                      (observe json store client hash horizon value p.offset
                        (record p { offset = saturating_add p.offset (length l) }))
                      _ done in
                  let (same, state) =
                    observe-keeps client hash horizon value p.offset
                      (record p { offset = saturating_add p.offset (length l) }) observed in
                  let (still, kept) =
                    import-keeps client hash started_at cutoff p.offset parsed seen rest in
                  (still ∙ same, λ c. kept ∙ state c))
            ])

      pub run_lines-append :
          (ls ms : List Bytes) (p : Read json store)
          → lines (ls ++ ms) p ≡ (lines ls p >>= lines ms)
      unfolding run_lines
      run_lines-append [] ms p = refl
      run_lines-append (l ∷ ls) ms p =
          >>=_assoc (line l p) (lines ls) (lines ms) (λ q. run_lines-append ls ms q)

      pub run_lines-offset :
          (ls : List Bytes) (p : Read json store) {q : Read json store}
          → p.offset + total ls ≤ u64_max
          → lines ls p ≡ ok q
          → q.offset ≡ p.offset + total ls
      unfolding run_lines
      run_lines-offset [] p fits done = omega (arith, ap (λ q. q.offset) (sym (ok-injective done)))
      run_lines-offset (l ∷ ls) p fits done =
          let (q, first, rest) = >>=-eq-ok (line l p) _ done in
          let here = (run_line-keeps l p first).0 in
          omega (arith, run_lines-offset ls q (omega arith) rest)

      pub run_lines-codex :
          client ≡ claude
          → (ls : List Bytes) (p : Read json store) {q : Read json store} → lines ls p ≡ ok q
          → q.codex ≡ p.codex
      unfolding run_lines
      run_lines-codex c [] p done = ap (λ q. q.codex) (sym (ok-injective done))
      run_lines-codex c (l ∷ ls) p done =
          let (q, first, rest) = >>=-eq-ok (line l p) _ done in
          run_lines-codex c ls q rest ∙ (run_line-keeps l p first).1 c
