-- ===== src/Examples/Usage/Sync.antt =====
-- A Codex session of two lines, read in two syncs: the totals 7 and 12.
use hsin_rs.Prelude.{
  ℕ, ◌+◌, ◌-◌, false, none, some, Option, List, [], ◌∷◌, ◌++◌, Text, text_eq_refl, ◌∙◌, Result, ok,
  err, ◌≡◌, refl, ap, sym, ok-injective, arith,
}
use hsin_rs.Core.Enums.{codex}
use hsin_rs.Core.Usage.{UsageTokenSummary, total_tokens}
use hsin_rs.Usage.Tokens.{openai_tokens, subtract_tokens}
use hsin_rs.Ipc.Protocol.{Bytes}
use hsin_rs.Usage.Event.{UsageEvent, timestamp}
use hsin_rs.Usage.Session.{has_type, default_codex_state, turn_model, is_token_count, usage_of}
use hsin_rs.Usage.Session.Cumulative.{
  input, done, then_total, then_other, from_total, Rises, IsTotal, billed, events, billed-events,
}
use hsin_rs.Usage.Store.{Cursor, UsageSyncResult}
use hsin_rs.Usage.Sync.{Read, sync_file, read_from}
use hsin_rs.Usage.Sync.Resume.{KeepsState}
use hsin_rs.Usage.Sync.Refine.{Syncs, first, again, Syncs-read_from}
use hsin_rs.Examples.Usage.{
  sample_json, sample_store, sample_cursor, written, read_state, total_line, object,
  end as no_field,
}

abbrev Outcome : Type 0
Outcome = UsageSyncResult ℕ

abbrev nothing_yet : Outcome
nothing_yet = record { imported = 0; skipped = 0; failed_files = 0; synced_at = 0 }

abbrev State : Type 0
State = List (Text × Cursor ℕ) × List (UsageEvent ℕ) × Outcome

abbrev state_of : {E : Type 0} → Result E State → State
state_of (ok s) = s
state_of (err e) = ([], [], nothing_yet)

unfoldable sync : Bytes → State → State
unfolding sync_file
sync content s =
    state_of
      (sync_file sample_json sample_store codex (b'h' ∷ []) 10 20 20 content 60 61 s.0 s.1 s.2)

abbrev one_line : Bytes
one_line = 7 ∷ b'\n' ∷ []

abbrev rest_of_file : Bytes
rest_of_file = 12 ∷ b'\n' ∷ 3 ∷ []

unfoldable once : State
unfolding sync
once = sync one_line ([], [], nothing_yet)

unfoldable twice : State
unfolding once
twice = sync (one_line ++ rest_of_file) once

imported_once : once.2.imported ≡ 1
unfolding once timestamp turn_model is_token_count usage_of total_tokens openai_tokens
    subtract_tokens
imported_once = refl

imported_twice : twice.2.imported ≡ 2
unfolding twice timestamp turn_model is_token_count usage_of total_tokens openai_tokens
    subtract_tokens
imported_twice = refl

restored :
    (model : Text) (cumulative : Option UsageTokenSummary) (source account : Text) {t : Text}
    → written model cumulative source account ≡ ok t
    → read_state t
      ≡ some record { model = model; cumulative = cumulative; source = source; account = account }
restored model none [] [] h = ap read_state (sym (ok-injective h))
restored model (some u) [] [] h = ap read_state (sym (ok-injective h))
restored model none (c ∷ source) account h = cc
restored model none [] (c ∷ account) h = cc
restored model (some u) (c ∷ source) account h = cc
restored model (some u) [] (c ∷ account) h = cc

cursor_first :
    (hash : Text) (c : Cursor ℕ) (cs : List (Text × Cursor ℕ))
    → sample_cursor hash ((hash, c) ∷ cs) ≡ some c
unfolding sample_cursor
cursor_first hash c cs = rw (text_eq_refl hash) refl

kept : KeepsState sample_store
kept = record {
  cursor-save_cursor = λ hash client c now before done.
      ap (λ cs. ok (sample_cursor hash cs)) (sym (ok-injective done))
      ∙ ap ok (cursor_first hash c before);
  from_str-to_string = λ s h. restored s.model s.cumulative s.source s.account h;
  from_str-empty = refl;
}

syncs :
    Syncs sample_json sample_store codex
      (b'h' ∷ [])
      10
      20
      20
      nothing_yet
      []
      (one_line ++ rest_of_file)
      twice.0
      twice.1
      twice.2
unfolding twice timestamp turn_model is_token_count usage_of total_tokens openai_tokens
    subtract_tokens
syncs =
    again {content = one_line} rest_of_file 60 61
      (first 60 61 {before = []} {cursors = once.0} {db = once.1} {result = once.2} refl
        (omega arith) refl)
      (omega arith) refl

Syncs-read_from_example :
    (end : Read sample_json sample_store) × (read_from sample_json sample_store codex
        (b'h' ∷ [])
        10
        20
        20
        (one_line ++ rest_of_file)
        0
        default_codex_state
        nothing_yet
        []
      ≡ ok end)
    × (end.db ≡ twice.1)
    × (end.result ≡ twice.2)
Syncs-read_from_example =
    Syncs-read_from sample_json sample_store codex (b'h' ∷ []) 10 20 20 kept nothing_yet []
      (omega arith) syncs

abbrev input_only : ℕ → UsageTokenSummary
input_only n = record {
  input_tokens = n;
  cache_write_tokens = 0;
  cache_read_tokens = 0;
  output_tokens = 0;
  reasoning_output_tokens = 0;
  request_count = 1;
}

minus_none : (n : ℕ) → n - 0 - 0 ≡ n
minus_none n = omega arith

reported :
    (n : ℕ) (p : Option UsageTokenSummary)
    → Rises p (input_only n)
    → IsTotal sample_json (total_line n) p (input_only n)
unfolding has_type timestamp turn_model is_token_count usage_of openai_tokens
reported n p rises = record {
  not_meta = refl;
  not_turn = refl;
  counts = refl;
  payload = _;
  has_payload = refl;
  step = from_total refl;
  total = _;
  has_total = refl;
  reads = ap input_only (minus_none n);
  rises = rises;
  at = _;
  timed = refl;
}

silent : is_token_count sample_json (object no_field) ≡ false
unfolding has_type is_token_count
silent = refl

billed-events_example :
    billed sample_json input (
        events sample_json
          (total_line 7 ∷ object no_field ∷ total_line 12 ∷ [])
          default_codex_state)
      + 0
    ≡ 12
billed-events_example =
    billed-events sample_json input default_codex_state
      (then_total (reported 7 none tt)
        (then_other silent (then_total (reported 12 (some (input_only 7)) refl) done)))
      refl
