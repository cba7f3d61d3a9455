-- ===== src/Examples/Usage.antt =====
-- A small JSON and a small database, on which the parameters of the usage collector run.
pub mod Sync
pub mod Stream
pub mod Rows
use hsin_rs.Prelude.{
  ℕ, ◌+◌, ◌-◌, ltb, ◌==◌, Bool, true, false, ◌||◌, not, Option, none, some, and_then, List, [], ◌∷◌,
  ◌++◌, String, str_eq, Text, text_eq, codes, if◌then◌else◌, Result, ok, err, zero, suc, ◌≡◌, refl,
}
use hsin_rs.Core.Enums.{ClientKind, codex}
use hsin_rs.Core.Usage.{UsageTokenSummary}
use hsin_rs.Errors.{DaemonError, json}
use hsin_rs.Ipc.Protocol.{Bytes}
use hsin_rs.Usage.Event.{Json, UsageEvent}
use hsin_rs.Usage.Session.{CodexState}
use hsin_rs.Usage.Store.{Store, Cursor, UsageSyncResult}

mutual
  data Sample : Type 0 where
    text : Text → Sample
    count : ℕ → Sample
    object : Fields → Sample

  data Fields : Type 0 where
    end : Fields
    field : String → Sample → Fields → Fields

abbrev field_of : String → Fields → Option Sample
field_of key end = none
field_of key (field name value rest) =
    let later = field_of key rest in if str_eq key name then some value else later

abbrev sample_get : String → Sample → Option Sample
sample_get key (object fields) = field_of key fields
sample_get key (text t) = none
sample_get key (count n) = none

abbrev sample_text : Sample → Option Text
sample_text (text t) = some t
sample_text (count n) = none
sample_text (object fields) = none

abbrev sample_count : Sample → Option ℕ
sample_count (count n) = some n
sample_count (text t) = none
sample_count (object fields) = none

abbrev is_sample_object : Sample → Bool
is_sample_object (object fields) = true
is_sample_object (text t) = false
is_sample_object (count n) = false

-- The pointers that the collector writes.
abbrev sample_pointer : String → Sample → Option Sample
sample_pointer path v =
    if str_eq path "/payload/type"
    then and_then (sample_get "payload" v) (sample_get "type")
    else if str_eq path "/payload/model"
    then and_then (sample_get "payload" v) (sample_get "model")
    else if str_eq path "/delta/stop_reason"
    then and_then (sample_get "delta" v) (sample_get "stop_reason")
    else none

-- A line of a Codex session whose total is `n` input tokens.
abbrev total_line : ℕ → Sample
total_line n = object (
    field "type" (text (codes "event_msg")) (
      field "timestamp" (count 50) (
        field "payload"
          (object (
            field "type" (text (codes "token_count")) (
              field "info"
                (object
                  (field "total_token_usage" (object (field "input_tokens" (count n) end)) end))
                end)))
          end)))

abbrev sample_line : Bytes → Option Sample
sample_line (n ∷ []) = some (total_line n)
sample_line _ = none

abbrev sample_json : Json
sample_json = record {
  Value = Sample;
  get = sample_get;
  pointer = sample_pointer;
  as_str = sample_text;
  as_u64 = sample_count;
  is_null = λ v. false;
  from_slice = sample_line;
  Time = ℕ;
  epoch = 0;
  before = ltb;
  same_time = λ a b. a == b;
  time_text = λ t. t ∷ [];
  later = λ a b. a + b;
  is_positive = ltb 0;
  as_i64 = sample_count;
  is_object = is_sample_object;
  F64 = ℕ;
  as_f64 = sample_count;
  is_finite = λ n. true;
  is_percent = λ n. ltb n 101;
  parse_from_rfc3339 = λ t. none;
  digest = λ t. t;
  digest_bytes = λ t. t;
}

-- States without a source and an account are kept.
abbrev written : Text → Option UsageTokenSummary → Text → Text → Result DaemonError Text
written model none [] [] = ok (0 ∷ model)
written model (some u) [] [] = ok (
    1 ∷ u.input_tokens ∷ u.cache_write_tokens ∷ u.cache_read_tokens ∷ u.output_tokens
    ∷ u.reasoning_output_tokens ∷ u.request_count ∷ model)
written model cumulative source account = err (json (codes "not kept"))

abbrev read_state : Text → Option CodexState
read_state (zero ∷ model) =
    some record { model = model; cumulative = none; source = []; account = [] }
read_state (suc _ ∷ a ∷ b ∷ c ∷ d ∷ e ∷ f ∷ model) = some record {
  model = model;
  cumulative = some record {
    input_tokens = a;
    cache_write_tokens = b;
    cache_read_tokens = c;
    output_tokens = d;
    reasoning_output_tokens = e;
    request_count = f;
  };
  source = [];
  account = [];
}
read_state _ = none

abbrev sample_cursor : Text → List (Text × Cursor ℕ) → Option (Cursor ℕ)
unfolding text_eq
sample_cursor hash [] = none
sample_cursor hash (c ∷ cs) =
    let rest = sample_cursor hash cs in if text_eq hash c.0 then some c.1 else rest

abbrev sample_store : Store ℕ ℕ
sample_store = record {
  Cursors = List (Text × Cursor ℕ);
  cursor = λ hash cs. ok (sample_cursor hash cs);
  save_cursor = λ hash client c now cs. ok ((hash, c) ∷ cs);
  Db = List (UsageEvent ℕ);
  route_at = λ client at db. ok none;
  insert_event = λ event db. ok (true, event ∷ db);
  insert_reading = λ key at reading tokens state db. ok db;
  to_string = λ s. written s.model s.cumulative s.source s.account;
  from_str = read_state;
}
